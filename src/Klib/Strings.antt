-- ===== src/Klib/Strings.antt =====
-- Strings and blocks of memory: src/kernel/klib (strlen.c, strcmp.c, strncpy.c, memset.c, memcpy.c) and
-- the C library's src/libc/string/strlen.c. Memory is a function from the address of a byte to the byte.
-- The loop that looks for the end of a string runs on fuel.
pub mod Length
pub mod Copy
use polx.Base.{
  ◌>>=◌, ℕ, zero, suc, ◌+◌, ◌%◌, ◌^◌, Bool, true, false, ◌==◌, if◌then◌else◌, update, add_word,
  Outcome, done, out_of_fuel,
}

abbrev pub Bytes : Type 0
Bytes = ℕ → ℕ

-- the loop of `strlen`
unfoldable pub strlen_loop : (fuel : ℕ) → Bytes → (str len : ℕ) → Outcome ℕ
strlen_loop zero m str len = out_of_fuel
strlen_loop (suc n) m str len =
    let rest = strlen_loop n m str (add_word len 1) in if m (str + len) == 0 then done len else rest

unfoldable pub strlen : (fuel : ℕ) → Bytes → (str : ℕ) → Outcome ℕ
strlen fuel m str = strlen_loop fuel m str 0

-- The loop of `strcmp`. The C function returns -1 where this is `false`, and 0 where it is `true`.
unfoldable pub strcmp_loop : (rounds : ℕ) → Bytes → (s1 s2 i : ℕ) → Bool
strcmp_loop zero m s1 s2 i = true
strcmp_loop (suc n) m s1 s2 i =
    let rest = strcmp_loop n m s1 s2 (i + 1) in if m (s1 + i) == m (s2 + i) then rest else false

unfoldable pub strcmp : (fuel : ℕ) → Bytes → (s1 s2 : ℕ) → Outcome Bool
unfolding strlen
strcmp fuel m s1 s2 = do
  s1_len ← strlen fuel m s1
  s2_len ← strlen fuel m s2
  done (if s1_len == s2_len then strcmp_loop s1_len m s1 s2 0 else false)

-- the second loop of `strncpy`
unfoldable pub pad_loop : (rounds : ℕ) → Bytes → (dst i : ℕ) → Bytes
pad_loop zero m dst i = m
pad_loop (suc n) m dst i = pad_loop n (update m (dst + i) 0) dst (i + 1)

-- the first one, then the second
unfoldable pub strncpy_loop : (rounds : ℕ) → Bytes → (dst src i : ℕ) → Bytes
strncpy_loop zero m dst src i = m
strncpy_loop (suc n) m dst src i =
    let rest = strncpy_loop n (update m (dst + i) (m (src + i))) dst src (i + 1) in
    if m (src + i) == 0 then pad_loop (suc n) m dst i else rest

unfoldable pub strncpy : Bytes → (dst src n : ℕ) → Bytes
unfolding strncpy_loop
strncpy m dst src n = strncpy_loop n m dst src 0

unfoldable pub memset_loop : (rounds : ℕ) → Bytes → (s c i : ℕ) → Bytes
memset_loop zero m s c i = m
memset_loop (suc n) m s c i = memset_loop n (update m (s + i) (c % 2 ^ 8)) s c (i + 1)

unfoldable pub memset : Bytes → (s c n : ℕ) → Bytes
unfolding memset_loop
memset m s c n = memset_loop n m s c 0

unfoldable pub memcpy_loop : (rounds : ℕ) → Bytes → (dest src i : ℕ) → Bytes
memcpy_loop zero m dest src i = m
memcpy_loop (suc n) m dest src i =
    memcpy_loop n (update m (dest + i) (m (src + i))) dest src (i + 1)

unfoldable pub memcpy : Bytes → (dest src count : ℕ) → Bytes
unfolding memcpy_loop
memcpy m dest src count = memcpy_loop count m dest src 0
