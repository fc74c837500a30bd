-- ===== src/Libc/Printf/Bounds.antt =====
-- How much of its buffer `printf` fills.
use polx.Base.{
  ℕ, zero, suc, ◌+◌, ◌-◌, ◌/◌, ◌%◌, ◌^◌, ◌≤◌, ◌<◌, ◌≡◌, refl, ◌≢◌, inl, inr, true, false, ◌||◌,
  List, [], ◌∷◌, arith, ℕ_discrete, ltb, leb, ◌==◌, if◌then◌else◌, Bool-cases, update, done, Ends,
  Ends-bind,
}
use polx.Klib.Strings.{Bytes}
use polx.Klib.Format.{Arg, add_to_start, digit, is_negative, negate}
use polx.Klib.Format.Itoa.{add_to_start_lem}
use polx.Klib.Format.Digits.{IsBase, divide}
use polx.Klib.Format.Render.{
  Piece, plain, percent, decimal, hexadecimal, string, ArePieces, format_of, args_of,
}
use polx.Libc.Printf.{
  terminal_resolution, itoa_loop, itoa, copy_string, put_int, printf_loop, printf,
}

itoa_loop-count :
    (f n : ℕ) (m : Bytes) (dest base idx max_len : ℕ)
    → IsBase base
    → n ≤ f
    → idx ≤ max_len
    → Ends (λ r. r.1 ≤ max_len) (itoa_loop f n m dest base idx max_len)
unfolding itoa_loop
itoa_loop-count zero n m dest base idx max_len b h le =
    let z : (n == 0) ≡ true = ground (arith, h) in rw z le
itoa_loop-count (suc f) n m dest base idx max_len b h le = elim (ℕ_discrete n 0) [
  | yes z ↦ rw z le
  | no ne ↦
      (let busy : (n == 0) ≡ false = ground (arith, ne) in
        elim (Bool-cases (leb max_len idx)) [
          | inl full ↦ rw busy (rw full le)
          | inr room ↦ rw busy (
              rw room (
                itoa_loop-count f (n / base) _ dest base (idx + 1) max_len b
                  (divide base n f b ne h).0 (ground (arith, room))))
        ])
]

-- `_itoa` ends, and reports at most one character more than it is allowed, and that only for a negative number.
pub itoa-count :
    (n : ℕ) (m : Bytes) (dest base max_len : ℕ)
    → IsBase base
    → 0 < max_len
    → Ends (λ r. (r.1 ≤ max_len + 1) × (n < 2 ^ 31 → r.1 ≤ max_len)) (itoa n m dest base max_len)
unfolding itoa
itoa-count n m dest base max_len b pos = elim (ℕ_discrete n 0) [
  | yes z ↦ rw z (omega arith, λ h. omega arith)
  | no ne ↦
      (let busy : (n == 0) ≡ false = ground (arith, ne) in
        let value = if is_negative n then negate n else n in
        let left = if is_negative value then 0 else value in
        rw busy (
          Ends-bind (λ r. r.1 ≤ max_len) (λ r. (r.1 ≤ max_len + 1) × (n < 2 ^ 31 → r.1 ≤ max_len))
            (itoa_loop left left m dest base 0 max_len)
            (λ r. done (if is_negative n then (add_to_start r.0 dest b'-' r.1, r.1 + 1) else r))
            (itoa_loop-count left left m dest base 0 max_len b (omega arith) (omega arith))
            (λ r le. elim (Bool-cases (is_negative n)) [
              | inl neg ↦ rw neg (omega (arith, le), λ h. absurd (ground (arith, neg, h)))
              | inr plus ↦ rw plus (omega (arith, le), λ h. le)
            ])))
]

put_int-length :
    (n base : ℕ) (m : Bytes) (string_len : ℕ)
    → IsBase base
    → string_len < 1920
    → Ends (λ r. r.1 ≤ 1921) (put_int n base m string_len)
unfolding put_int
put_int-length n base m string_len b room =
    Ends-bind _ (λ r. r.1 ≤ 1921) (itoa n m string_len base (terminal_resolution - string_len)) _
      (itoa-count n m string_len base (terminal_resolution - string_len) b (omega arith))
      (λ r h. omega (arith, h.0, room))

copy_string-length :
    (s : List ℕ) (m : Bytes) (string_len : ℕ)
    → string_len ≤ 1920
    → (copy_string s m string_len).1 ≤ 1920
unfolding copy_string
copy_string-length [] m string_len le = le
copy_string-length (c ∷ s) m string_len le = elim (Bool-cases (ltb string_len 1920)) [
  | inl room ↦
      rw room (copy_string-length s (update m string_len c) (string_len + 1) (ground (arith, room)))
  | inr full ↦ rw full le
]

-- a full buffer ends the loop
printf_loop-full :
    (format : List ℕ) (args : List Arg) (m : Bytes) (string_len : ℕ)
    → ltb string_len terminal_resolution ≡ false
    → printf_loop format args m string_len ≡ done (m, string_len)
unfolding printf_loop
printf_loop-full [] args m string_len full = refl
printf_loop-full (c ∷ []) args m string_len full = rw full refl
printf_loop-full (c ∷ d ∷ s) args m string_len full = rw full refl

printf_loop-plain :
    (c : ℕ) (format : List ℕ) (args : List Arg) (m : Bytes) (string_len : ℕ)
    → c ≢ b'%'
    → ltb string_len terminal_resolution ≡ true
    → printf_loop (c ∷ format) args m string_len
      ≡ printf_loop format args (update m string_len c) (string_len + 1)
unfolding printf_loop
printf_loop-plain c [] args m string_len ne room =
    let n : (c == b'%') ≡ false = ground (arith, ne) in rw (room, n) refl
printf_loop-plain c (d ∷ s) args m string_len ne room =
    let n : (c == b'%') ≡ false = ground (arith, ne) in rw room (rw n refl)

printf_loop-length :
    (ps : List Piece) (m : Bytes) (string_len : ℕ)
    → ArePieces ps
    → string_len ≤ 1921
    → Ends (λ r. r.1 ≤ 1921) (printf_loop (format_of ps) (args_of ps) m string_len)
unfolding printf_loop
printf_loop-length [] m string_len ok le = le
printf_loop-length (p ∷ ps) m string_len ok le =
    elim (Bool-cases (ltb string_len terminal_resolution)) [
      | inr full ↦
          rw (printf_loop-full (format_of (p ∷ ps)) (args_of (p ∷ ps)) m string_len full) le
      | inl room ↦ with_room p ps m string_len ok room (λ w k h. printf_loop-length ps w k ok.1 h)
    ]
  where
    with_room :
        (q : Piece) (qs : List Piece) (w : Bytes) (k : ℕ)
        → ArePieces (q ∷ qs)
        → ltb k terminal_resolution ≡ true
        → ((v : Bytes) (j : ℕ)
            → j ≤ 1921
            → Ends (λ r. r.1 ≤ 1921) (printf_loop (format_of qs) (args_of qs) v j))
        → Ends (λ r. r.1 ≤ 1921) (printf_loop (format_of (q ∷ qs)) (args_of (q ∷ qs)) w k)
    with_room (plain c) qs w k fine room rest =
        rw (printf_loop-plain c (format_of qs) (args_of qs) w k fine.0 room)
          (rest (update w k c) (k + 1) (ground (arith, room)))
    with_room percent qs w k fine room rest =
        rw (room, printf_loop) (rest (update w k b'%') (k + 1) (ground (arith, room)))
    with_room (decimal n) qs w k fine room rest =
        rw (room, printf_loop)
          (Ends-bind (λ r. r.1 ≤ 1921) (λ r. r.1 ≤ 1921) (put_int n 10 w k) _
            (put_int-length n 10 w k (inl refl) (ground (arith, room))) (λ r h. rest r.0 r.1 h))
    with_room (hexadecimal n) qs w k fine room rest =
        rw (room, printf_loop)
          (Ends-bind (λ r. r.1 ≤ 1921) (λ r. r.1 ≤ 1921) (put_int n 16 w k) _
            (put_int-length n 16 w k (inr refl) (ground (arith, room))) (λ r h. rest r.0 r.1 h))
    with_room (string s) qs w k fine room rest =
        rw (room, printf_loop)
          (rest (copy_string s w k).0 (copy_string s w k).1
            (omega (arith, copy_string-length s w k (ground (arith, room)))))

-- `printf` of a format whose arguments suit it ends, with a length of at most one more than the screen has
-- places: 1921, the size of its buffer.
pub printf-length :
    (ps : List Piece) (m : Bytes)
    → ArePieces ps
    → Ends (λ r. r.1 ≤ 1921) (printf m (format_of ps) (args_of ps))
unfolding printf
printf-length ps m ok = printf_loop-length ps m 0 ok (omega arith)

itoa_loop-done :
    (f n : ℕ) (m : Bytes) (dest base idx : ℕ) → itoa_loop f n m dest base idx idx ≡ done (m, idx)
unfolding itoa_loop
itoa_loop-done zero n m dest base idx =
    let full : (n == 0 || leb idx idx) ≡ true = ground arith in rw full refl
itoa_loop-done (suc f) n m dest base idx =
    let full : (n == 0 || leb idx idx) ≡ true = ground arith in rw full refl

itoa_loop-one :
    (f n : ℕ) (m : Bytes) (dest : ℕ)
    → n ≢ 0
    → n ≤ f
    → itoa_loop f n m dest 10 0 1 ≡ done (add_to_start m dest (digit (n % 10)) 0, 1)
unfolding itoa_loop
itoa_loop-one zero n m dest ne h = absurd (omega (arith, ne))
itoa_loop-one (suc f) n m dest ne h =
    let busy : (n == 0) ≡ false = ground (arith, ne) in
    rw busy (itoa_loop-done f (n / 10) (add_to_start m dest (digit (n % 10)) 0) dest 10 1)

-- Where one place is left before the limit, a negative number other than the least `int` takes two places,
-- and the closing 0 goes into the third: at the end of `printf`'s buffer that is past its last byte.
pub itoa-overrun :
    (n dest : ℕ) (m : Bytes)
    → 2 ^ 31 < n
    → n < 2 ^ 32
    → Ends (λ r. (r.1 ≡ 2) × (r.0 (dest + 2) ≡ 0)) (itoa n m dest 10 1)
unfolding itoa
itoa-overrun n dest m big small =
    let busy : (n == 0) ≡ false = ground (arith, big) in
    let neg : is_negative n ≡ true = ground (arith, big) in
    let plus : is_negative (negate n) ≡ false = ground (arith, big, small) in
    let nonzero : negate n ≢ 0 = omega (arith, big, small) in
    rw busy (
      rw neg (
        rw plus (
          rw (itoa_loop-one (negate n) (negate n) m dest nonzero (omega arith)) (
            refl,
            ground (
              arith,
              add_to_start_lem (add_to_start m dest (digit (negate n % 10)) 0) dest b'-' 1
                  (dest + 2),
            ),
          ))))
