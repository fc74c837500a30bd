-- ===== src/Files/Seek.antt =====
-- `do_lseek` of src/kernel/vfs/lseek.c. The descriptors of the task are a table of MAX_FDS places; a number
-- outside it is an access outside the array.
use polx.Base.{
  ℕ, ◌+◌, ◌-◌, ◌^◌, ◌≤◌, ◌<◌, ◌≡◌, refl, ap, inl, inr, Bool, true, false, ◌||◌, Option, none, some,
  arith, ltb, leb, ◌==◌, if◌then◌else◌, Bool-cases, Option-cases, update, add_word, Outcome, done,
  fault, Ends,
}

pub data FileType : Type 0 where
  file : FileType
  dir : FileType
  chrdev : FileType
  blkdev : FileType
  pipe : FileType
  symlink : FileType
  mntpt : FileType

-- the descriptor with what `lseek` reads of its node
pub record Fd : Type 0 where
  pub position : ℕ
  pub v_type : FileType
  pub size : ℕ

abbrev pub max_fds : ℕ
max_fds = 256

abbrev pub Fds : Type 0
Fds = ℕ → Option Fd

-- the `errno` values of the call
abbrev pub enxio : ℕ
enxio = 6

abbrev pub ebadf : ℕ
ebadf = 9

abbrev pub einval : ℕ
einval = 22

abbrev pub espipe : ℕ
espipe = 29

pub data Whence : Type 0 where
  seek_set : Whence
  seek_cur : Whence
  seek_end : Whence
  other : Whence

-- what the call returns, `errno` after it if it failed, and the descriptors
pub data Sought : Type 0 where
  failed : (errno : ℕ) → Sought
  moved_to : (position : ℕ) → Sought

abbrev pub is_file : FileType → Bool
is_file file = true
is_file dir = false
is_file chrdev = false
is_file blkdev = false
is_file pipe = false
is_file symlink = false
is_file mntpt = false

-- SEEK_SET and SEEK_END
unfoldable pub seek_to : Fd → (offset : ℕ) → Sought
seek_to fd offset =
    if leb (2 ^ 31) offset || ltb fd.size offset then failed enxio else moved_to offset

-- SEEK_CUR
unfoldable pub seek_by : Fd → (offset : ℕ) → Sought
seek_by fd offset =
    let new_offset = add_word fd.position offset in
    if ltb fd.size new_offset then failed enxio else moved_to new_offset

unfoldable pub seek : Fd → (offset : ℕ) → Whence → Sought
unfolding seek_to seek_by
seek fd offset seek_set = seek_to fd offset
seek fd offset seek_end = seek_to fd offset
seek fd offset seek_cur = seek_by fd offset
seek fd offset other = failed einval

abbrev pub set_position : Fds → (fd : ℕ) → Fd → Sought → Sought × Fds
set_position fds fd d (failed errno) = (failed errno, fds)
set_position fds fd d (moved_to p) = (moved_to p, update fds fd (some (record d { position = p })))

unfoldable pub do_lseek : Fds → (fd offset : ℕ) → Whence → Outcome (Sought × Fds)
unfolding seek
do_lseek fds fd offset whence =
    if ltb fd max_fds
    then elim (fds fd) [
      | none ↦ done (failed ebadf, fds)
      | some d ↦
          if is_file d.v_type
          then done (set_position fds fd d (seek d offset whence))
          else done (failed espipe, fds)
    ]
    else fault

-- The position of every file's descriptor is in the file or at its end.
unfoldable pub IsInFile : Fds → Type 0
IsInFile fds = (i : ℕ) (d : Fd) → fds i ≡ some d → is_file d.v_type ≡ true → d.position ≤ d.size

-- The number that a 32-bit offset stands for, added to a position: none if that is before the start.
abbrev pub shifted : (position offset : ℕ) → Option ℕ
shifted position offset =
    if ltb offset (2 ^ 31)
    then some (position + offset)
    else if leb (2 ^ 32) (position + offset)
    then some (position + offset - 2 ^ 32)
    else none

some-eq : {a b : Fd} → some a ≡ some b → a ≡ b
some-eq {a} e = ap (λ o. elim o [ none ↦ a | some d ↦ d ]) e

seek-size : (d : Fd) (offset : ℕ) (w : Whence) (p : ℕ) → seek d offset w ≡ moved_to p → p ≤ d.size
unfolding seek
seek-size d offset seek_set p e = ground (arith, e)
seek-size d offset seek_end p e = ground (arith, e)
seek-size d offset seek_cur p e = ground (arith, e)
seek-size d offset other p e = absurd (ground (arith, e))

set_position-IsInFile :
    (fds : Fds) (fd : ℕ) (d : Fd) (o : Sought)
    → IsInFile fds
    → ((p : ℕ) → o ≡ moved_to p → p ≤ d.size)
    → IsInFile (set_position fds fd d o).1
unfolding IsInFile
set_position-IsInFile fds fd d (failed errno) ok fits i b at is = ok i b at is
set_position-IsInFile fds fd d (moved_to p) ok fits i b at is = elim (Bool-cases (fd == i)) [
  | inl same ↦
      (let e : record d { position = p } ≡ b = some-eq (rw same at at) in rw (← e) (fits p refl))
  | inr ne ↦ ok i b (rw ne at at) is
]

-- `lseek` on a descriptor number of the table never moves the position of a file past its end, whatever
-- the offset and where it counts from.
pub do_lseek-IsInFile :
    (fds : Fds) (fd offset : ℕ) (w : Whence)
    → fd < max_fds
    → IsInFile fds
    → Ends (λ out. IsInFile out.1) (do_lseek fds fd offset w)
unfolding do_lseek
do_lseek-IsInFile fds fd offset w inside ok =
    let yes_inside : ltb fd max_fds ≡ true = ground (arith, inside) in
    rw yes_inside (elim (Option-cases (fds fd)) [
      | inl none_here ↦ rw none_here ok
      | inr here ↦
          (let (d, at) = here in
            elim (Bool-cases (is_file d.v_type)) [
              | inl is ↦
                  rw (at, do_lseek)
                    (rw is
                      (set_position-IsInFile fds fd d (seek d offset w) ok (seek-size d offset w)))
              | inr no_file ↦ rw (at, do_lseek) (rw no_file ok)
            ])
    ])

-- From the current position, `lseek` goes by the signed offset: forth or back, to any place that is not before
-- the start and not past the end of the file; otherwise it fails with ENXIO.
pub seek-shifted :
    (d : Fd) (offset : ℕ)
    → d.position ≤ d.size
    → d.size < 2 ^ 31
    → offset < 2 ^ 32
    → seek d offset seek_cur ≡ (elim (shifted d.position offset) as (λ o. Sought) [
      | none ↦ failed enxio
      | some p ↦ if leb p d.size then moved_to p else failed enxio
    ])
unfolding seek
seek-shifted d offset fits small word_sized = ground arith
