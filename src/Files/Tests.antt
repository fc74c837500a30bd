-- ===== src/Files/Tests.antt =====
-- Runs on files.
use polx.Base.{
  ℕ, ◌+◌, ◌-◌, ◌%◌, ◌^◌, ◌<◌, ◌≡◌, refl, ap, inl, inr, none, some, List, [], ◌∷◌, arith, ◌==◌,
  if◌then◌else◌, Bool-cases, update, out_of_fuel, Ends,
}
use polx.Terminal.Vga.{Buffer}
use polx.Files.Data.{ramfs_read, ramfs_write}
use polx.Files.Data.Copy.{ramfs_read-ramfs_write}
use polx.Files.Seek.{Fd, Fds, file, seek_cur, do_lseek, IsInFile, do_lseek-IsInFile}
use polx.Files.Descriptors.{Descriptors, fd_remove, IsOpen, fd_remove-IsOpen, fd_remove-dangling}
use polx.Files.Tree.{Node, Nodes, add_child, remove_child}
use polx.Files.Tree.Removal.{remove_child-HasChildren}
use polx.Files.Tree.Children.{HasChildren, add_child-HasChildren}
use polx.Files.Write.{Written, write_loop, ramfs_op}
use polx.Files.Write.Rounds.{write_loop-full}
use polx.Files.Write.Stored.{Stored, write_loop-Stored}

abbrev letters : Buffer
letters = λ a. 97 + a % 26

abbrev blank : Buffer
blank = λ a. 0

ramfs_read-ramfs_write_example :
    let w = ramfs_write 4096 blank 100 letters 20 0 in
    let r = ramfs_read 4096 w.bytes 100 20 blank 0 in
    (r.count ≡ w.count) × ((k : ℕ) → k < r.count → r.bytes k ≡ letters k)
ramfs_read-ramfs_write_example =
    ramfs_read-ramfs_write 4096 blank 100 letters 20 blank 0 0 (omega arith) (omega arith)

abbrev page : Fd
page = record { position = 100; v_type = file; size = 4096 }

abbrev one_file : Fds
one_file = λ i. if i == 3 then some page else none

page-eq : {d e : Fd} → some d ≡ some e → d ≡ e
page-eq {d} e = ap (λ o. elim o [ none ↦ d | some x ↦ x ]) e

one_file-IsInFile : IsInFile one_file
unfolding IsInFile
one_file-IsInFile i d at is = elim (Bool-cases (i == 3)) [
  | inl here ↦ (let e : page ≡ d = page-eq (rw here at at) in rw (← e) (omega arith))
  | inr none_here ↦ absurd (ground (arith, rw none_here at at))
]

do_lseek-IsInFile_example :
    Ends (λ out. IsInFile out.1) (do_lseek one_file 3 (2 ^ 32 - 50) seek_cur)
do_lseek-IsInFile_example =
    do_lseek-IsInFile one_file 3 (2 ^ 32 - 50) seek_cur (omega arith) one_file-IsInFile

-- descriptors at 16, 32 and 48
abbrev open_files : Descriptors
open_files = record {
  first_fd = 16;
  next = update (update (λ a. 0) 16 32) 32 48;
  prev = update (update (λ a. 0) 32 16) 48 32;
}

open_files-IsOpen : IsOpen open_files (16 ∷ 32 ∷ 48 ∷ [])
open_files-IsOpen = record {
  chain = (omega arith, refl, refl, (omega arith, refl, refl, (omega arith, refl, refl, tt)));
  distinct = ((omega arith, (omega arith, tt)), ((omega arith, tt), (tt, tt)));
  first = refl;
}

fd_remove-IsOpen_example : Ends (λ u. IsOpen u (16 ∷ 48 ∷ [])) (fd_remove open_files 32)
fd_remove-IsOpen_example = fd_remove-IsOpen open_files 16 32 [] (48 ∷ []) open_files-IsOpen

fd_remove-dangling_example :
    Ends
      (λ u. (u.first_fd ≡ 32) × (u.prev 32 ≡ 16) × ¬ IsOpen u (32 ∷ 48 ∷ []))
      (fd_remove open_files 16)
fd_remove-dangling_example = fd_remove-dangling open_files 16 32 (48 ∷ []) open_files-IsOpen

-- a directory at 8 with a child at 16
abbrev node : List ℕ → Node
node name = record {
  name = name;
  parent = 8;
  first_child = 0;
  last_child = 0;
  prev_sibling = 0;
  next_sibling = 0;
}

abbrev nodes : Nodes
nodes =
    update (update (λ a. node (b'x' ∷ [])) 16 (node (b'a' ∷ []))) 8
      (record (node []) { first_child = 16; last_child = 16 })

nodes-HasChildren : HasChildren nodes 8 (16 ∷ [])
nodes-HasChildren = record {
  chain = (omega arith, refl, refl, tt);
  distinct = (tt, tt);
  first = refl;
  last = refl;
}

add_child-HasChildren_example :
    HasChildren (add_child nodes 8 24) 8 (16 ∷ 24 ∷ []) × ((add_child nodes 8 24 24).parent ≡ 8)
add_child-HasChildren_example =
    add_child-HasChildren nodes 8 24 (16 ∷ []) nodes-HasChildren (omega arith) (omega arith)
      (omega arith, tt) (omega arith, tt)

-- the directory at 8 with the children at 16, 24 and 32
abbrev family : Nodes
family a =
    if a == 8
    then record (node []) { first_child = 16; last_child = 32 }
    else if a == 16
    then record (node (b'a' ∷ [])) { next_sibling = 24 }
    else if a == 24
    then record (node (b'b' ∷ [])) { prev_sibling = 16; next_sibling = 32 }
    else record (node (b'c' ∷ [])) { prev_sibling = 24 }

family-HasChildren : HasChildren family 8 (16 ∷ 24 ∷ 32 ∷ [])
family-HasChildren = record {
  chain = (omega arith, refl, refl, (omega arith, refl, refl, (omega arith, refl, refl, tt)));
  distinct = ((omega arith, (omega arith, tt)), ((omega arith, tt), (tt, tt)));
  first = refl;
  last = refl;
}

remove_child-HasChildren_example : HasChildren (remove_child family 16) 8 (24 ∷ 32 ∷ [])
remove_child-HasChildren_example =
    remove_child-HasChildren family 16 [] (24 ∷ 32 ∷ [])
      (omega arith, (omega arith, (omega arith, tt))) family-HasChildren

abbrev at_100 : Written Buffer
at_100 = record { ret = 0; fs = blank; errno = 0; position = 100 }

abbrev at_end : Written Buffer
at_end = record { ret = 0; fs = blank; errno = 0; position = 4096 }

write_loop-Stored_example :
    Ends
      (Stored letters 10 10 4090 at_100)
      (write_loop 10 (λ a. 1) (some (ramfs_op letters)) 10 0 4090 at_100)
write_loop-Stored_example =
    write_loop-Stored 10 (λ a. 1) letters 10 0 4090 10 at_100 (omega arith) (omega arith)
      (omega arith) (omega arith) (omega arith) (λ a lo hi. omega arith)

write_loop-full_example :
    write_loop 5 (λ a. 1) (some (ramfs_op letters)) 10 0 4090 at_end ≡ out_of_fuel
write_loop-full_example =
    write_loop-full 5 (λ a. 1) letters 10 0 4090 at_end (omega arith) (omega arith) (omega arith)
      (omega arith) refl
