-- ===== src/Files/Open/Tests.antt =====
-- Runs of `do_open` and `do_close`.
use polx.Base.{◌≡◌, refl, some, [], arith, ◌==◌, if◌then◌else◌, done, ◌>>=◌, Ends}
use polx.Files.Descriptors.{fd_add}
use polx.Files.Tree.{Nodes}
use polx.Files.Open.{Op, Opens, find_free_from, find_free_fd_num, open_file, do_close, close_all}
use polx.Files.Open.Close.{
  Chosen, find_free_fd_num-Chosen, Restored, do_close-open_file, open_file-none_free,
  close_all-do_close,
}

abbrev no_nodes : Nodes
no_nodes = λ a. record {
  name = [];
  parent = 0;
  first_child = 0;
  last_child = 0;
  prev_sibling = 0;
  next_sibling = 0;
}

-- The two descriptors of the kernel are at 600 and 700, for the node at 50; the list has the first.
abbrev fresh : Opens
fresh = record {
  used_fd = λ i. if i == 0 then 600 else if i == 1 then 700 else 0;
  fd_ctr = 2;
  entries = λ a. record { position = 0; mode = 2; vfs_node = 50 };
  fds = record { first_fd = 600; next = λ a. 0; prev = λ a. 0 };
  active_fds = λ a. 3;
  tree = record { nodes = no_nodes; node = 0; freed = [] };
  errno = 0;
  freed = [];
}

abbrev succeeds : Op
succeeds = some (λ t. (0, t))

do_close-open_file_example :
    Ends
      (Restored fresh 800)
      (do_close (λ i. fresh.used_fd i) (λ a. succeeds) (open_file succeeds fresh 800 50 2).1 2)
unfolding find_free_fd_num find_free_from
do_close-open_file_example =
    do_close-open_file (λ i. fresh.used_fd i) succeeds (λ a. succeeds) fresh 800 50 2 2 (λ t. refl)
      (λ t. refl) refl (omega arith, omega arith) (omega arith) (refl, refl)
      (omega arith, λ a. omega arith)

-- All the slots are used, and the word behind them is not 0.
abbrev crowded : Opens
crowded = record fresh { used_fd = λ i. 600; fd_ctr = 256 }

open_file-none_free_example :
    let r = open_file succeeds crowded 800 50 2 in
    (r.0 ≡ 4294967295)
    × (r.1.errno ≡ 24)
    × (r.1.active_fds 50 ≡ 4)
    × (r.1.fds ≡ fd_add crowded.fds 800)
open_file-none_free_example =
    open_file-none_free succeeds crowded 800 50 2 (λ t. refl) (λ j lo hi. omega arith)

-- The kernel's descriptors at 0 and 1, one more at 2, and a counter that two closings have brought to 1.
abbrev miscounted : Opens
miscounted = record fresh {
  used_fd = λ i. if i == 0 then 600 else if i == 1 then 700 else if i == 2 then 800 else 0;
  fd_ctr = 1;
}

close_all-do_close_example :
    (do_close (λ i. fresh.used_fd i) (λ a. succeeds) miscounted 1 >>= λ r.
    close_all 256 (λ i. fresh.used_fd i) (λ a. succeeds) r.1 0)
    ≡ done (record miscounted { fd_ctr = 0 })
close_all-do_close_example =
    close_all-do_close (λ i. fresh.used_fd i) (λ a. succeeds) miscounted 1 256 0 (omega arith) refl
      refl

find_free_fd_num-Chosen_example : Chosen fresh.used_fd (find_free_fd_num fresh.used_fd)
find_free_fd_num-Chosen_example = find_free_fd_num-Chosen fresh.used_fd
