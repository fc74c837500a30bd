-- ===== src/Files/Open/Close.antt =====
-- Opening and closing a file.
use polx.Base.{
  ℕ, zero, suc, ◌+◌, ◌^◌, ◌≤◌, ◌<◌, ◌≡◌, refl, ap, ◌∙◌, ◌≢◌, ◌⊎◌, inl, inr, true, false, Option,
  none, some, ◌∷◌, arith, ltb, ◌==◌, ne→==, ==_self, not_ltb→le, Bool-cases, Ptr, null, update,
  update_self, add_word, sub_word, word_max, done, ◌>>=◌, Ends, Ends-bind, Ends-map,
}
use mathlib.Core.Path.{subst}
use polx.Files.Descriptors.{Descriptors, fd_add, fd_remove}
use polx.Files.Vfs.{call, Tree, vfs_open, vfs_close, is_error}
use polx.Files.Open.{
  Op, Opens, max_fds, emfile, find_free_from, find_free_fd_num, closed, open_file, do_close,
  close_all,
}

-- The search stops at the first free slot from `i` on, or behind the table.
record Found (t : ℕ → Ptr) (i n r : ℕ) : Type 0 where
  from : i ≤ r
  to : r ≤ i + n
  busy : (j : ℕ) → i ≤ j → j < r → t j ≢ null
  stops : (t r ≡ null) ⊎ (max_fds ≤ r) ⊎ (r ≡ i + n)

find_free_from-Found : (n : ℕ) (t : ℕ → Ptr) (i : ℕ) → Found t i n (find_free_from n t i)
unfolding find_free_from
find_free_from-Found zero t i = record {
  from = omega arith;
  to = omega arith;
  busy = λ j lo hi. absurd (omega (arith, lo, hi));
  stops = inr (inr (omega arith));
}
find_free_from-Found (suc n) t i = elim (Bool-cases (t i == null)) [
  | inl free ↦ rw free (record {
    from = omega arith;
    to = omega arith;
    busy = λ j lo hi. absurd (omega (arith, lo, hi));
    stops = inl (ground (arith, free));
  })
  | inr used ↦ elim (Bool-cases (ltb i max_fds)) [
    | inr out ↦
        rw (used, out)
          (record {
            from = omega arith;
            to = omega arith;
            busy = λ j lo hi. absurd (omega (arith, lo, hi));
            stops = inr (inl (not_ltb→le i max_fds out));
          })
    | inl inside ↦
        let is = find_free_from-Found n t (i + 1) in
        rw (used, inside)
          (record {
            from = omega (arith, is.from);
            to = omega (arith, is.to);
            busy = λ j lo hi. elim (Bool-cases (j == i)) [
              | inl here ↦ ground (arith, here, used)
              | inr later ↦ is.busy j (ground (arith, lo, later)) hi
            ];
            stops = elim is.stops [
              | inl e ↦ inl e
              | inr (inl e) ↦ inr (inl e)
              | inr (inr e) ↦ inr (inr (omega (arith, e)))
            ];
          })
  ]
]

-- The descriptor that is found is free and the lowest such from 2 on.
record FirstFree (t : ℕ → Ptr) (n : ℕ) : Type 0 where
  from : 2 ≤ n
  to : n ≤ max_fds
  free : t n ≡ null
  busy : (j : ℕ) → 2 ≤ j → j < n → t j ≢ null

-- the same for what the search gives
pub Chosen : (t : ℕ → Ptr) → Option ℕ → Type 0
Chosen t none = (j : ℕ) → 2 ≤ j → j < max_fds → t j ≢ null
Chosen t (some n) = FirstFree t n

-- The number that `_find_free_fd_num` gives is the first free one from 2 on and at most MAX_FDS; it gives
-- none only if all those below MAX_FDS are used.
pub find_free_fd_num-Chosen : (t : ℕ → Ptr) → Chosen t (find_free_fd_num t)
unfolding find_free_fd_num Chosen
find_free_fd_num-Chosen t =
    let is = find_free_from-Found 254 t 2 in
    elim (Bool-cases (t (find_free_from 254 t 2) == null)) [
      | inl free ↦ rw free (record {
        from = is.from;
        to = omega (arith, is.to);
        free = ground (arith, free);
        busy = is.busy;
      })
      | inr used ↦ rw used (λ j lo hi. elim is.stops [
        | inl e ↦ absurd (ground (arith, e, used))
        | inr (inl e) ↦ is.busy j lo (omega (arith, hi, e))
        | inr (inr e) ↦ is.busy j lo (omega (arith, hi, e))
      ])
    ]

-- A descriptor whose links are NULL comes out of the list as it went in.
fd_remove-fd_add :
    (d : Descriptors) (fd : Ptr)
    → (fd ≢ null) × (d.first_fd ≢ fd)
    → (d.next fd ≡ null) × (d.prev fd ≡ null)
    → Ends (λ e. e.first_fd ≡ d.first_fd) (fd_remove (fd_add d fd) fd)
unfolding fd_remove fd_add
fd_remove-fd_add d fd ne links = elim (Bool-cases (d.first_fd == null)) [
  | inl empty ↦ rw (empty, links.1, ne→== fd null ne.0) (links.0 ∙ ground (arith, empty))
  | inr more ↦
      let at : (d.first_fd == fd) ≡ false = ne→== d.first_fd fd ne.1 in
      rw more (rw (at, links.1, ne→== fd null ne.0) (update_self d.next fd d.first_fd))
]

-- An operation of a node's file system that never fails.
abbrev pub Works : Op → Type 0
Works op = (t : Tree) → is_error (call op t).0 ≡ false

-- The task and the node as they were, with the descriptor given back.
pub record Restored (s : Opens) (fd : Ptr) (r : ℕ × Opens) : Type 0 where
  pub ret : r.0 ≡ 0
  pub table : (i : ℕ) → r.1.used_fd i ≡ s.used_fd i
  pub counter : r.1.fd_ctr ≡ s.fd_ctr
  pub nodes : (a : Ptr) → r.1.active_fds a ≡ s.active_fds a
  pub first : r.1.fds.first_fd ≡ s.fds.first_fd
  pub freed : r.1.freed ≡ fd ∷ s.freed

-- What a descriptor and its slot hold decides what is closed.
do_close-Ends :
    (kernel : ℕ → Ptr) (close_op : Ptr → Op) (t : Opens) (n : ℕ) (fd file : Ptr)
    (P : ℕ × Opens → Type 0)
    → t.used_fd n ≡ fd
    → (t.entries fd).vfs_node ≡ file
    → (fd ≢ null) × (fd ≢ kernel n)
    → Works (close_op file)
    → Ends
        (λ fds. P (
          0,
          record (closed (close_op file) t file) {
            fds = fds;
            used_fd = update t.used_fd n null;
            fd_ctr = sub_word t.fd_ctr 1;
            freed = fd ∷ t.freed;
          },
        ))
        (fd_remove t.fds fd)
    → Ends P (do_close kernel close_op t n)
unfolding do_close vfs_close
do_close-Ends kernel close_op t n fd file P at node new works removed =
    rw (at, ne→== fd null new.0, ne→== fd (kernel n) new.1)
      (rw node (
        rw (works t.tree)
          (Ends-bind _ P (fd_remove t.fds fd) _ (rw (works t.tree) at removed) (λ a p. p))))

back_word : (x : ℕ) → x < 2 ^ 32 → sub_word (add_word x 1) 1 ≡ x
back_word x lt = omega (arith, lt)

chosen_free : (t : ℕ → Ptr) (n : ℕ) → find_free_fd_num t ≡ some n → t n ≡ null
unfolding Chosen
chosen_free t n e = (subst (Chosen t) e (find_free_fd_num-Chosen t)).free

restored_at : (t : ℕ → Ptr) (n fd i : ℕ) → t n ≡ null → update (update t n fd) n null i ≡ t i
restored_at t n fd i free = ground (arith, free)

restored_node :
    (f : Ptr → ℕ) (file a : Ptr)
    → f file < 2 ^ 32
    → let g = update f file (add_word (f file) 1) in update g file (sub_word (g file) 1) a ≡ f a
restored_node f file a lt = elim (Bool-cases (file == a)) [
  | inl e ↦ rw e (rw (==_self file) (back_word (f file) lt ∙ ap f (ground (arith, e))))
  | inr ne ↦ rw ne refl
]

none_free : (t : ℕ → Ptr) → ((j : ℕ) → 2 ≤ j → j ≤ max_fds → t j ≢ null) → find_free_fd_num t ≡ none
unfolding find_free_fd_num
none_free t used =
    let is = find_free_from-Found 254 t 2 in
    rw (ne→== (t (find_free_from 254 t 2)) null (used _ is.from (omega (arith, is.to)))) refl

is_default : (t kernel : ℕ → Ptr) (fd : ℕ) → t fd ≡ kernel fd → (t fd == kernel fd) ≡ true
is_default t kernel fd e = rw e (==_self (kernel fd))

last_one : (x : ℕ) → x ≡ 1 → sub_word x 1 ≡ 0
last_one x e = rw e refl

-- When the counter of a task is 1 and the task closes a descriptor that is the kernel's, its slot stays
-- as it is but the counter is 0, so that the loop of `do_exit` closes none of the task's other files.
pub close_all-do_close :
    (kernel : ℕ → Ptr) (close_op : Ptr → Op) (s : Opens) (fd rounds from : ℕ)
    → s.used_fd fd ≢ null
    → s.used_fd fd ≡ kernel fd
    → s.fd_ctr ≡ 1
    → (do_close kernel close_op s fd >>= λ r. close_all rounds kernel close_op r.1 from)
      ≡ done (record s { fd_ctr = 0 })
unfolding do_close close_all
close_all-do_close kernel close_op s fd zero from ne is one =
    rw (ne→== (s.used_fd fd) null ne, is_default s.used_fd kernel fd is, last_one s.fd_ctr one) refl
close_all-do_close kernel close_op s fd (suc n) from ne is one =
    rw (ne→== (s.used_fd fd) null ne, is_default s.used_fd kernel fd is, last_one s.fd_ctr one) refl

-- When every slot of the table from 2 on is used and the word behind the table is not 0, an open returns -1
-- with EMFILE, but the node counts one more user and the new descriptor stays in the list of all.
pub open_file-none_free :
    (open_op : Op) (s : Opens) (fd file : Ptr) (flags : ℕ)
    → Works open_op
    → ((j : ℕ) → 2 ≤ j → j ≤ max_fds → s.used_fd j ≢ null)
    → let r = open_file open_op s fd file flags in
      (r.0 ≡ word_max)
      × (r.1.errno ≡ emfile)
      × (r.1.active_fds file ≡ add_word (s.active_fds file) 1)
      × (r.1.fds ≡ fd_add s.fds fd)
unfolding open_file vfs_open
open_file-none_free open_op s fd file flags opens used =
    rw (opens s.tree, none_free s.used_fd used)
      (
        refl,
        refl,
        rw (opens s.tree) (update_self s.active_fds file (add_word (s.active_fds file) 1)),
        refl,
      )

-- Opening a file and closing the descriptor that this gives restores the table of the task, its counter,
-- the counters of the nodes and the first descriptor of the list of all, and gives the descriptor back,
-- if the operations of the node succeed, a descriptor is free, what `kmalloc` gives is not in use and has
-- links that are NULL, and the counters are words.
pub do_close-open_file :
    (kernel : ℕ → Ptr) (open_op : Op) (close_op : Ptr → Op) (s : Opens) (fd file : Ptr)
    (flags n : ℕ)
    → Works open_op
    → Works (close_op file)
    → find_free_fd_num s.used_fd ≡ some n
    → (fd ≢ null) × (fd ≢ kernel n)
    → s.fds.first_fd ≢ fd
    → (s.fds.next fd ≡ null) × (s.fds.prev fd ≡ null)
    → (s.fd_ctr < 2 ^ 32) × ((a : Ptr) → s.active_fds a < 2 ^ 32)
    → Ends (Restored s fd) (do_close kernel close_op (open_file open_op s fd file flags).1 n)
unfolding open_file vfs_open vfs_close
do_close-open_file kernel open_op close_op s fd file flags n opens closes found new out links fits =
    rw (opens s.tree, found)
      (do_close-Ends kernel close_op _ n fd file (Restored s fd) (update_self s.used_fd n fd)
        (ap (λ e. e.vfs_node) (update_self s.entries fd _)) new closes
        (Ends-map _ _ (fd_remove (fd_add s.fds fd) fd)
          (λ e first. record {
            ret = refl;
            table = λ i. restored_at s.used_fd n fd i (chosen_free s.used_fd n found);
            counter = back_word s.fd_ctr fits.0;
            nodes =
                λ a. rw (opens s.tree, closes _) (restored_node s.active_fds file a (fits.1 file));
            first = first;
            freed = refl;
          })
          (fd_remove-fd_add s.fds fd (new.0, out) links)))
