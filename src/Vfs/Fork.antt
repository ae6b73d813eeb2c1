-- ===== src/Vfs/Fork.antt =====
-- `fs_fork` and `task_curr_free_files` of kernel/fs/task_fs.cpp: the files of a child and the counts of
-- their inodes.
use makarna_x.Base.{
  ℕ, zero, suc, ◌+◌, ◌<◌, ◌≤◌, ◌≡◌, refl, sym, ap, ◌∙◌, inl, inr, Option, none, some, ◌==◌, arith,
  Option-cases, Bool-cases, subst,
}
use makarna_x.Sched.State.{pos}
use makarna_x.DenemeFs.Store.{done}
use makarna_x.Vfs.World.{World, continue, ◌>>◌, put_refs, dirent_dup}
use makarna_x.Vfs.Fd.{TaskFs, set_fd, fs_fork, close_files, task_curr_free_files}
use makarna_x.Vfs.OpenClose.{file_close_lem}
use makarna_x.Vfs.Copies.{uses, IsCounted, IsAllocated, uses_above, IsCopy, dup_files-Copies}

-- The effect of the loop of `task_curr_free_files` over `k` places from `i` on.
pub record Closed (w w' : World) (k i : ℕ) (n : ℕ → ℕ) : Type 0 where
  pub counted : IsCounted w' n
  pub before : (m : ℕ) → m < i → w'.fds m ≡ w.fds m
  pub inside : (m : ℕ) → i ≤ m → m < i + k → w'.fds m ≡ none

abbrev with_closed : World → ℕ → ℕ → ℕ → World
with_closed w i j n = (set_fd i none (put_refs w j (pos n))).1

close_files-none :
    (k i : ℕ) (w : World) → w.fds i ≡ none → close_files (suc k) i w ≡ close_files k (suc i) w
unfolding close_files
close_files-none k i w free = rw (close_files, free) refl

close_files-some :
    (k i f n : ℕ) (w : World)
    → w.fds i ≡ some f
    → w.refs (w.files f).inode ≡ pos (suc n)
    → close_files (suc k) i w ≡ close_files k (suc i) (with_closed w i (w.files f).inode n)
unfolding close_files
close_files-some k i f n w at count =
    rw (close_files, at)
      (ap (λ r. continue (λ u. set_fd i none >> close_files k (suc i)) r.0 r.1)
        (file_close_lem w f n count))

Closed-some :
    (w w' : World) (k i j : ℕ) (c : ℕ) (n : ℕ → ℕ)
    → Closed (with_closed w i j c) w' k (suc i) n
    → Closed w w' (suc k) i n
Closed-some w w' k i j c n h = record {
  counted = h.counted;
  before = λ m a. h.before m (omega (arith, a)) ∙ ground (arith, a);
  inside = λ m a b. elim (Bool-cases (i == m)) [
    | inl same ↦ h.before m (ground (arith, same)) ∙ ground (arith, same)
    | inr other ↦ h.inside m (ground (arith, a, other)) (omega (arith, b))
  ];
}

Closed-none :
    (w w' : World) (k i : ℕ) (n : ℕ → ℕ)
    → w.fds i ≡ none
    → Closed w w' k (suc i) n
    → Closed w w' (suc k) i n
Closed-none w w' k i n free h = record {
  counted = h.counted;
  before = λ m a. h.before m (omega (arith, a));
  inside = λ m a b. elim (Bool-cases (i == m)) [
    | inl same ↦ h.before m (ground (arith, same)) ∙ ground (arith, same, free)
    | inr other ↦ h.inside m (ground (arith, a, other)) (omega (arith, b))
  ];
}

close_files-Closed :
    (k i : ℕ) (n : ℕ → ℕ) (w : World)
    → ((j : ℕ) → w.refs j ≡ pos (n j + uses w.fds w.files k i j))
    → (w' : World) × (close_files k i w ≡ (done tt, w')) × Closed w w' k i n
unfolding close_files
close_files-Closed zero i n w counted = (
  w,
  refl,
  record {
    counted = λ j. ground (arith, counted j);
    before = λ m a. refl;
    inside = λ m a b. absurd (omega (arith, a, b));
  },
)
close_files-Closed (suc k) i n w counted = elim (Option-cases (w.fds i)) [
  | inl free ↦
      let (w', run, h) = close_files-Closed k (suc i) n w (λ j. ground (arith, counted j, free)) in
      (w', close_files-none k i w free ∙ run, Closed-none w w' k i n free h)
  | inr (f, at) ↦
      let node = (w.files f).inode in
      let c = n node + uses w.fds w.files k (suc i) node in
      let w1 = with_closed w i node c in
      let (w', run, h) = close_files-Closed k (suc i) n w1 (λ j.
        let above = uses_above w.fds w1.fds w.files k (suc i) j (λ m a b. ground (arith, a)) in
        ground (arith, counted j, at, above)) in
      (
        w',
        close_files-some k i f c w at (ground (arith, counted node, at)) ∙ run,
        Closed-some w w' k i node c n h,
      )
]

uses_copies :
    (w w' : World) (fds : ℕ → Option ℕ) (k i j : ℕ)
    → ((m : ℕ) → i ≤ m → m < i + k → IsCopy w w' (w.fds m) (fds m))
    → uses fds w'.files k i j ≡ uses w.fds w.files k i j
uses_copies w w' fds zero i j copies = refl
uses_copies w w' fds (suc k) i j copies =
    let rest =
      uses_copies w w' fds k (suc i) j (λ m a b. copies m (omega (arith, a)) (omega (arith, b))) in
    let here = copies i (omega arith) (omega arith) in
    elim (Option-cases (w.fds i)) [
      | inl free ↦
          let same : fds i ≡ none = subst (λ o. IsCopy w w' o (fds i)) free here in
          ground (arith, rest, free, same)
      | inr (f, at) ↦
          let (g, is, low, high, same) = subst (λ o. IsCopy w w' o (fds i)) at here in
          ground (arith, rest, at, is, ap (λ v. v.inode) same)
    ]

-- The child runs with its own `fs`.
abbrev pub run_child : TaskFs → World → World
run_child t w = record w { root = t.root; pwd = t.pwd; fds = t.fds }

-- With every file of the parent allocated, `fs_fork` gives each of the 32 places of the child nothing
-- where the parent has nothing, and a file of its own, with the inode, the position and the flags of
-- the parent's, where it has one; the parent's places and files are as before. When the child, with
-- no change in between, closes its files by `task_curr_free_files`, that succeeds, all 32 places are
-- empty, and the count of every inode is what it was before the fork.
pub fs_fork-task_curr_free_files :
    (w : World) (n : ℕ → ℕ) (old : ℕ → Option ℕ)
    → IsAllocated w
    → IsCounted w n
    → (t : TaskFs) × (w1 : World) × (w2 : World) × (fs_fork old w ≡ (done t, w1))
      × ((m : ℕ) → m < 32 → IsCopy w w1 (w.fds m) (t.fds m))
      × (w1.fds ≡ w.fds)
      × ((f : ℕ) → f < w.next → w1.files f ≡ w.files f)
      × (task_curr_free_files (run_child t w1) ≡ (done tt, w2))
      × ((m : ℕ) → m < 32 → w2.fds m ≡ none)
      × IsCounted w2 n
unfolding fs_fork task_curr_free_files dirent_dup
fs_fork-task_curr_free_files w n old allocated counted =
    let w0 = (dirent_dup w.pwd (dirent_dup w.root w).1).1 in
    let (fds, w1, run, c) = dup_files-Copies 32 0 n old w0 allocated counted in
    let t : TaskFs = record { root = w.root; pwd = w.pwd; fds = fds } in
    let copied = λ (j : ℕ). uses_copies w0 w1 fds 32 0 j (λ m a b. c.inside m a b) in
    let (w2, close, h) =
      close_files-Closed 32 0 n (run_child t w1)
        (λ j. c.counted j ∙ ap (λ u. pos (n j + u)) (sym (copied j))) in
    (
      t,
      w1,
      w2,
      ap
          (λ r.
            continue (λ f. λ u. (done (record { root = w.root; pwd = w.pwd; fds = f }), u)) r.0 r.1)
          run,
      λ m a. c.inside m (omega arith) (omega (arith, a)),
      c.places,
      c.kept,
      close,
      λ m a. h.inside m (omega arith) (omega (arith, a)),
      h.counted,
    )
