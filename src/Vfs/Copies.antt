-- ===== src/Vfs/Copies.antt =====
-- What the loop of `fs_fork` of kernel/fs/task_fs.cpp gives the child.
use makarna_x.Base.{
  ℕ, zero, suc, ◌+◌, ◌<◌, ◌≤◌, ◌≡◌, refl, sym, ap, ◌∙◌, ◌⊎◌, inl, inr, Option, none, some, ◌==◌,
  if◌then◌else◌, arith, Option-cases, Bool-cases, subst,
}
use makarna_x.Sched.State.{pos}
use makarna_x.Ipc.Semaphore.{suc_ℤ}
use makarna_x.DenemeFs.Store.{done}
use makarna_x.Vfs.World.{Opened, World, continue, put_file, put_refs, inode_ref}
use makarna_x.Vfs.Files.{file_dup}
use makarna_x.Vfs.Fd.{dup_files}

-- Whether a place holds a file of the inode `j`: 1 or 0.
abbrev pub holds : (ℕ → Opened) → ℕ → Option ℕ → ℕ
holds files j none = 0
holds files j (some f) = if (files f).inode == j then 1 else 0

-- The files of the inode `j` in `k` places from `i` on.
abbrev pub uses : (ℕ → Option ℕ) → (ℕ → Opened) → ℕ → ℕ → ℕ → ℕ
uses fds files zero i j = 0
uses fds files (suc k) i j = holds files j (fds i) + uses fds files k (suc i) j

-- The count of each inode.
abbrev pub IsCounted : World → (ℕ → ℕ) → Type 0
IsCounted w n = (j : ℕ) → w.refs j ≡ pos (n j)

-- The files of the places are allocated.
abbrev pub IsAllocated : World → Type 0
IsAllocated w = (m f : ℕ) → w.fds m ≡ some f → f < w.next

pub uses_agree :
    (fds : ℕ → Option ℕ) (files files' : ℕ → Opened) (k i j : ℕ)
    → ((m f : ℕ) → fds m ≡ some f → files' f ≡ files f)
    → uses fds files' k i j ≡ uses fds files k i j
uses_agree fds files files' zero i j same = refl
uses_agree fds files files' (suc k) i j same =
    let rest = uses_agree fds files files' k (suc i) j same in
    elim (Option-cases (fds i)) [
      | inl free ↦ ground (arith, rest)
      | inr (f, at) ↦ let e = same i f at in ground (arith, rest)
    ]

pub uses_above :
    (fds fds' : ℕ → Option ℕ) (files : ℕ → Opened) (k i j : ℕ)
    → ((m : ℕ) → i ≤ m → m < i + k → fds' m ≡ fds m)
    → uses fds' files k i j ≡ uses fds files k i j
uses_above fds fds' files zero i j same = refl
uses_above fds fds' files (suc k) i j same =
    let rest =
      uses_above fds fds' files k (suc i) j
        (λ m a b. same m (omega (arith, a)) (omega (arith, b))) in
    let here = same i (omega arith) (omega arith) in
    rw here (ap (λ r. holds files j (fds i) + r) rest)

-- The state after `file_dup`.
abbrev pub with_copy : World → ℕ → World
with_copy w f =
    let i = (w.files f).inode in
    put_refs (put_file (record w { next = suc w.next }) w.next (w.files f)) i (suc_ℤ (w.refs i))

pub file_dup_lem : (w : World) (f : ℕ) → f < w.next → file_dup f w ≡ (done w.next, with_copy w f)
unfolding file_dup inode_ref
file_dup_lem w f less = refl

-- What the child has in place of `here`: nothing, or another file with the same contents.
abbrev pub IsCopy : World → World → Option ℕ → Option ℕ → Type 0
IsCopy w w' none c = c ≡ none
IsCopy w w' (some f) c =
    (g : ℕ) × (c ≡ some g) × (w.next ≤ g) × (g < w'.next) × (w'.files g ≡ w.files f)

-- The effect of the loop of `fs_fork` over `k` places from `i` on.
pub record Copies (w w' : World) (k i : ℕ) (n : ℕ → ℕ) (fds fds' : ℕ → Option ℕ) : Type 0 where
  pub counted : (j : ℕ) → w'.refs j ≡ pos (n j + uses w.fds w.files k i j)
  pub places : w'.fds ≡ w.fds
  pub kept : (f : ℕ) → f < w.next → w'.files f ≡ w.files f
  pub grown : w.next ≤ w'.next
  pub outside : (m : ℕ) → (m < i) ⊎ (i + k ≤ m) → fds' m ≡ fds m
  pub inside : (m : ℕ) → i ≤ m → m < i + k → IsCopy w w' (w.fds m) (fds' m)

abbrev pub put_at : (ℕ → Option ℕ) → ℕ → Option ℕ → ℕ → Option ℕ
put_at fds i v n = if i == n then v else fds n

pub dup_files-none :
    (k i : ℕ) (fds : ℕ → Option ℕ) (w : World)
    → w.fds i ≡ none
    → dup_files (suc k) i fds w ≡ dup_files k (suc i) (put_at fds i none) w
unfolding dup_files
dup_files-none k i fds w free = rw (dup_files, free) refl

pub dup_files-some :
    (k i f : ℕ) (fds : ℕ → Option ℕ) (w : World)
    → w.fds i ≡ some f
    → f < w.next
    → dup_files (suc k) i fds w ≡ dup_files k (suc i) (put_at fds i (some w.next)) (with_copy w f)
unfolding dup_files
dup_files-some k i f fds w at less =
    rw (dup_files, at)
      (ap (λ r. continue (λ g. dup_files k (suc i) (put_at fds i (some g))) r.0 r.1)
        (file_dup_lem w f less))

pub counted-copy :
    (w : World) (f : ℕ) (n : ℕ → ℕ)
    → IsCounted w n
    → IsCounted (with_copy w f) (λ j. holds w.files j (some f) + n j)
counted-copy w f n h j = ground (arith, h j, h (w.files f).inode)

pub Copies-none :
    (w w' : World) (k i : ℕ) (n : ℕ → ℕ) (fds fds' : ℕ → Option ℕ)
    → w.fds i ≡ none
    → Copies w w' k (suc i) n (put_at fds i none) fds'
    → Copies w w' (suc k) i n fds fds'
Copies-none w w' k i n fds fds' free c = record {
  counted = λ j. ground (arith, c.counted j, free);
  places = c.places;
  kept = c.kept;
  grown = c.grown;
  outside = λ m a. c.outside m (ground (arith, a)) ∙ ground (arith, a);
  inside = λ m a b. elim (Bool-cases (i == m)) [
    | inl same ↦
        let e : i ≡ m = ground (arith, same) in
        subst (λ p. IsCopy w w' (w.fds p) (fds' p)) e
          (subst (λ o. IsCopy w w' o (fds' i)) (sym free)
            (c.outside i (inl (omega arith)) ∙ ground arith))
    | inr other ↦ c.inside m (ground (arith, a, other)) (omega (arith, b))
  ];
}

pub IsCopy-older :
    (w w' : World) (f m : ℕ) (c : Option ℕ)
    → IsAllocated w
    → IsCopy (with_copy w f) w' (w.fds m) c
    → IsCopy w w' (w.fds m) c
IsCopy-older w w' f m c allocated copy = elim (Option-cases (w.fds m)) [
  | inl free ↦
      subst (λ o. IsCopy w w' o c) (sym free) (subst (λ o. IsCopy (with_copy w f) w' o c) free copy)
  | inr (f', at) ↦
      let (g, is, low, high, same) = subst (λ o. IsCopy (with_copy w f) w' o c) at copy in
      subst (λ o. IsCopy w w' o c) (sym at)
        (g, is, omega (arith, low), high, same ∙ ground (arith, allocated m f' at))
]

pub Copies-some :
    (w w' : World) (k i f : ℕ) (n : ℕ → ℕ) (fds fds' : ℕ → Option ℕ)
    → IsAllocated w
    → w.fds i ≡ some f
    → Copies
        (with_copy w f)
        w'
        k
        (suc i)
        (λ j. holds w.files j (some f) + n j)
        (put_at fds i (some w.next))
        fds'
    → Copies w w' (suc k) i n fds fds'
Copies-some w w' k i f n fds fds' allocated at c =
    let less = allocated i f at in
    record {
      counted = λ j.
          let agree =
            uses_agree w.fds w.files (with_copy w f).files k (suc i) j
              (λ m f' b. ground (arith, allocated m f' b)) in
          ground (arith, c.counted j, agree, at);
      places = c.places;
      kept = λ f' less. c.kept f' (omega (arith, less)) ∙ ground (arith, less);
      grown = omega (arith, c.grown);
      outside = λ m a. c.outside m (ground (arith, a)) ∙ ground (arith, a);
      inside = λ m a b. elim (Bool-cases (i == m)) [
        | inl same ↦
            let e : i ≡ m = ground (arith, same) in
            subst (λ p. IsCopy w w' (w.fds p) (fds' p)) e
              (subst (λ o. IsCopy w w' o (fds' i)) (sym at)
                (
                  w.next,
                  c.outside i (inl (omega arith)) ∙ ground arith,
                  omega arith,
                  omega (arith, c.grown),
                  c.kept w.next (omega arith) ∙ ground (arith, less),
                ))
        | inr other ↦
            IsCopy-older w w' f m (fds' m) allocated
              (c.inside m (ground (arith, a, other)) (omega (arith, b)))
      ];
    }

pub dup_files-Copies :
    (k i : ℕ) (n : ℕ → ℕ) (fds : ℕ → Option ℕ) (w : World)
    → IsAllocated w
    → IsCounted w n
    → (fds' : ℕ → Option ℕ) × (w' : World) × (dup_files k i fds w ≡ (done fds', w'))
      × Copies w w' k i n fds fds'
unfolding dup_files
dup_files-Copies zero i n fds w allocated counted = (
  fds,
  w,
  refl,
  record {
    counted = λ j. ground (arith, counted j);
    places = refl;
    kept = λ f less. refl;
    grown = omega arith;
    outside = λ m a. refl;
    inside = λ m a b. absurd (omega (arith, a, b));
  },
)
dup_files-Copies (suc k) i n fds w allocated counted = elim (Option-cases (w.fds i)) [
  | inl free ↦
      let (fds', w', run, c) =
        dup_files-Copies k (suc i) n (put_at fds i none) w allocated counted in
      (fds', w', dup_files-none k i fds w free ∙ run, Copies-none w w' k i n fds fds' free c)
  | inr (f, at) ↦
      let less = allocated i f at in
      let (fds', w', run, c) =
        dup_files-Copies k (suc i) (λ j. holds w.files j (some f) + n j)
          (put_at fds i (some w.next)) (with_copy w f) (λ m f' b. ground (arith, allocated m f' b))
          (counted-copy w f n counted) in
      (
        fds',
        w',
        dup_files-some k i f fds w at less ∙ run,
        Copies-some w w' k i f n fds fds' allocated at c,
      )
]
