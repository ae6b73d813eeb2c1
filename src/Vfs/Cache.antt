-- ===== src/Vfs/Cache.antt =====
-- When the cache of Vfs/Dirent.antt agrees with the disk, and what keeps it so.
use makarna_x.Base.{
  ℕ, suc, ◌<◌, ◌≤◌, ◌≡◌, refl, inl, inr, true, false, none, some, [], ◌∷◌, ◌==◌, arith, Bool-cases,
  has, has-append,
}
use makarna_x.Sched.State.{ℤ, pos, negsuc, is_negative}
use makarna_x.Ipc.Semaphore.{suc_ℤ}
use makarna_x.DenemeFs.Store.{Name, Inode, done}
use makarna_x.DenemeFs.Dir.{denemefs_lookup}
use makarna_x.Vfs.World.{World, dirent_dup}
use makarna_x.Vfs.Dirent.{dirent_cache_add, inode_new}

-- A child of an entry is younger than it, and has an inode, the one that the disk gives for its name.
-- The addresses from `next` on are not in use, and no count is below 0.
pub record Coherent (w : World) : Type 0 where
  pub cached :
      (d c i : ℕ)
      → has c (w.dirents d).childs ≡ true
      → (w.dirents d).inode ≡ some i
      → (k : ℕ) × ((w.dirents c).inode ≡ some k)
        × ((denemefs_lookup (w.inodes i) (w.dirents c).name w.table).0 ≡ done (w.inodes k))
  pub known : (d c : ℕ) → has c (w.dirents d).childs ≡ true → (d < c) × (c < w.next)
  pub unused : (d : ℕ) → w.next ≤ d → ((w.dirents d).childs ≡ []) × ((w.dirents d).inode ≡ none)
  pub bounded : (d i : ℕ) → (w.dirents d).inode ≡ some i → i < w.next
  pub counted : (d : ℕ) → is_negative (w.dirents d).ref_count ≡ false

-- Somebody has a reference to the entry.
abbrev pub IsHeld : World → ℕ → Type 0
IsHeld w d = (n : ℕ) × ((w.dirents d).ref_count ≡ pos (suc n))

-- What a search leaves: a coherent cache, the table, and the references of others.
pub record Kept (w w' : World) : Type 0 where
  pub coherent : Coherent w'
  pub table : w'.table ≡ w.table
  pub held : (d : ℕ) → IsHeld w d → IsHeld w' d

pub suc_ℤ-pos : (n : ℤ) → is_negative n ≡ false → (m : ℕ) × (suc_ℤ n ≡ pos (suc m))
suc_ℤ-pos (pos n) h = (n, refl)
suc_ℤ-pos (negsuc n) h = absurd (ground arith)

pub suc_ℤ-held : (n : ℤ) → (m : ℕ) × (n ≡ pos (suc m)) → (m : ℕ) × (suc_ℤ n ≡ pos (suc m))
suc_ℤ-held n (m, e) = (suc m, rw e refl)

pub Coherent-dup : (w : World) (c : ℕ) → Coherent w → Coherent (dirent_dup c w).1
unfolding dirent_dup
Coherent-dup w c h = record {
  cached = λ d e i a b. ground (arith, h.cached d e i);
  known = λ d e a. ground (arith, h.known d e);
  unused = λ d a. ground (arith, h.unused d a);
  bounded = λ d i a. ground (arith, h.bounded d i);
  counted = λ d. ground (arith, h.counted d, suc_ℤ-pos (w.dirents d).ref_count);
}

pub Held-dup : (w : World) (c d : ℕ) → IsHeld w d → IsHeld (dirent_dup c w).1 d
unfolding dirent_dup
Held-dup w c d held = elim (Bool-cases (c == d)) [
  | inl same ↦ let (m, e) = suc_ℤ-held (w.dirents d).ref_count held in (m, ground arith)
  | inr other ↦ (held.0, ground (arith, held.1))
]

pub Held-self : (w : World) (c : ℕ) → Coherent w → IsHeld (dirent_dup c w).1 c
unfolding dirent_dup
Held-self w c h = let (m, e) = suc_ℤ-pos (w.dirents c).ref_count (h.counted c) in (m, ground arith)

pub inode-dup :
    (w : World) (c k : ℕ)
    → (w.dirents c).inode ≡ some k
    → ((dirent_dup c w).1.dirents c).inode ≡ some k
unfolding dirent_dup
inode-dup w c k h = ground arith

-- The state after a name found on the disk has joined the cache.
abbrev pub with_found : World → ℕ → Name → Inode → World
with_found w d name v = dirent_cache_add d name w.next (inode_new v w)

module _ (w : World) (d i : ℕ) (name : Name) (v : Inode) (h : Coherent w)
    (live : (w.dirents d).inode ≡ some i)
    (found : (denemefs_lookup (w.inodes i) name w.table).0 ≡ done v) where
  used : d < w.next
  used = ground (arith, h.unused d)

  cached-found :
      (e c j : ℕ)
      → has c ((with_found w d name v).dirents e).childs ≡ true
      → ((with_found w d name v).dirents e).inode ≡ some j
      → (k : ℕ) × (((with_found w d name v).dirents c).inode ≡ some k)
        × ((denemefs_lookup
              ((with_found w d name v).inodes j)
              ((with_found w d name v).dirents c).name
              w.table).0
            ≡ done ((with_found w d name v).inodes k))
  unfolding dirent_cache_add inode_new
  cached-found e c j a b = elim (Bool-cases (c == suc w.next)) [
    | inl new ↦ (
      w.next,
      ground (arith, used),
      ground (
        arith,
        used,
        h.known e c,
        h.unused e,
        h.bounded d i,
        has-append c (w.dirents d).childs (suc w.next ∷ []),
      ),
    )
    | inr old ↦
        let child : has c (w.dirents e).childs ≡ true =
          ground (arith, used, has-append c (w.dirents d).childs (suc w.next ∷ [])) in
        let dir : (w.dirents e).inode ≡ some j = ground (arith, used) in
        let (k, at, same) = h.cached e c j child dir in
        (k, ground (arith, used), ground (arith, used, h.bounded e j, h.bounded c k))
  ]

  pub Coherent-found : Coherent (with_found w d name v)
  unfolding dirent_cache_add inode_new
  Coherent-found = record {
    cached = cached-found;
    known = λ e c a.
        ground (arith, used, h.known e c, has-append c (w.dirents d).childs (suc w.next ∷ []));
    unused = λ e a. ground (arith, used, h.unused e);
    bounded = λ e j a. ground (arith, used, h.bounded e j);
    counted = λ e. ground (arith, used, h.counted e);
  }

  pub Held-found : (e : ℕ) → IsHeld w e → IsHeld (with_found w d name v) e
  unfolding dirent_cache_add inode_new
  Held-found e held = elim (Bool-cases (e == suc w.next)) [
    | inl new ↦ (0, ground (arith, used))
    | inr old ↦ (held.0, ground (arith, used, held.1))
  ]
