-- ===== src/Vfs/Coherent.antt =====
-- `dirent_lookup` of kernel/fs/dirent.cpp beside the disk.
use makarna_x.Base.{
  ℕ, suc, ◌<◌, ◌≡◌, ◌≢◌, refl, sym, ◌∙◌, inl, inr, true, none, some, List, [], ◌∷◌, arith,
  Option-cases, has, subst,
}
use makarna_x.Sched.State.{pos}
use makarna_x.DenemeFs.Store.{Name, Inode, Outcome, done, fails, stop}
use makarna_x.DenemeFs.Dir.{denemefs_lookup}
use makarna_x.DenemeFs.Entries.{name_eq_iff}
use makarna_x.Vfs.World.{Dirent, World, put_refs, dirent_dup}
use makarna_x.Vfs.Dirent.{
  dot, dot_dot, find_child, dirent_cache_add, inode_new, lookup_disk, lookup_live, dirent_lookup,
  add_found,
}
use makarna_x.Vfs.Cache.{
  Coherent-found, Held-found, Coherent, IsHeld, Kept, Coherent-dup, Held-dup, Held-self, inode-dup,
  with_found,
}

find_child-some :
    (dirents : ℕ → Dirent) (cs : List ℕ) (name : Name) (c : ℕ)
    → find_child dirents cs name ≡ some c
    → (has c cs ≡ true) × ((dirents c).name ≡ name)
unfolding find_child
find_child-some dirents [] name c h = cc
find_child-some dirents (x ∷ cs) name c h =
    ground (arith, find_child-some dirents cs name c, name_eq_iff (dirents x).name name)

-- What `dirent_lookup` of a name gives, beside what the disk gives.
abbrev pub Agrees : World → ℕ → Outcome Inode → Outcome ℕ × World → Type 0
Agrees w d (done v) (r, w') =
    (c : ℕ) × (k : ℕ) × (r ≡ done c)
    × ((w'.dirents c).inode ≡ some k)
    × (w'.inodes k ≡ v)
    × (d < c)
    × IsHeld w' c
    × Kept w w'
Agrees w d (fails n) (r, w') = (r ≡ fails n) × Kept w w'
Agrees w d stop (r, w') = r ≡ stop

lookup_live_plain :
    (w : World) (d i : ℕ) (name : Name)
    → name ≢ dot
    → name ≢ dot_dot
    → find_child w.dirents (w.dirents d).childs name ≡ none
    → lookup_live d i name w ≡ lookup_disk d i name w
unfolding lookup_live
lookup_live_plain w d i name a b missing =
    ground (arith, name_eq_iff name dot, name_eq_iff name dot_dot)

lookup_live_cached :
    (w : World) (d i c : ℕ) (name : Name)
    → name ≢ dot
    → name ≢ dot_dot
    → find_child w.dirents (w.dirents d).childs name ≡ some c
    → lookup_live d i name w ≡ dirent_dup c w
unfolding lookup_live
lookup_live_cached w d i c name a b found =
    ground (arith, name_eq_iff name dot, name_eq_iff name dot_dot)

dirent_lookup_live :
    (w : World) (d i : ℕ) (name : Name)
    → (w.dirents d).inode ≡ some i
    → dirent_lookup d name w ≡ lookup_live d i name w
unfolding dirent_lookup
dirent_lookup_live w d i name live = rw (dirent_lookup, live) refl

-- A name that the disk does not have leaves an inode without a reference.
Coherent-lost :
    (w : World) → Coherent w → Coherent (put_refs (record w { next = suc w.next }) w.next (pos 0))
Coherent-lost w h = record {
  cached = λ d e i a b. h.cached d e i a b;
  known = λ d e a. (ground (arith, h.known d e a), ground (arith, h.known d e a));
  unused = λ d a. h.unused d (omega (arith, a));
  bounded = λ d i a. omega (arith, h.bounded d i a);
  counted = h.counted;
}

inode-found :
    (w : World) (d : ℕ) (name : Name) (v : Inode)
    → d ≢ suc w.next
    → (((dirent_dup (suc w.next) (with_found w d name v)).1.dirents (suc w.next)).inode
        ≡ some w.next)
      × ((dirent_dup (suc w.next) (with_found w d name v)).1.inodes w.next ≡ v)
unfolding dirent_dup dirent_cache_add inode_new
inode-found w d name v other = (ground arith, ground arith)

Agrees-disk :
    (w : World) (d i : ℕ) (name : Name) (o : Outcome Inode)
    → Coherent w
    → (w.dirents d).inode ≡ some i
    → (denemefs_lookup (w.inodes i) name w.table).0 ≡ o
    → Agrees w d o (add_found d name w o)
unfolding dirent_dup dirent_cache_add inode_new
Agrees-disk w d i name (done v) h live e =
    let w1 = with_found w d name v in
    let (a, b) = inode-found w d name v (ground (arith, h.unused d)) in
    let c1 = Coherent-found w d i name v h live e in
    (
      suc w.next,
      w.next,
      refl,
      a,
      b,
      ground (arith, h.unused d),
      Held-self w1 (suc w.next) c1,
      record {
        coherent = Coherent-dup w1 (suc w.next) c1;
        table = refl;
        held = λ u held. Held-dup w1 (suc w.next) u (Held-found w d i name v h live e u held);
      },
    )
Agrees-disk w d i name (fails n) h live e =
    (refl, record { coherent = Coherent-lost w h; table = refl; held = λ u held. held })
Agrees-disk w d i name stop h live e = refl

-- In a coherent cache, `dirent_lookup` of a name that is not `.` or `..`, in an entry that has not been
-- removed, agrees with the disk: it gives an entry whose inode is the one that `denemefs_lookup`
-- fills, with a reference, or returns below 0 as `denemefs_lookup` does, whether the name is in the
-- cache or not. The cache is coherent again, the table is as before, and no reference is lost.
pub dirent_lookup-Agrees :
    (w : World) (d i : ℕ) (name : Name)
    → Coherent w
    → (w.dirents d).inode ≡ some i
    → name ≢ dot
    → name ≢ dot_dot
    → Agrees w d (denemefs_lookup (w.inodes i) name w.table).0 (dirent_lookup d name w)
unfolding lookup_disk dirent_dup
dirent_lookup-Agrees w d i name h live a b =
    elim (Option-cases (find_child w.dirents (w.dirents d).childs name)) [
      | inl missing ↦
          let run : dirent_lookup d name w ≡ lookup_disk d i name w =
            dirent_lookup_live w d i name live ∙ lookup_live_plain w d i name a b missing in
          subst (λ r. Agrees w d (denemefs_lookup (w.inodes i) name w.table).0 r) (sym run)
            (Agrees-disk w d i name (denemefs_lookup (w.inodes i) name w.table).0 h live refl)
      | inr (c, found) ↦
          let run : dirent_lookup d name w ≡ dirent_dup c w =
            dirent_lookup_live w d i name live ∙ lookup_live_cached w d i c name a b found in
          let (listed, named) = find_child-some w.dirents (w.dirents d).childs name c found in
          let (k, at, same) = h.cached d c i listed live in
          let disk : (denemefs_lookup (w.inodes i) name w.table).0 ≡ done (w.inodes k) =
            subst (λ n. (denemefs_lookup (w.inodes i) n w.table).0 ≡ done (w.inodes k)) named
              same in
          subst (λ r. Agrees w d (denemefs_lookup (w.inodes i) name w.table).0 r) (sym run)
            (subst (λ o. Agrees w d o (dirent_dup c w)) (sym disk)
              (
                c,
                k,
                refl,
                inode-dup w c k at,
                refl,
                (h.known d c listed).0,
                Held-self w c h,
                record {
                  coherent = Coherent-dup w c h;
                  table = refl;
                  held = λ u held. Held-dup w c u held;
                },
              ))
    ]
