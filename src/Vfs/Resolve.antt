-- ===== src/Vfs/Resolve.antt =====
-- The search along a path through the cache, and on the disk alone.
use makarna_x.Base.{ℕ, suc, ◌≡◌, ◌≢◌, refl, sym, ap, ◌∙◌, some, List, [], ◌∷◌, arith, subst, take}
use makarna_x.Sched.State.{pos}
use makarna_x.DenemeFs.Store.{Name, Inode, Table, Outcome, done, fails, stop}
use makarna_x.DenemeFs.Dir.{denemefs_lookup}
use makarna_x.Vfs.World.{World, continue, put_dirent, dirent_dup, dirent_free}
use makarna_x.Vfs.Dirent.{dot, dot_dot, dirent_lookup}
use makarna_x.Vfs.Coherent.{Agrees, dirent_lookup-Agrees}
use makarna_x.Vfs.Cache.{Coherent, IsHeld, Coherent-dup, inode-dup, Held-self}
use makarna_x.Vfs.Path.{visit, leave, start, dirent_find}
use makarna_x.Vfs.Walk.{walk, names_from, AllShort, dirent_find-walk}

abbrev pub AllPlain : List Name → Type 0
AllPlain [] = Unit {0}
AllPlain (n ∷ ns) = (n ≢ dot) × (n ≢ dot_dot) × AllPlain ns

abbrev pub then_disk : (Inode → Outcome Inode) → Outcome Inode → Outcome Inode
then_disk f (done v) = f v
then_disk f (fails n) = fails n
then_disk f stop = stop

-- The search on the disk alone: `denemefs_lookup` of each name in the inode found before.
abbrev pub disk_walk : Table → Inode → List Name → Outcome Inode
disk_walk t v [] = done v
disk_walk t v (n ∷ ns) = then_disk (λ u. disk_walk t u ns) (denemefs_lookup v n t).0

-- The state after `dirent_free` of an entry that is held.
abbrev freed : World → ℕ → ℕ → World
freed w d n = put_dirent w d (record (w.dirents d) { ref_count = pos n })

dirent_free_lem :
    (w : World) (d n : ℕ)
    → (w.dirents d).ref_count ≡ pos (suc n)
    → dirent_free d w ≡ (done tt, freed w d n)
unfolding dirent_free
dirent_free_lem w d n h = rw h refl

Coherent-freed : (w : World) (d n : ℕ) → Coherent w → Coherent (freed w d n)
Coherent-freed w d n h = record {
  cached = λ e c i a b. ground (arith, h.cached e c i);
  known = λ e c a. ground (arith, h.known e c);
  unused = λ e a. ground (arith, h.unused e a);
  bounded = λ e i a. ground (arith, h.bounded e i);
  counted = λ e. ground (arith, h.counted e);
}

-- What a search gives, beside what the disk gives.
abbrev pub Resolves : World → Outcome Inode → Outcome ℕ × World → Type 0
Resolves w (done v) (r, w') =
    (c : ℕ) × (k : ℕ) × (r ≡ done c)
    × ((w'.dirents c).inode ≡ some k)
    × (w'.inodes k ≡ v)
    × IsHeld w' c
    × Coherent w'
    × (w'.table ≡ w.table)
Resolves w (fails n) (r, w') = (r ≡ fails n) × Coherent w' × (w'.table ≡ w.table)
Resolves w stop (r, w') = r ≡ stop

leave_lem :
    (w w' : World) (d : ℕ) (o : Outcome Inode) (r : Outcome ℕ)
    → IsHeld w d
    → Agrees w d o (r, w')
    → Resolves w o (leave d r w')
leave_lem w w' d (done v) r held (c, k, e, at, same, less, c_held, kept) =
    let (n, count) = kept.held d held in
    let run : leave d r w' ≡ (done c, freed w' d n) =
      rw e (ap (λ q. continue (λ u. λ x. (done c, x)) q.0 q.1) (dirent_free_lem w' d n count)) in
    subst (λ q. Resolves w (done v) q) (sym run)
      (
        c,
        k,
        refl,
        ground arith,
        same,
        (c_held.0, ground (arith, c_held.1)),
        Coherent-freed w' d n kept.coherent,
        kept.table,
      )
leave_lem w w' d (fails m) r held (e, kept) =
    let (n, count) = kept.held d held in
    let run : leave d r w' ≡ (fails m, freed w' d n) =
      rw e (ap (λ q. continue (λ u. λ x. (fails m, x)) q.0 q.1) (dirent_free_lem w' d n count)) in
    subst (λ q. Resolves w (fails m) q) (sym run)
      (refl, Coherent-freed w' d n kept.coherent, kept.table)
leave_lem w w' d stop r held e = rw e refl

Resolves-table :
    (w w' : World) (o : Outcome Inode) (r : Outcome ℕ × World)
    → w'.table ≡ w.table
    → Resolves w' o r
    → Resolves w o r
Resolves-table w w' (done v) (r, u) same (c, k, e, at, is, held, h, kept) =
    (c, k, e, at, is, held, h, kept ∙ same)
Resolves-table w w' (fails n) (r, u) same (e, h, kept) = (e, h, kept ∙ same)
Resolves-table w w' stop (r, u) same e = e

-- A search for the rest of the names, from what the first has given.
abbrev Rest : List Name → Type 0
Rest ns =
    (w : World) (d i : ℕ)
    → Coherent w
    → (w.dirents d).inode ≡ some i
    → IsHeld w d
    → Resolves w (disk_walk w.table (w.inodes i) ns) (walk d ns w)

walk_next :
    (w w' : World) (ns : List Name) (o : Outcome Inode) (r : Outcome ℕ)
    → Rest ns
    → Resolves w o (r, w')
    → Resolves w (then_disk (λ u. disk_walk w.table u ns) o) (continue (λ next. walk next ns) r w')
walk_next w w' ns (done v) r rest (c, k, e, at, is, held, h, kept) =
    let there : Resolves w' (disk_walk w.table v ns) (walk c ns w') =
      subst (λ t. Resolves w' (disk_walk t v ns) (walk c ns w')) kept
        (subst (λ u. Resolves w' (disk_walk w'.table u ns) (walk c ns w')) is
          (rest w' c k h at held)) in
    subst (λ q. Resolves w (disk_walk w.table v ns) (continue (λ next. walk next ns) q w')) (sym e)
      (Resolves-table w w' (disk_walk w.table v ns) (walk c ns w') kept there)
walk_next w w' ns (fails n) r rest (e, h, kept) = rw e (refl, h, kept)
walk_next w w' ns stop r rest e = rw e refl

visit-Resolves :
    (w : World) (d i : ℕ) (name : Name)
    → Coherent w
    → (w.dirents d).inode ≡ some i
    → IsHeld w d
    → name ≢ dot
    → name ≢ dot_dot
    → Resolves w (denemefs_lookup (w.inodes i) name w.table).0 (visit d name w)
unfolding visit
visit-Resolves w d i name h live held a b =
    let found = dirent_lookup d name w in
    leave_lem w found.1 d (denemefs_lookup (w.inodes i) name w.table).0 found.0 held
      (dirent_lookup-Agrees w d i name h live a b)

walk-Resolves : (ns : List Name) → AllPlain ns → Rest ns
walk-Resolves [] plain w d i h live held = (d, i, refl, live, refl, held, h, refl)
walk-Resolves (n ∷ ns) (a, b, plain) w d i h live held =
    let there = visit d n w in
    walk_next w there.1 ns (denemefs_lookup (w.inodes i) n w.table).0 there.0
      (walk-Resolves ns plain) (visit-Resolves w d i n h live held a b)

-- In a coherent cache, where the entry that the search starts in has not been removed and the
-- names of the path have room in the buffer and are not `.` or `..`, `dirent_find` gives what the
-- disk gives: an entry, with a reference, whose inode is the one that `denemefs_lookup` of the
-- names one after the other finds, or the failure of the first that fails. The cache is coherent
-- after it and the table is as before.
pub dirent_find-Resolves :
    (path : List ℕ) (len i : ℕ) (w : World)
    → Coherent w
    → (w.dirents (start path w)).inode ≡ some i
    → AllShort (names_from [] (take len path))
    → AllPlain (names_from [] (take len path))
    → Resolves w
        (disk_walk w.table (w.inodes i) (names_from [] (take len path)))
        (dirent_find path len w)
unfolding dirent_dup
dirent_find-Resolves path len i w h live short plain =
    let d = start path w in
    let w1 = (dirent_dup d w).1 in
    subst (Resolves w (disk_walk w.table (w.inodes i) (names_from [] (take len path))))
      (sym (dirent_find-walk path len w short))
      (walk-Resolves (names_from [] (take len path)) plain w1 d i (Coherent-dup w d h)
        (inode-dup w d i live) (Held-self w d h))
