-- ===== src/Vfs/Relative.antt =====
-- `dirent_find2` of a path without a slash, and `create` of a kind of file that denemefs has not.
use makarna_x.Base.{
  ℕ, zero, suc, ◌<◌, ◌≡◌, ◌≢◌, refl, ap, ◌∙◌, inl, inr, Option, none, some, List, arith, Bool-cases,
}
use makarna_x.Sched.State.{ℤ, pos}
use makarna_x.Ipc.Semaphore.{suc_ℤ}
use makarna_x.DenemeFs.Store.{Outcome, done, fails, stop}
use makarna_x.Vfs.World.{
  World, V, pure, or_fail, ◌>>◌, continue, ◌>>=◌, put_dirent, put_refs, dirent_free, inode_ref,
}
use makarna_x.Vfs.Path.{last_slash, dirent_find2}
use makarna_x.Vfs.Files.{
  inode_find2, inode_permission, dup_inode_of, create, create_in, recode, inode_in,
}
use makarna_x.Vfs.Fd.{mode_of, ft_chrdev, sys_mknod}

-- The state after `inode_find2` of a path without a slash.
abbrev pub taken : World → ℕ → ℤ → World
taken w i n =
    let w1 = put_refs w i (suc_ℤ (w.refs i)) in
    put_dirent w1 w.pwd (record (w.dirents w.pwd) { ref_count = n })

dirent_find2_plain :
    (path : List ℕ) (w : World)
    → last_slash path ≡ none
    → dirent_find2 path w ≡ (done (w.pwd, path), w)
unfolding dirent_find2
dirent_find2_plain path w h = rw (dirent_find2, h) refl

dup_inode_lem :
    (w : World) (d i : ℕ)
    → (w.dirents d).inode ≡ some i
    → dup_inode_of d w ≡ (done (some i), put_refs w i (suc_ℤ (w.refs i)))
unfolding inode_ref
dup_inode_lem w d i live = rw (dup_inode_of, live) refl

free_pwd :
    (w : World) (d n : ℕ)
    → (w.dirents d).ref_count ≡ pos (suc n)
    → dirent_free d w ≡ (done tt, put_dirent w d (record (w.dirents d) { ref_count = pos n }))
unfolding dirent_free
free_pwd w d n count = rw count refl

free_last : (w : World) (d : ℕ) → (w.dirents d).ref_count ≡ pos 0 → dirent_free d w ≡ (stop, w)
unfolding dirent_free
free_last w d count = rw count refl

inode_find2_plain :
    (path : List ℕ) (w : World)
    → last_slash path ≡ none
    → inode_find2 path w ≡ inode_in (w.pwd, path) w
unfolding inode_find2
inode_find2_plain path w h = ap (λ r. continue inode_in r.0 r.1) (dirent_find2_plain path w h)

-- For a path without a slash, where `pwd` has not been removed, `inode_find2` takes a reference of the
-- inode and gives back one of `pwd` that it has not taken: from a count n + 1 it returns the inode
-- and leaves n, and at 0 the ASSERT of `__dirent_free` fails.
pub inode_find2-pwd :
    (path : List ℕ) (w : World) (i : ℕ)
    → last_slash path ≡ none
    → (w.dirents w.pwd).inode ≡ some i
    → ((n : ℕ)
        → (w.dirents w.pwd).ref_count ≡ pos (suc n)
        → inode_find2 path w ≡ (done (i, path), taken w i (pos n)))
      × ((w.dirents w.pwd).ref_count ≡ pos 0 → (inode_find2 path w).0 ≡ stop)
inode_find2-pwd path w i plain live =
    let rest = λ (o : Option ℕ). dirent_free w.pwd >> (or_fail o 1 >>= λ j. pure (j, path)) in
    let next = λ (u : Unit {0}). pure (i, path) in
    let w1 = put_refs w i (suc_ℤ (w.refs i)) in
    let begin : inode_find2 path w ≡ rest (some i) w1 =
      inode_find2_plain path w plain
      ∙ ap (λ r. continue rest r.0 r.1) (dup_inode_lem w w.pwd i live) in
    (
      λ n count. begin ∙ ap (λ r. continue next r.0 r.1) (free_pwd w1 w.pwd n count),
      λ count. ap (λ r. r.0) (begin ∙ ap (λ r. continue next r.0 r.1) (free_last w1 w.pwd count)),
    )

-- `n + 1` calls, one after the other.
abbrev pub repeated : ℕ → List ℕ → World → Outcome (ℕ × List ℕ) × World
repeated zero path w = inode_find2 path w
repeated (suc n) path w =
    continue (λ r. repeated n path) (inode_find2 path w).0 (inode_find2 path w).1

repeated_done :
    (n : ℕ) (path : List ℕ) (w : World) (i : ℕ)
    → inode_find2 path w ≡ (done (i, path), taken w i (pos n))
    → ((k : ℕ) → k < n → (repeated k path (taken w i (pos n))).0 ≡ done (i, path))
    → (k : ℕ) → k < suc n
    → (repeated k path w).0 ≡ done (i, path)
repeated_done n path w i first before zero less = ap (λ r. r.0) first
repeated_done n path w i first before (suc k) less =
    ap (λ r. (continue (λ q. repeated k path) r.0 r.1).0) first ∙ before k (omega (arith, less))

-- Where `pwd` has not been removed and its count is `n`, of the calls of `inode_find2` with a path
-- without a slash the first `n` return the inode of `pwd`, and the one after them stops: each call has
-- given back a reference of `pwd` that it has not taken.
pub repeated-stop :
    (n : ℕ) (path : List ℕ) (w : World) (i : ℕ)
    → last_slash path ≡ none
    → (w.dirents w.pwd).inode ≡ some i
    → (w.dirents w.pwd).ref_count ≡ pos n
    → ((k : ℕ) → k < n → (repeated k path w).0 ≡ done (i, path)) × ((repeated n path w).0 ≡ stop)
repeated-stop zero path w i plain live count =
    (λ k less. absurd (omega (arith, less)), (inode_find2-pwd path w i plain live).1 count)
repeated-stop (suc n) path w i plain live count =
    let first = (inode_find2-pwd path w i plain live).0 n count in
    let (before, last) =
      repeated-stop n path (taken w i (pos n)) i plain (ground (arith, live)) (ground arith) in
    (
      repeated_done n path w i first before,
      ap (λ r. (continue (λ q. repeated n path) r.0 r.1).0) first ∙ last,
    )

-- A call that a function of its result never completes.
never_done :
    {A B : Type 0} (f : A → V B) (o : Outcome A) (w : World)
    → ((a : A) (u : World) (b : B) → (f a u).0 ≢ done b)
    → (b : B) → (continue f o w).0 ≢ done b
never_done f (done a) w never b = never a w b
never_done f (fails n) w never b = λ h. absurd (ground (arith, h))
never_done f stop w never b = λ h. absurd (ground (arith, h))

create_in-device :
    (mode dir : ℕ) (name : List ℕ) (w : World)
    → create_in (mode_of mode ft_chrdev) dir name w ≡ (fails 4, w)
create_in-device mode dir name w = refl

-- `sys_mknod` never succeeds, whatever the path, the mode and the number of the device: it makes a device
-- of type 4, which `create` does not know.
pub sys_mknod-fails :
    (path : List ℕ) (mode dev : ℕ) (w : World) (u : Unit {0})
    → (sys_mknod path mode dev w).0 ≢ done u
unfolding sys_mknod create
sys_mknod-fails path mode dev w u =
    never_done (λ r. _) (recode (inode_find2 path w).0 1 (inode_find2 path w).1).0
      (recode (inode_find2 path w).0 1 (inode_find2 path w).1).1
      (λ r t v.
        never_done (λ g. _) (inode_permission r.0 3 t).0 (inode_permission r.0 3 t).1
          (λ g s x. λ h. elim (Bool-cases g) [
            | inl given ↦ absurd (ground (arith, h))
            | inr refused ↦ absurd (ground (arith, h))
          ])
          v)
      u
