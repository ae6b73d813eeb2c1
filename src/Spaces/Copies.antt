-- ===== src/Spaces/Copies.antt =====
-- `copy_pages`: the pages of a range of the running task, copied into the directory of another task.
use makarna_x.Base.{
  ℕ, ◌+◌, ◌*◌, ◌%◌, ◌≡◌, ◌≢◌, refl, sym, ap, ◌∙◌, ◌⊎◌, inl, inr, true, false, none, some, ◌==◌,
  subst,
}
use makarna_x.DenemeFs.Store.{done, fails}
use makarna_x.Memory.Pages.{refcount_dec}
use makarna_x.Memory.Queue.{refcount_dec-last}
use makarna_x.Memory.Virtual.{page_get, enomem}
use makarna_x.Flow.{
  Call, chain, chain_fails, branch_done, branch_fails, pure, modify, must, halt, assert, fail,
  ◌>>=◌, ◌>>◌, branch,
}
use makarna_x.Spaces.State.{Vm}
use makarna_x.Spaces.Tmp.{pte_of, tmp_page_alloc_map, tmp_page_free, page_insert}
use makarna_x.Spaces.Segments.{present_pte, copy_bytes, copy_page}
use makarna_x.Spaces.Entries.{in_user, in_kernel}
use makarna_x.Spaces.Ready.{tmp_va, IsReady, IsReady-same, TmpArea-same}
use makarna_x.Spaces.TmpAlloc.{Allocated}
use makarna_x.Spaces.TmpFree.{released, tmp_page_free_run}
use makarna_x.Spaces.TmpRound.{Refused, tmp_page_alloc_map_lem}
use makarna_x.Spaces.Tables.{shows, layout_of}
use makarna_x.Spaces.PageInsert.{page_insert_lem}
use makarna_x.Spaces.CopyPage.{PageCopied, Between, finished, free_copied, finished_lem}

must_run :
    {A : Type 0} (m : Call Vm A) (s t : Vm) (a : A) → m s ≡ (done a, t) → must m s ≡ (done a, t)
must_run m s t a e = branch_done m pure (λ n. halt) s t a e

-- The end of `__copy_page_from_current` after a `page_insert`, and after one that failed.
abbrev after_insert : ℕ → ℕ → Call Vm (Unit {0})
after_insert va rc = must (tmp_page_free va) >>= λ x. pure tt

abbrev after_failure : ℕ → ℕ → Call Vm (Unit {0})
after_failure va n = must (tmp_page_free va) >>= λ rc. assert (rc == 0) >> fail n

abbrev after_alloc : ℕ → ℕ → ℕ → ℕ → ℕ × ℕ → Call Vm (Unit {0})
after_alloc dest va perm q r =
    modify (copy_bytes r.0 q)
    >> branch (page_insert dest r.0 va (perm % 8)) (after_insert r.1) (after_failure r.1)

-- A new page goes back where `page_insert` failed.
give_back :
    (v u x : Vm) (p q r : ℕ)
    → Allocated v u p r
    → Refused (copy_bytes p q u) x
    → (w : Vm) × (tmp_page_free (tmp_va v r) x ≡ (done 0, w))
give_back v u x p q r a refused =
    let (xs, list, room) = a.ready.pages in
    let (m, run, left) =
      refcount_dec-last u.memory xs p list (ap (λ y. y.free) a.one) (ap (λ y. y.type) a.one)
        (ap (λ y. y.next_or_ref) a.one) a.ne_zero a.small room in
    let same = refused.same in
    let areas : x.areas ≡ v.areas = ap (λ y. y.areas) same ∙ a.areas in
    let entry =
      subst (λ y. page_get (y.spaces 0).info (y.areas.tmp_base + r * 4096) ≡ some (pte_of p 3))
        (sym same)
        (subst (λ y. page_get (u.spaces 0).info (y.tmp_base + r * 4096) ≡ some (pte_of p 3))
          (sym a.areas) a.entry) in
    let area = TmpArea-same u x (ap (λ y. y.areas) same) (ap (λ y. y.spaces 0) same) a.ready.area in
    (
      released x r m,
      ap (λ y. tmp_page_free (y.tmp_base + r * 4096) x) (sym areas)
          ∙ tmp_page_free_run x r 0 (pte_of p 3) m area a.bit (refused.bits r ∙ a.marked) entry refl
              (ap (λ y. refcount_dec y.memory p) same ∙ run),
    )

-- The two ways `__copy_page_from_current` ends.
abbrev pub CopyResult : ℕ → ℕ → ℕ → ℕ → Vm → Type 0
CopyResult k va perm q v =
    ((w : Vm) × (copy_page k va perm q v ≡ (done tt, w)) × PageCopied k va perm q v w)
    ⊎ ((w : Vm) × (copy_page k va perm q v ≡ (fails enomem, w)))

pub copy_page_lem :
    (v : Vm) (k va perm q : ℕ)
    → IsReady v
    → k ≢ 0
    → shows v k va ≡ none
    → (in_user (layout_of v k) va ≡ false → in_kernel (layout_of v k) va ≡ true)
    → CopyResult k va perm q v
unfolding copy_page
copy_page_lem v k va perm q ready ne absent area = elim (tmp_page_alloc_map_lem v ready) [
  | inr (w, run, refused) ↦
      inr (w, chain_fails (tmp_page_alloc_map 3) (after_alloc k va perm q) v w enomem run)
  | inl (p, r, u, run, a, clear) ↦
      let u2 = copy_bytes p q u in
      let space = a.others k ne in
      let start = chain (tmp_page_alloc_map 3) (after_alloc k va perm q) v u (p, tmp_va v r) run in
      elim (page_insert_lem u2 k p va (perm % 8)
        (IsReady-same u u2 refl refl refl a.ready.pages a.ready) ne a.one
        (ap (λ s. present_pte (page_get s.info va)) space ∙ absent)
        (subst (λ s. in_user s.info.layout va ≡ false → in_kernel s.info.layout va ≡ true)
          (sym space) area)) [
            | inl (x, put_in, i) ↦
                let b : Between k va perm q p r v u x = record { allocated = a; put_in = i } in
                inl (
                  finished x r p,
                  start
                      ∙ branch_done (page_insert k p va (perm % 8)) (after_insert (tmp_va v r))
                          (after_failure (tmp_va v r)) u2 x 2 put_in
                      ∙ chain (must (tmp_page_free (tmp_va v r))) (λ y. pure tt) x (finished x r p)
                          1
                          (must_run (tmp_page_free (tmp_va v r)) x (finished x r p) 1
                            (free_copied k va perm q p r v u x b)),
                  finished_lem k va perm q p r v u x ne b,
                )
            | inr (x, failed, refused) ↦
                let (w, back) = give_back v u x p q r a refused in
                inr (
                  w,
                  start
                      ∙ branch_fails (page_insert k p va (perm % 8)) (after_insert (tmp_va v r))
                          (after_failure (tmp_va v r)) u2 x enomem failed
                      ∙ chain (must (tmp_page_free (tmp_va v r)))
                          (λ rc. assert (rc == 0) >> fail enomem) x w 0
                          (must_run (tmp_page_free (tmp_va v r)) x w 0 back),
                )
          ]
]
