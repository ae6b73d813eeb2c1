-- ===== src/Spaces/CopyPage.antt =====
-- `__copy_page_from_current`: one page of the running task, copied for another.
use makarna_x.Base.{
  ℕ, ◌+◌, ◌*◌, ◌/◌, ◌%◌, ◌≡◌, ◌≢◌, refl, sym, ap, ◌∙◌, true, false, some, arith, subst,
}
use makarna_x.DenemeFs.Store.{done}
use makarna_x.Memory.Pages.{Memory}
use makarna_x.Memory.Virtual.{page_get}
use makarna_x.Spaces.State.{Vm, info_of, bitmap_test}
use makarna_x.Spaces.Tmp.{pte_of, tmp_page_free}
use makarna_x.Spaces.Segments.{present_pte, copy_bytes}
use makarna_x.Spaces.Entries.{in_user}
use makarna_x.Spaces.Leave.{lowered, refcount_dec_two, memory-emptied}
use makarna_x.Spaces.Ready.{tmp_va, HasFreeList, IsReady, IsUsed, IsFreeList-put}
use makarna_x.Spaces.TmpAlloc.{Allocated}
use makarna_x.Spaces.TmpFree.{released, tmp_page_free_run, released-IsReady}
use makarna_x.Spaces.Tables.{shows, layout_of}
use makarna_x.Spaces.PageInsert.{Inserted, two_refs}

-- What a copy into the directory `k` leaves as it was.
pub record Leaves (k : ℕ) (v w : Vm) : Type 0 where
  pub ready : IsReady w
  pub areas : w.areas ≡ v.areas
  pub cr3 : w.cr3 ≡ v.cr3
  pub others : (j : ℕ) → j ≢ 0 → j ≢ k → w.spaces j ≡ v.spaces j
  pub layout : layout_of w k ≡ layout_of v k
  pub used : (y : ℕ) → IsUsed v y → (w.memory.pages y ≡ v.memory.pages y) × (w.bytes y ≡ v.bytes y)

-- The directory `k` maps, at `va`, a page that was free and has the bytes that `q` had.
pub record PageCopied (k va perm q : ℕ) (v w : Vm) : Type 0 where
  pub leaves : Leaves k v w
  pub page : ℕ
  pub entry : page_get (w.spaces k).info va ≡ some (pte_of page (perm % 8))
  pub was_free : (v.memory.pages page).free ≡ true
  pub used : IsUsed w page
  pub bytes : w.bytes page ≡ v.bytes q
  pub rest : (x : ℕ) → x / 4096 ≢ va / 4096 → shows w k x ≡ shows v k x

-- The state between `memcpy` and the end of `__copy_page_from_current`.
pub record Between (k va perm q p r : ℕ) (v u x : Vm) : Type 0 where
  pub allocated : Allocated v u p r
  pub put_in : Inserted k p va (perm % 8) (copy_bytes p q u) x

abbrev pub finished : Vm → ℕ → ℕ → Vm
finished x r p = released x r (lowered x.memory p 1)

lowered-HasFreeList :
    (m : Memory) (p : ℕ) → (m.pages p).free ≡ false → HasFreeList m → HasFreeList (lowered m p 1)
lowered-HasFreeList m p used (xs, list, room) =
    (xs, IsFreeList-put m xs p (record (m.pages p) { next_or_ref = 1 }) list used used, room)

tmp_entry :
    (k va perm q p r : ℕ) (v u x : Vm)
    → Between k va perm q p r v u x
    → (page_get (x.spaces 0).info (tmp_va x r) ≡ some (pte_of p 3))
      × (bitmap_test x.tmp_pages r ≡ true)
tmp_entry k va perm q p r v u x b =
    let (at, marked) = b.put_in.keeps.kept r b.allocated.bit b.allocated.marked in
    let entry =
      subst (λ a. page_get (u.spaces 0).info (a.tmp_base + r * 4096) ≡ some (pte_of p 3))
        (sym b.allocated.areas) b.allocated.entry in
    (
      subst (λ a. page_get (x.spaces 0).info (a.tmp_base + r * 4096) ≡ some (pte_of p 3))
          (sym b.put_in.keeps.areas) (at ∙ entry),
      marked,
    )

pub free_copied :
    (k va perm q p r : ℕ) (v u x : Vm)
    → Between k va perm q p r v u x
    → tmp_page_free (tmp_va v r) x ≡ (done 1, finished x r p)
free_copied k va perm q p r v u x b =
    let (entry, marked) = tmp_entry k va perm q p r v u x b in
    let two = b.put_in.count in
    ap (λ a. tmp_page_free (a.tmp_base + r * 4096) x)
      (sym (b.put_in.keeps.areas ∙ b.allocated.areas))
    ∙ tmp_page_free_run x r 1 (pte_of p 3) (lowered x.memory p 1) b.put_in.keeps.ready.area
        b.allocated.bit marked entry refl
        (refcount_dec_two x.memory p (ap (λ y. y.free) two) (ap (λ y. y.next_or_ref) two)
          b.allocated.ne_zero)

finished_page : (x : Vm) (r p y : ℕ) → y ≢ p → (finished x r p).memory.pages y ≡ x.memory.pages y
finished_page x r p y apart =
    ap (λ m. m.pages y)
      (memory-emptied (info_of x 0) (lowered x.memory p 1) (tmp_va x r)
        (in_user (layout_of x 0) (tmp_va x r)))
    ∙ ground (arith, apart)

finished_used : (x : Vm) (r p : ℕ) → x.memory.pages p ≡ two_refs → IsUsed (finished x r p) p
finished_used x r p two =
    ap (λ m. (m.pages p).free)
      (memory-emptied (info_of x 0) (lowered x.memory p 1) (tmp_va x r)
        (in_user (layout_of x 0) (tmp_va x r)))
    ∙ ground (arith, two)

finished_space : (x : Vm) (r p k : ℕ) → k ≢ 0 → (finished x r p).spaces k ≡ x.spaces k
finished_space x r p k ne = ground (arith, ne)

pub finished_lem :
    (k va perm q p r : ℕ) (v u x : Vm)
    → k ≢ 0
    → Between k va perm q p r v u x
    → PageCopied k va perm q v (finished x r p)
finished_lem k va perm q p r v u x ne b =
    let i = b.put_in in
    let (entry, marked) = tmp_entry k va perm q p r v u x b in
    let mine = finished_space x r p k ne in
    record {
      leaves = record {
        ready =
            released-IsReady x r (pte_of p 3) (lowered x.memory p 1) i.keeps.ready b.allocated.bit
              entry (lowered-HasFreeList x.memory p (ap (λ y. y.free) i.count) i.keeps.ready.pages);
        areas = i.keeps.areas ∙ b.allocated.areas;
        cr3 = i.keeps.cr3 ∙ b.allocated.cr3;
        others = λ j a c. finished_space x r p j a ∙ i.keeps.others j a c ∙ b.allocated.others j a;
        layout =
            ap (λ s. s.info.layout) mine
            ∙ i.keeps.layout
            ∙ ap (λ s. s.info.layout) (b.allocated.others k ne);
        used = λ y in_use. kept_page y in_use;
      };
      page = p;
      entry = ap (λ s. page_get s.info va) mine ∙ i.entry;
      was_free = b.allocated.was_free;
      used = finished_used x r p i.count;
      bytes = ap (λ f. f p) i.bytes ∙ copied_self ∙ ap (λ f. f q) b.allocated.bytes;
      rest = λ y apart.
          ap (λ s. present_pte (page_get s.info y)) mine
          ∙ i.rest y apart
          ∙ ap (λ s. present_pte (page_get s.info y)) (b.allocated.others k ne);
    }
  where
    copied_self : (copy_bytes p q u).bytes p ≡ u.bytes q
    copied_self = ground arith

    kept_page :
        (y : ℕ)
        → IsUsed v y
        → ((finished x r p).memory.pages y ≡ v.memory.pages y)
          × ((finished x r p).bytes y ≡ v.bytes y)
    kept_page y in_use =
        let apart : y ≢ p = λ e. absurd (ground (arith, b.allocated.was_free, in_use, e)) in
        let same = b.allocated.used y in_use in
        (
          finished_page x r p y apart
              ∙ b.put_in.used y apart (ap (λ z. z.free) same ∙ in_use)
              ∙ same,
          ap (λ f. f y) b.put_in.bytes ∙ ground (arith, apart) ∙ ap (λ f. f y) b.allocated.bytes,
        )
