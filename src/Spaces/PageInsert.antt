-- ===== src/Spaces/PageInsert.antt =====
-- `page_insert` into the directory of a task.
use makarna_x.Base.{
  ℕ, ◌/◌, ◌≡◌, ◌≢◌, refl, sym, ap, ◌∙◌, ◌⊎◌, inl, inr, true, false, none, some, ◌==◌, arith,
  if◌then◌else◌, subst,
}
use makarna_x.DenemeFs.Store.{Outcome, done, fails}
use makarna_x.Memory.Pages.{Memory, Page, inc20, type_available}
use makarna_x.Memory.Virtual.{Pte, PageDirInfo, page_get, enomem}
use makarna_x.Flow.{chain, chain_fails}
use makarna_x.Spaces.State.{Vm, info_of, put_info, on, on_run}
use makarna_x.Spaces.Tmp.{pte_of, make_table, page_insert, insert_page}
use makarna_x.Spaces.Segments.{present_pte}
use makarna_x.Spaces.Entries.{
  in_user, in_kernel, entered, referred, insert_page_fresh, page_get-entered, layout-entered,
  memory-entered,
}
use makarna_x.Spaces.Ready.{
  tmp_va, HasFreeList, IsReady, IsReady-same, IsUsed, IsFreeList-put, one_ref,
}
use makarna_x.Spaces.TmpAlloc.{Kept}
use makarna_x.Spaces.TmpRound.{Refused}
use makarna_x.Spaces.Tables.{shows, layout_of, Keeps, Keeps-trans, Made, make_table_lem, at_self}

abbrev pub two_refs : Page
two_refs = record { next_or_ref = 2; free = false; type = type_available }

-- The page `p`, which had one reference, is put in at `va`.
pub record Inserted (k p va perm : ℕ) (v w : Vm) : Type 0 where
  pub keeps : Keeps k v w
  pub bytes : w.bytes ≡ v.bytes
  pub used : (x : ℕ) → x ≢ p → IsUsed v x → w.memory.pages x ≡ v.memory.pages x
  pub count : w.memory.pages p ≡ two_refs
  pub entry : page_get (w.spaces k).info va ≡ some (pte_of p perm)
  pub rest : (x : ℕ) → x / 4096 ≢ va / 4096 → shows w k x ≡ shows v k x

abbrev pub inserted : Vm → ℕ → ℕ → ℕ → ℕ → Vm
inserted u k p va perm =
    put_info u k
      (entered (info_of u k) (referred u.memory p) va (pte_of p perm) (in_user (layout_of u k) va))

not_present : (pte : Pte) → present_pte (some pte) ≡ none → pte.present ≡ false
not_present pte h = ground (arith, h)

referred_two : (m : Memory) (p : ℕ) → m.pages p ≡ one_ref → (referred m p).pages p ≡ two_refs
unfolding inc20
referred_two m p e = ground (arith, e)

referred-HasFreeList :
    (m : Memory) (p : ℕ) → (m.pages p).free ≡ false → HasFreeList m → HasFreeList (referred m p)
referred-HasFreeList m p used (xs, list, room) = (
  xs,
  IsFreeList-put m xs p (record (m.pages p) { next_or_ref = inc20 (m.pages p).next_or_ref }) list
      used used,
  room,
)

inserted_lem :
    (v u : Vm) (k p va perm : ℕ) (pte : Pte)
    → k ≢ 0
    → v.memory.pages p ≡ one_ref
    → Made k va v u
    → page_get (u.spaces k).info va ≡ some pte
    → Inserted k p va perm v (inserted u k p va perm)
unfolding page_get
inserted_lem v u k p va perm pte ne one made there =
    let user = in_user (layout_of u k) va in
    let d = info_of u k in
    let m = referred u.memory p in
    let e = entered d m va (pte_of p perm) user in
    let w = inserted u k p va perm in
    let mem = memory-entered d m va (pte_of p perm) user in
    let lay = layout-entered d m va (pte_of p perm) user in
    let one_now = made.used p (ap (λ q. q.free) one) ∙ one in
    let at = at_self u k (record (u.spaces k) { info = e }) in
    let shown = λ (x : ℕ).
      ap (λ s. page_get s.info x) at ∙ page_get-entered d m va x (pte_of p perm) pte user there in
    let kernel : w.spaces 0 ≡ u.spaces 0 = ground (arith, ne) in
    let kept : Kept u w = λ s less set. (ap (λ y. page_get y.info (tmp_va u s)) kernel, set) in
    record {
      keeps = Keeps-trans k v u w made.keeps (record {
        ready =
            IsReady-same u w refl refl kernel
              (subst HasFreeList (sym mem)
                (referred-HasFreeList u.memory p (ap (λ q. q.free) one_now) made.keeps.ready.pages))
              made.keeps.ready;
        areas = refl;
        cr3 = refl;
        others = λ j a b. ground (arith, b);
        layout = ap (λ s. s.info.layout) at ∙ lay;
        kept = kept;
      });
      bytes = made.bytes;
      used = λ x apart in_use. ap (λ y. y.pages x) mem ∙ ground (arith, apart, made.used x in_use);
      count = ap (λ y. y.pages p) mem ∙ referred_two u.memory p one_now;
      entry = shown va ∙ ground arith;
      rest = λ x apart.
          let differ : (va / 4096 == x / 4096) ≡ false = ground (arith, apart) in
          ap present_pte (
            shown x
            ∙ ap (λ b. if b then some (pte_of p perm) else page_get (u.spaces k).info x) differ)
          ∙ made.same x;
    }

inc20_one : (m : Memory) (p : ℕ) → m.pages p ≡ one_ref → inc20 (m.pages p).next_or_ref ≡ 2
unfolding inc20
inc20_one m p e = ap (λ q. inc20 q.next_or_ref) e

abbrev pair_with : Outcome ℕ → PageDirInfo → Outcome ℕ × PageDirInfo
pair_with o d = (o, d)

insert_run :
    (u : Vm) (k p va perm : ℕ) (pte : Pte)
    → page_get (u.spaces k).info va ≡ some pte
    → pte.present ≡ false
    → u.memory.pages p ≡ one_ref
    → (in_user (layout_of u k) va ≡ false → in_kernel (layout_of u k) va ≡ true)
    → insert_page p va perm (info_of u k) ≡ (
      done 2,
      entered (info_of u k) (referred u.memory p) va (pte_of p perm) (in_user (layout_of u k) va),
    )
unfolding page_get
insert_run u k p va perm pte there off one area =
    let e =
      entered (info_of u k) (referred u.memory p) va (pte_of p perm) (in_user (layout_of u k) va) in
    insert_page_fresh (info_of u k) p va perm pte there off (ap (λ q. q.free) one) area
    ∙ ap (λ (n : ℕ). pair_with (done n) e) (inc20_one u.memory p one)

-- The two ways a `page_insert` of a page with one reference ends.
abbrev pub InsertResult : ℕ → ℕ → ℕ → ℕ → Vm → Type 0
InsertResult k p va perm v =
    ((w : Vm) × (page_insert k p va perm v ≡ (done 2, w)) × Inserted k p va perm v w)
    ⊎ ((w : Vm) × (page_insert k p va perm v ≡ (fails enomem, w)) × Refused v w)

pub page_insert_lem :
    (v : Vm) (k p va perm : ℕ)
    → IsReady v
    → k ≢ 0
    → v.memory.pages p ≡ one_ref
    → shows v k va ≡ none
    → (in_user (layout_of v k) va ≡ false → in_kernel (layout_of v k) va ≡ true)
    → InsertResult k p va perm v
unfolding page_insert
page_insert_lem v k p va perm ready ne one absent area = elim (make_table_lem v k va ready ne) [
  | inr (w, run, refused) ↦
      inr (
        w,
        chain_fails (make_table k va) (λ x. on k (insert_page p va perm)) v w enomem run,
        refused,
      )
  | inl (u, run, made) ↦
      let (pte, there) = made.there in
      let one_now = made.used p (ap (λ q. q.free) one) ∙ one in
      let off = not_present pte (sym (ap present_pte there) ∙ made.same va ∙ absent) in
      inl (
        inserted u k p va perm,
        chain (make_table k va) (λ x. on k (insert_page p va perm)) v u tt run
            ∙ on_run k (insert_page p va perm) u (done 2)
                (entered (info_of u k) (referred u.memory p) va (pte_of p perm)
                  (in_user (layout_of u k) va))
                (insert_run u k p va perm pte there off one_now (
                  subst (λ l. in_user l va ≡ false → in_kernel l va ≡ true) (sym made.keeps.layout)
                    area)),
        inserted_lem v u k p va perm pte ne one made there,
      )
]
