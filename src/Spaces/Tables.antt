-- ===== src/Spaces/Tables.antt =====
-- The table that `page_get_c` may make in the directory of a task.
use makarna_x.Base.{
  ℕ, ◌+◌, ◌*◌, ◌≡◌, ◌≢◌, refl, sym, ap, ◌∙◌, ◌⊎◌, inl, inr, Bool, true, false, Option, none, some,
  ◌==◌, arith, Bool-cases, Option-cases, if◌then◌else◌, subst,
}
use makarna_x.DenemeFs.Store.{done, fails}
use makarna_x.Memory.Virtual.{Layout, Pte, PageDirInfo, pdx, ptx, page_get, enomem, no_pte}
use makarna_x.Flow.{Call, branch_done, branch_fails, pure, fail, modify}
use makarna_x.Spaces.State.{Vm, Space, put_space}
use makarna_x.Spaces.Tmp.{tmp_page_alloc_map, with_table, pde_alloc, make_table}
use makarna_x.Spaces.Segments.{present_pte}
use makarna_x.Spaces.Ready.{tmp_va, IsReady, IsReady-same, IsUsed}
use makarna_x.Spaces.TmpAlloc.{Kept, Allocated}
use makarna_x.Spaces.TmpRound.{Refused, tmp_page_alloc_map_lem}

-- The page that the directory `k` shows at the address, if one is present.
abbrev pub shows : Vm → ℕ → ℕ → Option Pte
shows v k x = present_pte (page_get (v.spaces k).info x)

abbrev pub layout_of : Vm → ℕ → Layout
layout_of v k = (v.spaces k).info.layout

-- What a step on the directory `k` of a task keeps.
pub record Keeps (k : ℕ) (v w : Vm) : Type 0 where
  pub ready : IsReady w
  pub areas : w.areas ≡ v.areas
  pub cr3 : w.cr3 ≡ v.cr3
  pub others : (j : ℕ) → j ≢ 0 → j ≢ k → w.spaces j ≡ v.spaces j
  pub layout : layout_of w k ≡ layout_of v k
  pub kept : Kept v w

pub Kept-trans : (u v w : Vm) → v.areas ≡ u.areas → Kept u v → Kept v w → Kept u w
Kept-trans u v w a f g s less set =
    let (at, on_bit) = f s less set in
    let (at2, on2) = g s less on_bit in
    (
      subst
            (λ x.
              page_get (w.spaces 0).info (x.tmp_base + s * 4096)
              ≡ page_get (v.spaces 0).info (x.tmp_base + s * 4096))
            a at2
          ∙ at,
      on2,
    )

pub Keeps-trans : (k : ℕ) (u v w : Vm) → Keeps k u v → Keeps k v w → Keeps k u w
Keeps-trans k u v w f g = record {
  ready = g.ready;
  areas = g.areas ∙ f.areas;
  cr3 = g.cr3 ∙ f.cr3;
  others = λ j a b. g.others j a b ∙ f.others j a b;
  layout = g.layout ∙ f.layout;
  kept = Kept-trans u v w f.areas f.kept g.kept;
}

pub Keeps-refl : (k : ℕ) (v : Vm) → IsReady v → Keeps k v v
Keeps-refl k v r = record {
  ready = r;
  areas = refl;
  cr3 = refl;
  others = λ j a b. refl;
  layout = refl;
  kept = λ s less set. (refl, set);
}

-- The table of the address is there, and no page has come or gone.
pub record Made (k va : ℕ) (v w : Vm) : Type 0 where
  pub keeps : Keeps k v w
  pub bytes : w.bytes ≡ v.bytes
  pub used : (x : ℕ) → IsUsed v x → w.memory.pages x ≡ v.memory.pages x
  pub there : (pte : Pte) × (page_get (w.spaces k).info va ≡ some pte)
  pub same : (x : ℕ) → shows w k x ≡ shows v k x

abbrev pub tabled : Vm → ℕ → ℕ → ℕ → Vm
tabled u k pde va = put_space u k (with_table pde va (u.spaces k))

pub page_get-with_table :
    (s : Space) (pde va x : ℕ)
    → page_get (with_table pde va s).info x
      ≡ (if pde == pdx x then some no_pte else page_get s.info x)
unfolding page_get
page_get-with_table s pde va x = elim (Bool-cases (pde == pdx x)) [
  | inl same ↦ ground (arith, same)
  | inr apart ↦ ground (arith, apart)
]

pub page_get_no_table : (d : PageDirInfo) (x : ℕ) → d.pgtables (pdx x) ≡ none → page_get d x ≡ none
unfolding page_get
page_get_no_table d x e = ground (arith, e)

pub at_self : (u : Vm) (k : ℕ) (s : Space) → (put_space u k s).spaces k ≡ s
at_self u k s = ground arith

shows-tabled :
    (u : Vm) (k pde va x : ℕ)
    → (u.spaces k).info.pgtables pde ≡ none
    → shows (tabled u k pde va) k x ≡ shows u k x
shows-tabled u k pde va x missing =
    ap (λ s. present_pte (page_get s.info x)) (at_self u k (with_table pde va (u.spaces k)))
    ∙ ap present_pte (page_get-with_table (u.spaces k) pde va x)
    ∙ by_table (pde == pdx x) refl
  where
    by_table :
        (b : Bool)
        → (pde == pdx x) ≡ b
        → present_pte (if b then some no_pte else page_get (u.spaces k).info x) ≡ shows u k x
    by_table false e = refl
    by_table true e =
        let same : pde ≡ pdx x = ground (arith, e) in
        sym (
          ap present_pte (
            page_get_no_table (u.spaces k).info x
              (subst (λ y. (u.spaces k).info.pgtables y ≡ none) same missing)))

tabled-Made :
    (v u : Vm) (k va p r : ℕ)
    → k ≢ 0
    → (v.spaces k).info.pgtables (pdx va) ≡ none
    → Allocated v u p r
    → Made k va v (tabled u k (pdx va) (tmp_va v r))
tabled-Made v u k va p r ne missing a =
    let w = tabled u k (pdx va) (tmp_va v r) in
    let gone : (u.spaces k).info.pgtables (pdx va) ≡ none =
      ap (λ s. s.info.pgtables (pdx va)) (a.others k ne) ∙ missing in
    let kernel : w.spaces 0 ≡ u.spaces 0 = ground (arith, ne) in
    record {
      keeps = record {
        ready = IsReady-same u w refl refl kernel a.ready.pages a.ready;
        areas = a.areas;
        cr3 = a.cr3;
        others = λ j x y. ground (arith, y, a.others j x);
        layout =
            ap (λ s. s.info.layout) (at_self u k (with_table (pdx va) (tmp_va v r) (u.spaces k)))
            ∙ ap (λ s. s.info.layout) (a.others k ne);
        kept = λ s less set.
            let (at, marked) = a.kept s less set in
            (ap (λ y. page_get y.info (tmp_va v s)) kernel ∙ at, marked);
      };
      bytes = a.bytes;
      used = a.used;
      there = (
        no_pte,
        ap (λ s. page_get s.info va) (at_self u k (with_table (pdx va) (tmp_va v r) (u.spaces k)))
            ∙ page_get-with_table (u.spaces k) (pdx va) (tmp_va v r) va
            ∙ ground arith,
      );
      same = λ x.
          shows-tabled u k (pdx va) (tmp_va v r) x gone
          ∙ ap (λ s. present_pte (page_get s.info x)) (a.others k ne);
    }

-- `page_get_c` makes the table, or fails for want of memory.
abbrev pub TableResult : ℕ → ℕ → Vm → Type 0
TableResult k va v =
    ((w : Vm) × (make_table k va v ≡ (done tt, w)) × Made k va v w)
    ⊎ ((w : Vm) × (make_table k va v ≡ (fails enomem, w)) × Refused v w)

make_missing :
    (v : Vm) (k va : ℕ)
    → (v.spaces k).info.pgtables (pdx va) ≡ none
    → make_table k va v ≡ pde_alloc k (pdx va) v
unfolding make_table
make_missing v k va e =
    ap
      (λ o.
        (elim o as (λ x. Call Vm (Unit {0})) [ none ↦ pde_alloc k (pdx va) | some t ↦ pure tt ]) v)
      e

make_present :
    (v : Vm) (k va : ℕ) (t : ℕ → Pte)
    → (v.spaces k).info.pgtables (pdx va) ≡ some t
    → make_table k va v ≡ (done tt, v)
unfolding make_table
make_present v k va t e =
    ap
      (λ o.
        (elim o as (λ x. Call Vm (Unit {0})) [ none ↦ pde_alloc k (pdx va) | some t ↦ pure tt ]) v)
      e

table_there :
    (d : PageDirInfo) (va : ℕ) (t : ℕ → Pte)
    → d.pgtables (pdx va) ≡ some t
    → page_get d va ≡ some (t (ptx va))
unfolding page_get
table_there d va t e = ground (arith, e)

pub make_table_lem : (v : Vm) (k va : ℕ) → IsReady v → k ≢ 0 → TableResult k va v
unfolding pde_alloc
make_table_lem v k va ready ne = elim (Option-cases ((v.spaces k).info.pgtables (pdx va))) [
  | inr (t, e) ↦ inl (
    v,
    make_present v k va t e,
    record {
      keeps = Keeps-refl k v ready;
      bytes = refl;
      used = λ x h. refl;
      there = (t (ptx va), table_there (v.spaces k).info va t e);
      same = λ x. refl;
    },
  )
  | inl missing ↦ elim (tmp_page_alloc_map_lem v ready) [
    | inl (p, r, u, run, a, clear) ↦ inl (
      tabled u k (pdx va) (tmp_va v r),
      make_missing v k va missing
          ∙ branch_done (tmp_page_alloc_map 3)
              (λ x. modify λ y. put_space y k (with_table (pdx va) x.1 (y.spaces k)))
              (λ n. fail enomem) v u (p, tmp_va v r) run,
      tabled-Made v u k va p r ne missing a,
    )
    | inr (w, run, refused) ↦ inr (
      w,
      make_missing v k va missing
          ∙ branch_fails (tmp_page_alloc_map 3)
              (λ x. modify λ y. put_space y k (with_table (pdx va) x.1 (y.spaces k)))
              (λ n. fail enomem) v w enomem run,
      refused,
    )
  ]
]
