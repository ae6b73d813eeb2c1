-- ===== src/Spaces/TmpAlloc.antt =====
-- `tmp_page_alloc_map` on an ordered state: what it gives and what it keeps.
use makarna_x.Base.{
  ℕ, ◌+◌, ◌/◌, ◌^◌, ◌<◌, ◌≤◌, ◌≡◌, ◌≢◌, refl, sym, ap, ◌∙◌, inl, inr, true, false, some, ◌==◌,
  arith, Bool-cases, if◌then◌else◌, subst,
}
use makarna_x.DenemeFs.Store.{done}
use makarna_x.Memory.Pages.{Memory, page_alloc, inc20, type_available}
use makarna_x.Memory.Virtual.{Pte, page_get, round_down}
use makarna_x.Flow.{continue, chain, branch_done, pure, ◌>>◌}
use makarna_x.Spaces.State.{
  Vm, bitmap_test, bitmap_find_first_zero, bitmap_set, info_of, put_info, on_memory_end, on, on_run,
}
use makarna_x.Spaces.Bitmap.{bitmap_test-write_bit}
use makarna_x.Spaces.Tmp.{
  pte_of, tmp_page_get, tmp_page_at, map_at, map_page, put_back, tmp_page_alloc_map, page_or_enomem,
  alloc_page, insert_page, free_page,
}
use makarna_x.Spaces.Entries.{
  in_user, in_kernel, entered, referred, insert_page_fresh, page_get-entered, layout-entered,
  memory-entered,
}
use makarna_x.Spaces.Ready.{
  tmp_va, BitAgrees, TmpArea, HasFreeList, IsReady, IsUsed, IsFreeList-put, one_ref, Taken,
}

-- The state after bit `r` was set and the page `p` taken and put in at its address.
abbrev pub taken_bit : Vm → ℕ → Memory → Vm
taken_bit v r n = record v { tmp_pages = bitmap_set v.tmp_pages r; memory = n }

abbrev pub allocated : Vm → ℕ → ℕ → Memory → Vm
allocated v r p n =
    let u = taken_bit v r n in
    put_info u 0 (
      entered (info_of u 0) (referred n p) (tmp_va v r) (pte_of p 3)
        (in_user (v.spaces 0).info.layout (tmp_va v r)))

pub in_kernel_tmp :
    (v : Vm) (r : ℕ) → TmpArea v → r < 1024 → in_kernel (v.spaces 0).info.layout (tmp_va v r) ≡ true
in_kernel_tmp v r a less =
    let base = (v.spaces 0).info.layout.kernel_base in
    let low : base ≤ round_down (tmp_va v r) = omega (arith, a.whole, a.low) in
    let high : round_down (tmp_va v r) < (v.spaces 0).info.layout.kernel_top =
      omega (arith, a.high, less) in
    ground (arith, low, high)

pub alloc_run :
    (v : Vm) (r p : ℕ) (n : Memory) (pte : Pte)
    → bitmap_find_first_zero 32 0 v.tmp_pages ≡ some r
    → page_alloc v.memory ≡ some (some p, n)
    → (n.pages p).free ≡ false
    → page_get (v.spaces 0).info (tmp_va v r) ≡ some pte
    → pte.present ≡ false
    → in_kernel (v.spaces 0).info.layout (tmp_va v r) ≡ true
    → tmp_page_alloc_map 3 v ≡ (done (p, tmp_va v r), allocated v r p n)
unfolding tmp_page_alloc_map tmp_page_get page_get
alloc_run v r p n pte found taken used there absent area =
    let u = record v { tmp_pages = bitmap_set v.tmp_pages r } in
    let va = tmp_va v r in
    chain tmp_page_get (map_at 3) v u va (ap (λ o. tmp_page_at o v) found)
    ∙ branch_done alloc_page (map_page 3 va) (put_back va) u (taken_bit v r n) p
        (ap (λ o. let w = on_memory_end u o in continue page_or_enomem w.0 w.1) taken)
    ∙ branch_done (on 0 (insert_page p va 3)) (λ rc. pure (p, va))
        (λ k. free_page p >> put_back va k) (taken_bit v r n) (allocated v r p n)
        (inc20 (n.pages p).next_or_ref)
        (on_run 0 (insert_page p va 3) (taken_bit v r n) (done (inc20 (n.pages p).next_or_ref))
          (entered (info_of (taken_bit v r n) 0) (referred n p) va (pte_of p 3)
            (in_user (v.spaces 0).info.layout va))
          (insert_page_fresh (info_of (taken_bit v r n) 0) p va 3 pte there absent used
            (λ h. area)))

same_bit : (v : Vm) (r s : ℕ) → TmpArea v → tmp_va v r / 4096 ≡ tmp_va v s / 4096 → r ≡ s
same_bit v r s a e = omega (arith, a.whole, e)

pub page_of_bit :
    (v : Vm) (r s : ℕ) → TmpArea v → (tmp_va v r / 4096 == tmp_va v s / 4096) ≡ (r == s)
page_of_bit v r s a = elim (Bool-cases (r == s)) [
  | inl same ↦ let e : r ≡ s = ground (arith, same) in ground (arith, same, e)
  | inr apart ↦ ground (arith, apart, same_bit v r s a)
]

-- Every temporary page in use stays.
abbrev pub Kept : Vm → Vm → Type 0
Kept v w =
    (s : ℕ)
    → s < 1024
    → bitmap_test v.tmp_pages s ≡ true
    → (page_get (w.spaces 0).info (tmp_va v s) ≡ page_get (v.spaces 0).info (tmp_va v s))
      × (bitmap_test w.tmp_pages s ≡ true)

allocated-Kept :
    (v : Vm) (r p : ℕ) (n : Memory) (pte : Pte)
    → TmpArea v
    → page_get (v.spaces 0).info (tmp_va v r) ≡ some pte
    → bitmap_test v.tmp_pages r ≡ false
    → Kept v (allocated v r p n)
unfolding page_get
allocated-Kept v r p n pte area there clear s less set =
    let user = in_user (v.spaces 0).info.layout (tmp_va v r) in
    let apart : (r == s) ≡ false = ne_bit in
    let at =
      page_get-entered (info_of (taken_bit v r n) 0) (referred n p) (tmp_va v r) (tmp_va v s)
        (pte_of p 3) pte user there in
    (
      at
          ∙ ap (λ b. if b then some (pte_of p 3) else page_get (v.spaces 0).info (tmp_va v s))
              (page_of_bit v r s area ∙ apart),
      bitmap_test-write_bit v.tmp_pages r s true
          ∙ ap (λ b. if b then true else bitmap_test v.tmp_pages s) apart
          ∙ set,
    )
  where
    ne_bit : (r == s) ≡ false
    ne_bit = elim (Bool-cases (r == s)) [
      | inl same ↦
          let e : r ≡ s = ground (arith, same) in
          absurd (cc (sym clear ∙ ap (λ x. bitmap_test v.tmp_pages x) e ∙ set))
      | inr apart ↦ apart
    ]

-- What `tmp_page_alloc_map` gives and keeps: a page that was free, now with one reference, at an
-- address of the kernel that is marked.
pub record Allocated (v w : Vm) (p r : ℕ) : Type 0 where
  pub ready : IsReady w
  pub areas : w.areas ≡ v.areas
  pub cr3 : w.cr3 ≡ v.cr3
  pub bytes : w.bytes ≡ v.bytes
  pub others : (k : ℕ) → k ≢ 0 → w.spaces k ≡ v.spaces k
  pub used : (x : ℕ) → IsUsed v x → w.memory.pages x ≡ v.memory.pages x
  pub was_free : (v.memory.pages p).free ≡ true
  pub one : w.memory.pages p ≡ one_ref
  pub bit : r < 1024
  pub entry : page_get (w.spaces 0).info (tmp_va v r) ≡ some (pte_of p 3)
  pub marked : bitmap_test w.tmp_pages r ≡ true
  pub kept : Kept v w
  pub ne_zero : p ≢ 0
  pub small : p < 2 ^ 20

allocated_bits :
    (v : Vm) (r p s : ℕ) (n : Memory) (pte : Pte)
    → IsReady v
    → r < 1024
    → s < 1024
    → page_get (v.spaces 0).info (tmp_va v r) ≡ some pte
    → BitAgrees (allocated v r p n) s
unfolding page_get
allocated_bits v r p s n pte ready less room there =
    let user = in_user (v.spaces 0).info.layout (tmp_va v r) in
    let at =
      page_get-entered (info_of (taken_bit v r n) 0) (referred n p) (tmp_va v r) (tmp_va v s)
        (pte_of p 3) pte user there in
    let bit = bitmap_test-write_bit v.tmp_pages r s true in
    let numbers = page_of_bit v r s ready.area in
    let (old, here, agrees) = ready.bits s room in
    elim (Bool-cases (r == s)) [
      | inl same ↦ (
        pte_of p 3,
        at
            ∙ ap (λ b. if b then some (pte_of p 3) else page_get (v.spaces 0).info (tmp_va v s))
                (numbers ∙ same),
        sym (bit ∙ ap (λ b. if b then true else bitmap_test v.tmp_pages s) same),
      )
      | inr apart ↦ (
        old,
        at
            ∙ ap (λ b. if b then some (pte_of p 3) else page_get (v.spaces 0).info (tmp_va v s))
                (numbers ∙ apart)
            ∙ here,
        agrees ∙ sym (bit ∙ ap (λ b. if b then true else bitmap_test v.tmp_pages s) apart),
      )
    ]

referred_new :
    (n : Memory) (p : ℕ)
    → n.pages p ≡ record { next_or_ref = 0; free = false; type = type_available }
    → (referred n p).pages p ≡ one_ref
unfolding inc20
referred_new n p e = ground (arith, e)

pub allocated_lem :
    (v : Vm) (r p : ℕ) (n : Memory) (pte : Pte)
    → IsReady v
    → r < 1024
    → page_get (v.spaces 0).info (tmp_va v r) ≡ some pte
    → bitmap_test v.tmp_pages r ≡ false
    → Taken v.memory n p
    → Allocated v (allocated v r p n) p r
unfolding page_get
allocated_lem v r p n pte ready less there clear t =
    let l = (v.spaces 0).info.layout in
    let user = in_user l (tmp_va v r) in
    let d = info_of (taken_bit v r n) 0 in
    let m = referred n p in
    let mem = memory-entered d m (tmp_va v r) (pte_of p 3) user in
    let lay = layout-entered d m (tmp_va v r) (pte_of p 3) user in
    let (xs, list, room) = t.list in
    record {
      ready = record {
        area = record {
          whole = ready.area.whole;
          room = ready.area.room;
          low = subst (λ x. x.kernel_base ≤ v.areas.tmp_base) (sym lay) ready.area.low;
          high = subst (λ x. v.areas.tmp_base + 4194304 ≤ x.kernel_top) (sym lay) ready.area.high;
        };
        bits = λ s more. allocated_bits v r p s n pte ready less more there;
        pages = subst HasFreeList (sym mem) (
          xs,
          IsFreeList-put n xs p (record (n.pages p) { next_or_ref = inc20 (n.pages p).next_or_ref })
              list t.used t.used,
          room,
        );
      };
      areas = refl;
      cr3 = refl;
      bytes = refl;
      others = λ k apart. ground (arith, apart);
      used = λ x in_use. ap (λ y. y.pages x) mem ∙ keeps x in_use;
      was_free = t.was_free;
      one = ap (λ y. y.pages p) mem ∙ referred_new n p t.no_ref;
      bit = less;
      entry =
          page_get-entered d m (tmp_va v r) (tmp_va v r) (pte_of p 3) pte user there ∙ ground arith;
      marked = bitmap_test-write_bit v.tmp_pages r r true ∙ ground arith;
      kept = allocated-Kept v r p n pte ready.area there clear;
      ne_zero = t.ne_zero;
      small = t.small;
    }
  where
    keeps : (x : ℕ) → IsUsed v x → (referred n p).pages x ≡ v.memory.pages x
    keeps x in_use =
        let apart : x ≢ p = λ e. absurd (ground (arith, t.was_free, in_use, e)) in
        ground (arith, apart, t.others x apart)
