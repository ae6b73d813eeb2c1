-- ===== src/Spaces/TmpFree.antt =====
-- `tmp_page_put` and `tmp_page_free` on an ordered state, and a failed `tmp_page_alloc_map`.
use makarna_x.Base.{
  ℕ, ◌+◌, ◌-◌, ◌*◌, ◌/◌, ◌%◌, ◌^◌, ◌<◌, ◌≤◌, ◌≡◌, sym, ap, ◌∙◌, inl, inr, true, false, some, ◌==◌,
  arith, Bool-cases, if◌then◌else◌, ltb, leb, subst, ◌&&◌,
}
use makarna_x.DenemeFs.Store.{Outcome, done}
use makarna_x.Memory.Pages.{Memory, refcount_dec}
use makarna_x.Memory.Virtual.{Pte, page_get, page_remove, no_pte}
use makarna_x.Flow.{continue, chain, pure, assert, modify, ◌>>◌, ◌>>=◌}
use makarna_x.Spaces.State.{Vm, bitmap_test, bitmap_reset, info_of, put_info, on, on_run}
use makarna_x.Spaces.Bitmap.{bitmap_test-write_bit}
use makarna_x.Spaces.Tmp.{tmp_page_put, tmp_page_free}
use makarna_x.Spaces.Entries.{in_user}
use makarna_x.Spaces.Leave.{
  emptied, page_remove_run, page_get-emptied, layout-emptied, memory-emptied,
}
use makarna_x.Spaces.Ready.{tmp_va, BitAgrees, TmpArea, HasFreeList, IsReady}
use makarna_x.Spaces.TmpAlloc.{in_kernel_tmp, page_of_bit}

-- The state with bit `r` cleared.
abbrev pub cleared_bit : Vm → ℕ → Vm
cleared_bit v r = record v { tmp_pages = bitmap_reset v.tmp_pages r }

bit_number :
    (base r : ℕ)
    → base + 4194304 ≤ 2 ^ 32
    → r < 1024
    → (base + r * 4096 + 2 ^ 32 - base) % 2 ^ 32 / 4096 ≡ r
bit_number base r room less = omega arith

pub tmp_page_put_run :
    (v : Vm) (r : ℕ)
    → v.areas.tmp_base + 4194304 ≤ 2 ^ 32
    → r < 1024
    → bitmap_test v.tmp_pages r ≡ true
    → tmp_page_put (tmp_va v r) v ≡ (done tt, cleared_bit v r)
unfolding tmp_page_put
tmp_page_put_run v r room less set =
    let after = λ (i : ℕ).
      (assert (bitmap_test v.tmp_pages i)
          >> modify (λ (u : Vm). record u { tmp_pages = bitmap_reset u.tmp_pages i }))
        v in
    ap after (bit_number v.areas.tmp_base r room less)
    ∙ ap
        (λ b.
          (assert b >> modify (λ (u : Vm). record u { tmp_pages = bitmap_reset u.tmp_pages r })) v)
        set

-- The state after the page of bit `r` was given back, its count now that of the memory `m`.
abbrev pub released : Vm → ℕ → Memory → Vm
released v r m =
    cleared_bit
      (put_info v 0
        (emptied (info_of v 0) m (tmp_va v r) (in_user (v.spaces 0).info.layout (tmp_va v r))))
      r

in_range :
    (v : Vm) (r : ℕ)
    → TmpArea v
    → r < 1024
    → (leb v.areas.tmp_base (tmp_va v r) && ltb (tmp_va v r) (v.spaces 0).info.layout.kernel_top)
      ≡ true
in_range v r a less =
    let low : v.areas.tmp_base ≤ tmp_va v r = omega arith in
    let high : tmp_va v r < (v.spaces 0).info.layout.kernel_top = omega (arith, a.high, less) in
    ground (arith, low, high)

pub tmp_page_free_run :
    (v : Vm) (r rc : ℕ) (pte : Pte) (m : Memory)
    → TmpArea v
    → r < 1024
    → bitmap_test v.tmp_pages r ≡ true
    → page_get (v.spaces 0).info (tmp_va v r) ≡ some pte
    → pte.present ≡ true
    → refcount_dec v.memory pte.page ≡ some (rc, m)
    → tmp_page_free (tmp_va v r) v ≡ (done rc, released v r m)
unfolding tmp_page_free page_get
tmp_page_free_run v r rc pte m area less set there present count =
    let va = tmp_va v r in
    let d = emptied (info_of v 0) m va (in_user (v.spaces 0).info.layout va) in
    let u = put_info v 0 d in
    let rest = λ (b : ℕ) (x : Vm). (tmp_page_put va >> pure b) x in
    ap (λ b. (assert b >> (on 0 (page_remove va) >>= rest)) v) (in_range v r area less)
    ∙ chain (on 0 (page_remove va)) rest v u rc (
        on_run 0 (page_remove va) v (done rc) d (
          page_remove_run (info_of v 0) va rc pte m there present count
            (λ h. in_kernel_tmp v r area less)))
    ∙ ap (λ (q : Outcome (Unit {0}) × Vm). continue (λ x. pure rc) q.0 q.1)
        (tmp_page_put_run u r area.room less set)

-- The state stays ordered.
pub released-IsReady :
    (v : Vm) (r : ℕ) (pte : Pte) (m : Memory)
    → IsReady v
    → r < 1024
    → page_get (v.spaces 0).info (tmp_va v r) ≡ some pte
    → HasFreeList m
    → IsReady (released v r m)
unfolding page_get
released-IsReady v r pte m ready less there list =
    let l = (v.spaces 0).info.layout in
    let user = in_user l (tmp_va v r) in
    let lay = layout-emptied (info_of v 0) m (tmp_va v r) user in
    record {
      area = record {
        whole = ready.area.whole;
        room = ready.area.room;
        low = subst (λ x. x.kernel_base ≤ v.areas.tmp_base) (sym lay) ready.area.low;
        high = subst (λ x. v.areas.tmp_base + 4194304 ≤ x.kernel_top) (sym lay) ready.area.high;
      };
      bits = λ s more. bits s more;
      pages = subst HasFreeList (sym (memory-emptied (info_of v 0) m (tmp_va v r) user)) list;
    }
  where
    bits : (s : ℕ) → s < 1024 → BitAgrees (released v r m) s
    bits s more =
        let user = in_user (v.spaces 0).info.layout (tmp_va v r) in
        let at = page_get-emptied (info_of v 0) m (tmp_va v r) (tmp_va v s) pte user there in
        let bit = bitmap_test-write_bit v.tmp_pages r s false in
        let numbers = page_of_bit v r s ready.area in
        let (old, here, agrees) = ready.bits s more in
        elim (Bool-cases (r == s)) [
          | inl same ↦ (
            no_pte,
            at
                ∙ ap (λ b. if b then some no_pte else page_get (v.spaces 0).info (tmp_va v s))
                    (numbers ∙ same),
            sym (bit ∙ ap (λ b. if b then false else bitmap_test v.tmp_pages s) same),
          )
          | inr apart ↦ (
            old,
            at
                ∙ ap (λ b. if b then some no_pte else page_get (v.spaces 0).info (tmp_va v s))
                    (numbers ∙ apart)
                ∙ here,
            agrees ∙ sym (bit ∙ ap (λ b. if b then false else bitmap_test v.tmp_pages s) apart),
          )
        ]
