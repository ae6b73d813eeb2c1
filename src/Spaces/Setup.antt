-- ===== src/Spaces/Setup.antt =====
-- `task_setup_vm`: the address space of a new task.
use makarna_x.Base.{
  ℕ, ◌≡◌, ◌≢◌, refl, ap, ◌∙◌, ◌⊎◌, inl, inr, Bool, ◌&&◌, none, some, ltb, leb, arith, if◌then◌else◌,
}
use makarna_x.DenemeFs.Store.{done, fails}
use makarna_x.Memory.Virtual.{Layout, pdx, enomem}
use makarna_x.Flow.{chain, chain_fails}
use makarna_x.Spaces.State.{Vm, Space, put_space}
use makarna_x.Spaces.Tmp.{tmp_page_alloc_map}
use makarna_x.Spaces.Segments.{link_pgtables, shared_tables}
use makarna_x.Spaces.TaskVm.{cleared, up_kernel, setup_tables, setup_dir, task_setup_vm}
use makarna_x.Spaces.Ready.{tmp_va, IsReady, IsReady-same}
use makarna_x.Spaces.TmpAlloc.{Allocated}
use makarna_x.Spaces.TmpRound.{tmp_page_alloc_map_lem}
use makarna_x.Spaces.Tables.{layout_of, at_self}
use makarna_x.Spaces.CopyPage.{Leaves}
use makarna_x.Spaces.CopyLoop.{Leaves-trans}

put_space-Leaves :
    (v : Vm) (k : ℕ) (s : Space)
    → IsReady v
    → k ≢ 0
    → s.info.layout ≡ layout_of v k
    → Leaves k v (put_space v k s)
put_space-Leaves v k s ready ne same = record {
  ready = IsReady-same v (put_space v k s) refl refl (ground (arith, ne)) ready.pages ready;
  areas = refl;
  cr3 = refl;
  others = λ j a b. ground (arith, b);
  layout = ap (λ x. x.info.layout) (at_self v k s) ∙ same;
  used = λ y h. (refl, refl);
}

Allocated-Leaves : (v u : Vm) (k p r : ℕ) → k ≢ 0 → Allocated v u p r → Leaves k v u
Allocated-Leaves v u k p r ne a = record {
  ready = a.ready;
  areas = a.areas;
  cr3 = a.cr3;
  others = λ j x y. a.others j x;
  layout = ap (λ x. x.info.layout) (a.others k ne);
  used = λ y h. (a.used y h, ap (λ f. f y) a.bytes);
}

-- The tables of the kernel that a task shares.
abbrev pub shared : Vm → Layout → ℕ → Bool
shared v l i = leb (pdx l.kernel_base) i && ltb i (pdx v.areas.stack_base)

-- The space of `t` has the shared tables of `c`, and no other; all else is as it was.
pub record SetUp (t c : ℕ) (v w : Vm) : Type 0 where
  pub leaves : Leaves t v w
  pub tables :
      (i : ℕ)
      → (w.spaces t).info.pgtables i
        ≡ (if shared v (layout_of v t) i then (v.spaces c).info.pgtables i else none)

-- The two ways `task_setup_vm` ends.
abbrev pub SetupResult : ℕ → ℕ → Vm → Type 0
SetupResult t c v =
    ((w : Vm) × (task_setup_vm t c v ≡ (done tt, w)) × SetUp t c v w)
    ⊎ ((w : Vm) × (task_setup_vm t c v ≡ (fails enomem, w)))

-- The last step.
linked : Vm → ℕ → ℕ → Vm
linked u t c =
    put_space u t
      (shared_tables (layout_of u t).kernel_base u.areas.stack_base (u.spaces c) (u.spaces t))

linked-SetUp :
    (v u : Vm) (t c : ℕ)
    → t ≢ 0
    → c ≢ 0
    → c ≢ t
    → Leaves t v u
    → ((i : ℕ) → (u.spaces t).info.pgtables i ≡ none)
    → SetUp t c v (linked u t c)
unfolding linked
linked-SetUp v u t c ne source apart l bare =
    let s =
      shared_tables (layout_of u t).kernel_base u.areas.stack_base (u.spaces c) (u.spaces t) in
    record {
      leaves = Leaves-trans t v u (linked u t c) l (put_space-Leaves u t s l.ready ne refl);
      tables = λ i.
          ap (λ x. x.info.pgtables i) (at_self u t s)
          ∙ ap (λ o. if shared u (layout_of u t) i then (u.spaces c).info.pgtables i else o)
              (bare i)
          ∙ ap (λ x. if shared u (layout_of u t) i then x.info.pgtables i else none)
              (l.others c source apart)
          ∙ ap
              (λ a.
                if leb (pdx (layout_of u t).kernel_base) i && ltb i (pdx a.stack_base)
                then (v.spaces c).info.pgtables i
                else none)
              l.areas
          ∙ ap (λ y. if shared v y i then (v.spaces c).info.pgtables i else none) l.layout;
    }

-- `task_setup_vm` never stops where the temporary pages are in order: it fails with -ENOMEM, or the new
-- task has the tables of the kernel up to its stack and no other, and nothing else has changed.
pub task_setup_vm_lem : (v : Vm) (t c : ℕ) → IsReady v → t ≢ 0 → c ≢ 0 → c ≢ t → SetupResult t c v
unfolding task_setup_vm link_pgtables linked
task_setup_vm_lem v t c ready ne source apart =
    let v1 = put_space v t (cleared (v.spaces t)) in
    let l1 = put_space-Leaves v t (cleared (v.spaces t)) ready ne refl in
    elim (tmp_page_alloc_map_lem v1 l1.ready) [
      | inr (w, run, refused) ↦
          inr (w, chain_fails (tmp_page_alloc_map 3) (setup_dir t c) v1 w enomem run)
      | inl (p, r, u, run, a, clear) ↦
          let s2 = up_kernel (record (u.spaces t) { pgdir = some (tmp_va v1 r) }) in
          let u2 = put_space u t s2 in
          let first = chain (tmp_page_alloc_map 3) (setup_dir t c) v1 u (p, tmp_va v1 r) run in
          let l2 = put_space-Leaves u t s2 a.ready ne refl in
          let upto =
            Leaves-trans t v u u2 (Leaves-trans t v v1 u l1 (Allocated-Leaves v1 u t p r ne a))
              l2 in
          elim (tmp_page_alloc_map_lem u2 l2.ready) [
            | inr (w, failed, refused) ↦ inr (
              w,
              first ∙ chain_fails (tmp_page_alloc_map 3) (setup_tables t c) u2 w enomem failed,
            )
            | inl (q, j, x, more, b, clear2) ↦
                let s3 = up_kernel (record (x.spaces t) { pgtables = some (tmp_va u2 j) }) in
                let x2 = put_space x t s3 in
                let l3 = put_space-Leaves x t s3 b.ready ne refl in
                inl (
                  linked x2 t c,
                  first
                      ∙ chain (tmp_page_alloc_map 3) (setup_tables t c) u2 x (q, tmp_va u2 j) more,
                  linked-SetUp v x2 t c ne source apart
                      (Leaves-trans t v x x2
                        (Leaves-trans t v u2 x upto (Allocated-Leaves u2 x t q j ne b)) l3)
                      (λ i.
                        ap (λ y. y.info.pgtables i) (at_self x t s3)
                        ∙ ap (λ y. y.info.pgtables i) (b.others t ne)
                        ∙ ap (λ y. y.info.pgtables i) (at_self u t s2)
                        ∙ ap (λ y. y.info.pgtables i) (a.others t ne)
                        ∙ ap (λ y. y.info.pgtables i) (at_self v t (cleared (v.spaces t)))),
                )
          ]
    ]
