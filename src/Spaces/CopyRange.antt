-- ===== src/Spaces/CopyRange.antt =====
-- `copy_pages` of kernel/memory/virtual.cpp on a whole range.
use makarna_x.Base.{
  ℕ, zero, suc, ◌+◌, ◌-◌, ◌/◌, ◌≡◌, ◌≢◌, refl, sym, ap, ◌∙◌, ◌⊎◌, inl, inr, true, Option, none,
  some, ◌==◌, arith, Bool-cases, subst,
}
use makarna_x.DenemeFs.Store.{done, fails}
use makarna_x.Memory.Virtual.{Pte, page_get, enomem}
use makarna_x.Flow.{chain, chain_fails, assert, ◌>>◌}
use makarna_x.Spaces.State.{Vm}
use makarna_x.Spaces.Segments.{present_pte, copy_entry, copy_loop, copy_pages}
use makarna_x.Spaces.Tables.{shows}
use makarna_x.Spaces.CopyPage.{Leaves}
use makarna_x.Spaces.CopyLoop.{
  CopyOf, InRange, CanCopy, RangeCopied, Leaves-refl, Leaves-trans, same_shows, copy_step,
  CopyOf-later, CopyOf-before, CanCopy-later,
}

split_range : (i n x : ℕ) → InRange i (suc n) x → (x / 4096 ≡ i / 4096) ⊎ (InRange (i + 4096) n x)
split_range i n x (a, b) = elim (Bool-cases (x / 4096 == i / 4096)) [
  | inl here ↦ inl (ground (arith, here))
  | inr later ↦
      let apart : x / 4096 ≢ i / 4096 = ground (arith, later) in
      inr (omega (arith, a, apart), omega (arith, b))
]

CopyOf-address :
    (k x i : ℕ) (v u : Vm) (o : Option Pte)
    → shows u k x ≡ shows u k i
    → CopyOf k v u i o
    → CopyOf k v u x o
CopyOf-address k x i v u none e h = e ∙ h
CopyOf-address k x i v u (some pte) e (n, at, apart, bytes, used) = (n, e ∙ at, apart, bytes, used)

RangeCopied-step :
    (n k src i : ℕ) (v u w : Vm)
    → CanCopy (suc n) k src i v
    → Leaves k v u
    → CopyOf k v u i (shows v src i)
    → ((x : ℕ) → x / 4096 ≢ i / 4096 → shows u k x ≡ shows v k x)
    → RangeCopied n k src (i + 4096) u w
    → RangeCopied (suc n) k src i v w
RangeCopied-step n k src i v u w c l here rest r = record {
  leaves = Leaves-trans k v u w l r.leaves;
  copies = λ x range. elim (split_range i n x range) [
    | inl first ↦ copied_here x first
    | inr later ↦
        CopyOf-before k x v u w (shows v src x) l (λ pte e. (c.in_use x pte e).0)
          (subst (CopyOf k u w x) (ap (λ s. present_pte (page_get s.info x)) space)
            (r.copies x later))
  ];
  rest = λ x out.
      let away : x / 4096 ≢ i / 4096 = λ e. out (omega (arith, e), omega (arith, e)) in
      let past : ¬ (InRange (i + 4096) n x) = λ (a, b). out (omega (arith, a), omega (arith, b)) in
      r.rest x past ∙ rest x away;
}
  where
    space : u.spaces src ≡ v.spaces src
    space = l.others src c.source c.apart

    copied_here : (x : ℕ) → x / 4096 ≡ i / 4096 → CopyOf k v w x (shows v src x)
    copied_here x e =
        let past : ¬ (InRange (i + 4096) n x) = λ (a, b). absurd (omega (arith, a, e)) in
        CopyOf-later k x v u w (shows v src x) r.leaves (r.rest x past) (
          subst (CopyOf k v u x) (same_shows v src i x (sym e))
            (CopyOf-address k x i v u (shows v src i) (same_shows u k x i e) here))

abbrev LoopResult : ℕ → ℕ → ℕ → ℕ → Vm → Type 0
LoopResult n k src i v =
    ((w : Vm) × (copy_loop n k src i v ≡ (done tt, w)) × RangeCopied n k src i v w)
    ⊎ ((w : Vm) × (copy_loop n k src i v ≡ (fails enomem, w)))

copy_loop_lem : (n k src i : ℕ) (v : Vm) → CanCopy n k src i v → LoopResult n k src i v
unfolding copy_loop
copy_loop_lem zero k src i v c = inl (
  v,
  refl,
  record {
    leaves = Leaves-refl k v c.ready;
    copies = λ x range. absurd (omega (arith, range.0, range.1));
    rest = λ x out. refl;
  },
)
copy_loop_lem (suc n) k src i v c =
    elim (copy_step k src i v (shows v src i) c.ready c.task (c.empty i (omega arith, omega arith))
      (c.area i (omega arith, omega arith)) (c.in_use i)) [
        | inr (w, run) ↦ inr (
          w,
          chain_fails (copy_entry k i (shows v src i)) (λ x. copy_loop n k src (i + 4096)) v w
              enomem run,
        )
        | inl (u, run, l, here, rest) ↦
            let first =
              chain (copy_entry k i (shows v src i)) (λ x. copy_loop n k src (i + 4096)) v u tt
                run in
            elim (copy_loop_lem n k src (i + 4096) u (CanCopy-later n k src i v u c l rest)) [
              | inr (w, failed) ↦ inr (w, first ∙ failed)
              | inl (w, copied, r) ↦
                  inl (w, first ∙ copied, RangeCopied-step n k src i v u w c l here rest r)
            ]
      ]

-- `copy_pages` from the running task, into a directory that shows nothing in the range and where the
-- temporary pages are in order, never stops. Either it fails with -ENOMEM, or it returns 0 and then, at
-- each address of the range, the new directory shows nothing where the source does, and else a page
-- of its own with the same bytes and the three low bits of the permission. Outside the range, in every
-- other task, and in the pages in use before, nothing has changed.
pub copy_pages_lem :
    (v : Vm) (k src start end : ℕ)
    → src ≡ v.cr3
    → CanCopy ((end - start) / 4096) k src start v
    → ((w : Vm) × (copy_pages k src start end v ≡ (done tt, w))
        × RangeCopied ((end - start) / 4096) k src start v w)
      ⊎ ((w : Vm) × (copy_pages k src start end v ≡ (fails enomem, w)))
unfolding copy_pages
copy_pages_lem v k src start end current c =
    let n = (end - start) / 4096 in
    let loaded : (src == v.cr3) ≡ true = ground (arith, current) in
    let first = ap (λ b. (assert b >> copy_loop n k src start) v) loaded in
    elim (copy_loop_lem n k src start v c) [
      | inl (w, run, r) ↦ inl (w, first ∙ run, r)
      | inr (w, run) ↦ inr (w, first ∙ run)
    ]
