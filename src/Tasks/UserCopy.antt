-- ===== src/Tasks/UserCopy.antt =====
-- The user's area of a new task: `task_setup_vm` and the two calls of `copy_pages` in `do_fork`.
use makarna_x.Base.{
  ℕ, ◌-◌, ◌*◌, ◌/◌, ◌%◌, ◌<◌, ◌≤◌, ◌≡◌, ◌≢◌, sym, ap, ◌∙◌, ◌⊎◌, true, false, none, some, arith,
  if◌then◌else◌, subst,
}
use makarna_x.DenemeFs.Store.{done, fails}
use makarna_x.Memory.Virtual.{Layout, Pte, pdx, page_get, enomem}
use makarna_x.Flow.{◌>>◌}
use makarna_x.Spaces.State.{Vm}
use makarna_x.Spaces.Segments.{present_pte}
use makarna_x.Spaces.TaskVm.{task_setup_vm}
use makarna_x.Spaces.Entries.{in_user}
use makarna_x.Spaces.Ready.{IsReady, IsUsed}
use makarna_x.Spaces.Tables.{shows, layout_of, page_get_no_table}
use makarna_x.Spaces.CopyPage.{Leaves}
use makarna_x.Spaces.CopyLoop.{
  CopyOf, InRange, CanCopy, RangeCopied, Leaves-trans, CopyOf-before, CopyOf-later,
}
use makarna_x.Spaces.Setup.{SetUp, shared}
use makarna_x.Tasks.Fork.{copy_user}

-- The areas stand on page boundaries and in order, and the user's has no table of the kernel's.
pub record UserAreas (v : Vm) (l : Layout) : Type 0 where
  pub base : l.user_base % 4096 ≡ 0
  pub from : v.areas.shared_base % 4096 ≡ 0
  pub upto : v.areas.shared_top % 4096 ≡ 0
  pub top : l.user_top % 4096 ≡ 0
  pub first : l.user_base ≤ v.areas.shared_base
  pub second : v.areas.shared_base ≤ v.areas.shared_top
  pub third : v.areas.shared_top ≤ l.user_top
  pub own : (x : ℕ) → l.user_base ≤ x → x < l.user_top → shared v l (pdx x) ≡ false

-- The task `c`, which runs, can be copied to `t`.
pub record CanFork (t c : ℕ) (v : Vm) : Type 0 where
  pub ready : IsReady v
  pub task : t ≢ 0
  pub source : c ≢ 0
  pub apart : c ≢ t
  pub current : v.cr3 ≡ c
  pub layout : layout_of v t ≡ layout_of v c
  pub areas : UserAreas v (layout_of v c)
  pub in_use : (x : ℕ) (pte : Pte) → shows v c x ≡ some pte → IsUsed v pte.page × (pte.perm % 2 ≡ 1)

-- The new task has copies of the user's pages, and nothing where shared memory may be.
pub record UserCopied (t c : ℕ) (v w : Vm) : Type 0 where
  pub leaves : Leaves t v w
  pub below :
      (x : ℕ)
      → (layout_of v c).user_base ≤ x
      → x < v.areas.shared_base
      → CopyOf t v w x (shows v c x)
  pub above :
      (x : ℕ) → v.areas.shared_top ≤ x → x < (layout_of v c).user_top → CopyOf t v w x (shows v c x)
  pub between : (x : ℕ) → v.areas.shared_base ≤ x → x < v.areas.shared_top → shows w t x ≡ none

in_range : (a b x : ℕ) → a % 4096 ≡ 0 → b % 4096 ≡ 0 → a ≤ x → x < b → InRange a ((b - a) / 4096) x
in_range a b x e f low high = (omega arith, omega (arith, e, f, low, high))

pub of_range :
    (a b x : ℕ)
    → a % 4096 ≡ 0
    → b % 4096 ≡ 0
    → a ≤ b
    → InRange a ((b - a) / 4096) x
    → (a ≤ x) × (x < b)
of_range a b x e f less (low, high) = (omega (arith, e, low), omega (arith, e, f, less, high))

in_user_lem :
    (l : Layout) (x : ℕ)
    → l.user_base % 4096 ≡ 0
    → l.user_base ≤ x
    → x < l.user_top
    → in_user l x ≡ true
in_user_lem l x e low high =
    let a : l.user_base ≤ x / 4096 * 4096 = omega (arith, e, low) in
    let b : x / 4096 * 4096 < l.user_top = omega (arith, high) in ground (arith, a, b)

pub bare :
    (t c x : ℕ) (v u : Vm)
    → SetUp t c v u
    → shared v (layout_of v t) (pdx x) ≡ false
    → shows u t x ≡ none
bare t c x v u s own = ap present_pte (
    page_get_no_table (u.spaces t).info x
      (s.tables (pdx x) ∙ ap (λ b. if b then (v.spaces c).info.pgtables (pdx x) else none) own))

-- A part of the user's area, in a state `u` reached from `v`.
pub part :
    (a b t c : ℕ) (v u : Vm)
    → CanFork t c v
    → Leaves t v u
    → a % 4096 ≡ 0
    → b % 4096 ≡ 0
    → a ≤ b
    → (layout_of v c).user_base ≤ a
    → b ≤ (layout_of v c).user_top
    → ((x : ℕ) → a ≤ x → x < b → shows u t x ≡ none)
    → CanCopy ((b - a) / 4096) t c a u
part a b t c v u f l ea eb less low high empty =
    let space = l.others c f.source f.apart in
    record {
      ready = l.ready;
      task = f.task;
      source = f.source;
      apart = f.apart;
      in_use = λ x pte h.
          let (used, odd) =
            f.in_use x pte (sym (ap (λ s. present_pte (page_get s.info x)) space) ∙ h) in
          (ap (λ y. y.free) (l.used pte.page used).0 ∙ used, odd);
      empty = λ x range. let (from, upto) = of_range a b x ea eb less range in empty x from upto;
      area = λ x range off.
          let (from, upto) = of_range a b x ea eb less range in
          let user =
            in_user_lem (layout_of v c) x f.areas.base (omega (arith, low, from))
              (omega (arith, high, upto)) in
          let same = ap (λ y. in_user y x) (l.layout ∙ f.layout) in
          absurd (cc (sym off ∙ same ∙ user));
    }

-- The two ways the user's area of a new task is made.
abbrev pub UserResult : ℕ → ℕ → Vm → Type 0
UserResult t c v =
    ((w : Vm) × ((task_setup_vm t c >> copy_user t c) v ≡ (done tt, w)) × UserCopied t c v w)
    ⊎ ((w : Vm) × ((task_setup_vm t c >> copy_user t c) v ≡ (fails enomem, w)))

pub UserCopied-intro :
    (t c : ℕ) (v u w z : Vm)
    → CanFork t c v
    → SetUp t c v u
    → RangeCopied
        ((v.areas.shared_base - (layout_of v c).user_base) / 4096)
        t
        c
        (layout_of v c).user_base
        u
        w
    → RangeCopied
        (((layout_of v c).user_top - v.areas.shared_top) / 4096)
        t
        c
        v.areas.shared_top
        w
        z
    → UserCopied t c v z
UserCopied-intro t c v u w z f s first second =
    let a = f.areas in
    let l = layout_of v c in
    let su = s.leaves in
    let sw = Leaves-trans t v u w su first.leaves in
    record {
      leaves = Leaves-trans t v w z sw second.leaves;
      below = λ x low high. early x low high;
      above = λ x low high.
          CopyOf-before t x v w z (shows v c x) sw (λ pte e. (f.in_use x pte e).0)
            (subst (CopyOf t w z x)
              (ap (λ y. present_pte (page_get y.info x)) (sw.others c f.source f.apart))
              (second.copies x (in_range v.areas.shared_top l.user_top x a.upto a.top low high)));
      between = λ x low high.
          let out1 : ¬ (InRange l.user_base ((v.areas.shared_base - l.user_base) / 4096) x) = λ r.
            absurd (
              omega (
                arith,
                low,
                (of_range l.user_base v.areas.shared_base x a.base a.from a.first r).1,
              )) in
          second.rest x (past x high)
          ∙ first.rest x out1
          ∙ bare t c x v u s (
              ap (λ y. shared v y (pdx x)) f.layout
              ∙ a.own x (omega (arith, low, a.first)) (omega (arith, high, a.third)));
    }
  where
    past :
        (x : ℕ)
        → x < v.areas.shared_top
        → ¬ (InRange v.areas.shared_top (((layout_of v c).user_top - v.areas.shared_top) / 4096) x)
    past x high r = absurd (
        omega (
          arith,
          high,
          (of_range v.areas.shared_top (layout_of v c).user_top x f.areas.upto f.areas.top
              f.areas.third r).0,
        ))

    early :
        (x : ℕ)
        → (layout_of v c).user_base ≤ x
        → x < v.areas.shared_base
        → CopyOf t v z x (shows v c x)
    early x low high =
        let l = layout_of v c in
        CopyOf-later t x v w z (shows v c x) second.leaves
          (second.rest x (past x (omega (arith, high, f.areas.second))))
          (CopyOf-before t x v u w (shows v c x) s.leaves (λ pte e. (f.in_use x pte e).0)
            (subst (CopyOf t u w x)
              (ap (λ y. present_pte (page_get y.info x)) (s.leaves.others c f.source f.apart))
              (first.copies x
                (in_range l.user_base v.areas.shared_base x f.areas.base f.areas.from low high))))
