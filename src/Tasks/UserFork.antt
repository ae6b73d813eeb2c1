-- ===== src/Tasks/UserFork.antt =====
-- The part of `do_fork` (kernel/task.cpp) that makes the address space of the child.
use makarna_x.Base.{ℕ, ◌<◌, ◌≤◌, ◌≡◌, sym, ap, ◌∙◌, inl, inr, arith}
use makarna_x.Memory.Virtual.{Layout, pdx, enomem}
use makarna_x.Flow.{Call, chain, chain_fails, ◌>>◌}
use makarna_x.Spaces.State.{Vm, Areas}
use makarna_x.Spaces.Segments.{copy_pages}
use makarna_x.Spaces.TaskVm.{task_setup_vm}
use makarna_x.Spaces.Tables.{layout_of}
use makarna_x.Spaces.CopyLoop.{Leaves-trans}
use makarna_x.Spaces.CopyRange.{copy_pages_lem}
use makarna_x.Spaces.Setup.{shared, task_setup_vm_lem}
use makarna_x.Tasks.Fork.{copy_user}
use makarna_x.Tasks.UserCopy.{CanFork, UserResult, UserCopied-intro, bare, part, of_range}

abbrev copy_two : ℕ → ℕ → Layout → Areas → Call Vm (Unit {0})
copy_two t c l a =
    copy_pages t c l.user_base a.shared_base >> copy_pages t c a.shared_top l.user_top

copy_user-two :
    (t c : ℕ) (v u : Vm)
    → layout_of u c ≡ layout_of v c
    → u.areas ≡ v.areas
    → copy_user t c u ≡ copy_two t c (layout_of v c) v.areas u
unfolding copy_user
copy_user-two t c v u l a =
    ap (λ x. copy_two t c x u.areas u) l ∙ ap (λ x. copy_two t c (layout_of v c) x u) a

-- `task_setup_vm` and then the two copies, when the task `c` runs and can be copied to `t`: either one of them
-- fails with -ENOMEM, or each user address below and above the area of shared memory shows, in the new
-- task, nothing where it shows nothing in `c`, and else a page of its own with the same bytes and the
-- three low bits of the permission; the area of shared memory shows nothing. The address spaces of all
-- other tasks but the kernel's, and all pages in use, are as before. They never stop.
pub fork_user_lem : (t c : ℕ) (v : Vm) → CanFork t c v → UserResult t c v
fork_user_lem t c v f = elim (task_setup_vm_lem v t c f.ready f.task f.source f.apart) [
  | inr (w, run) ↦ inr (w, chain_fails (task_setup_vm t c) (λ x. copy_user t c) v w enomem run)
  | inl (u, run, s) ↦
      let l = layout_of v c in
      let a = v.areas in
      let space = s.leaves.others c f.source f.apart in
      let begin =
        chain (task_setup_vm t c) (λ x. copy_user t c) v u tt run
        ∙ copy_user-two t c v u (ap (λ y. y.info.layout) space) s.leaves.areas in
      let empty = λ (x : ℕ) (low : l.user_base ≤ x) (high : x < l.user_top).
        bare t c x v u s (ap (λ y. shared v y (pdx x)) f.layout ∙ f.areas.own x low high) in
      elim (copy_pages_lem u t c l.user_base a.shared_base (sym (s.leaves.cr3 ∙ f.current)) (
        part l.user_base a.shared_base t c v u f s.leaves f.areas.base f.areas.from f.areas.first
          (omega arith) (omega (arith, f.areas.second, f.areas.third))
          (λ x low high. empty x low (omega (arith, high, f.areas.second, f.areas.third))))) [
            | inr (w, failed) ↦ inr (
              w,
              begin
                  ∙ chain_fails (copy_pages t c l.user_base a.shared_base)
                      (λ x. copy_pages t c a.shared_top l.user_top) u w enomem failed,
            )
            | inl (w, copied, first) ↦
                let upto =
                  begin
                  ∙ chain (copy_pages t c l.user_base a.shared_base)
                      (λ x. copy_pages t c a.shared_top l.user_top) u w tt copied in
                let sw = Leaves-trans t v u w s.leaves first.leaves in
                elim (copy_pages_lem w t c a.shared_top l.user_top (sym (sw.cr3 ∙ f.current)) (
                  part a.shared_top l.user_top t c v w f sw f.areas.upto f.areas.top f.areas.third
                    (omega (arith, f.areas.first, f.areas.second)) (omega arith)
                    (λ x low high.
                      first.rest x (λ r. absurd (
                        omega (
                          arith,
                          low,
                          f.areas.second,
                          (of_range l.user_base a.shared_base x f.areas.base f.areas.from
                              f.areas.first r).1,
                        )))
                      ∙ empty x (omega (arith, low, f.areas.first, f.areas.second)) high))) [
                        | inr (z, failed) ↦ inr (z, upto ∙ failed)
                        | inl (z, rest, second) ↦
                            inl (z, upto ∙ rest, UserCopied-intro t c v u w z f s first second)
                      ]
          ]
]
