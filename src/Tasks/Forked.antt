-- ===== src/Tasks/Forked.antt =====
-- `do_fork` (kernel/task.cpp) up to its call of `ipc_fork`: what it does with the address spaces.
use makarna_x.Base.{ℕ, ◌≡◌, refl, sym, ap, ◌∙◌, inl, inr, ◌⊎◌, Option, some, List, ◌∷◌}
use makarna_x.DenemeFs.Store.{Outcome, done, fails, stop}
use makarna_x.Memory.Pages.{mem_free}
use makarna_x.Memory.Virtual.{enomem}
use makarna_x.Flow.{
  Call, branch, branch_done, branch_fails, continue, chain, chain_fails, modify, ◌>>◌,
}
use makarna_x.Shm.State.{Shm, given}
use makarna_x.Spaces.State.{Vm, put_space}
use makarna_x.Spaces.TaskVm.{task_setup_vm}
use makarna_x.Tasks.State.{Kernel, in_vm, copy_task}
use makarna_x.Tasks.Fork.{
  copy_user, copy_counts, bad_fork_setup_vm, bad_fork_copy_vm_user, fork_parts, fork_user,
  fork_task, do_fork,
}
use makarna_x.Tasks.UserCopy.{CanFork, UserCopied}
use makarna_x.Tasks.UserFork.{fork_user_lem}

abbrev pub with_vm : Kernel → Vm → Kernel
with_vm s w = record s { shm = record s.shm { vm = w } }

-- The state once `kmalloc` has given `t`, the first of `t ∷ rest`, and the task has been copied to it.
abbrev pub copied : ℕ → List ℕ → Kernel → Kernel
copied t rest s = copy_task t (record s { shm = record s.shm { heap = rest } })

-- The address spaces then: that of `t` is the running task's.
abbrev pub spaces_copied : ℕ → Kernel → Vm
spaces_copied t s = put_space s.shm.vm t (s.shm.vm.spaces s.sched.curr)

-- How two steps, one after the other, end.
two_steps :
    (m k : Call Vm (Unit {0})) (s : Vm) (o : Outcome (Unit {0})) (u : Vm)
    → m s ≡ (o, u)
    → ((m s ≡ (done tt, u)) × ((m >> k) s ≡ k u))
      ⊎ ((n : ℕ) × (m s ≡ (fails n, u)) × ((m >> k) s ≡ (fails n, u)))
      ⊎ ((m >> k) s ≡ (stop, u))
two_steps m k s (done a) u e = inl (e, chain m (λ x. k) s u a e)
two_steps m k s (fails n) u e = inr (inl (n, e, chain_fails m (λ x. k) s u n e))
two_steps m k s stop u e =
    inr (inr (ap (λ (r : Outcome (Unit {0}) × Vm). continue (λ x. k) r.0 r.1) e))

in_vm_at :
    (f : Call Vm (Unit {0})) (s : Kernel) (o : Outcome (Unit {0})) (w : Vm)
    → f s.shm.vm ≡ (o, w)
    → in_vm f s ≡ (o, with_vm s w)
in_vm_at f s o w e = ap (λ (r : Outcome (Unit {0}) × Vm). (r.0, with_vm s r.1)) e

do_fork-fork_task :
    (t : ℕ) (rest : List ℕ) (s : Kernel)
    → s.shm.heap ≡ t ∷ rest
    → do_fork s ≡ fork_task (some t) (record s { shm = record s.shm { heap = rest } })
unfolding do_fork
do_fork-fork_task t rest s heap =
    let out : given s.shm s.shm.heap ≡ (done (some t), record s.shm { heap = rest }) =
      ap (given s.shm) heap in
    ap (λ (r : Outcome (Option ℕ) × Shm). continue fork_task r.0 (record s { shm = r.1 })) out

fork_task-setup :
    (t : ℕ) (rest : List ℕ) (s : Kernel)
    → fork_task (some t) (record s { shm = record s.shm { heap = rest } })
      ≡ branch
          (in_vm (task_setup_vm t s.sched.curr))
          (λ u. fork_user t (mem_free s.shm.vm.memory))
          (λ n. bad_fork_setup_vm t (mem_free s.shm.vm.memory))
          (copied t rest s)
fork_task-setup t rest s = refl

fork_user-copy :
    (t before : ℕ) (s : Kernel)
    → fork_user t before s
      ≡ branch
          (in_vm (copy_user t s.sched.curr))
          (λ u.
            in_vm (modify (copy_counts t s.sched.curr))
            >> fork_parts t before (mem_free s.shm.vm.memory))
          (λ n. bad_fork_copy_vm_user t (mem_free s.shm.vm.memory) before)
          s
fork_user-copy t before s = refl

-- What `do_fork` goes on with, once it has made the address space of the child `t`.
abbrev pub ForkResult : ℕ → List ℕ → Kernel → Type 0
ForkResult t rest s =
    let c = s.sched.curr in
    let v = spaces_copied t s in
    let before = mem_free s.shm.vm.memory in
    ((w : Vm) × (task_setup_vm t c v ≡ (fails enomem, w))
      × (do_fork s ≡ bad_fork_setup_vm t before (with_vm (copied t rest s) w)))
    ⊎ ((u : Vm) × (w : Vm) × (task_setup_vm t c v ≡ (done tt, u))
        × (copy_user t c u ≡ (fails enomem, w))
        × (do_fork s
            ≡ bad_fork_copy_vm_user t (mem_free u.memory) before (with_vm (copied t rest s) w)))
    ⊎ ((u : Vm) × (w : Vm) × (task_setup_vm t c v ≡ (done tt, u))
        × UserCopied t c v w
        × (do_fork s
            ≡ fork_parts t before (mem_free u.memory)
                (with_vm (copied t rest s) (copy_counts t c w))))

module _ (t : ℕ) (rest : List ℕ) (s : Kernel) (heap : s.shm.heap ≡ t ∷ rest) where
  do_fork_begins :
      do_fork s
      ≡ branch
          (in_vm (task_setup_vm t s.sched.curr))
          (λ u. fork_user t (mem_free s.shm.vm.memory))
          (λ n. bad_fork_setup_vm t (mem_free s.shm.vm.memory))
          (copied t rest s)
  do_fork_begins = do_fork-fork_task t rest s heap ∙ fork_task-setup t rest s

  do_fork-no_setup :
      (n : ℕ) (w : Vm)
      → task_setup_vm t s.sched.curr (spaces_copied t s) ≡ (fails n, w)
      → do_fork s ≡ bad_fork_setup_vm t (mem_free s.shm.vm.memory) (with_vm (copied t rest s) w)
  do_fork-no_setup n w e =
      do_fork_begins
      ∙ branch_fails (in_vm (task_setup_vm t s.sched.curr))
          (λ u. fork_user t (mem_free s.shm.vm.memory))
          (λ n. bad_fork_setup_vm t (mem_free s.shm.vm.memory)) (copied t rest s)
          (with_vm (copied t rest s) w) n
          (in_vm_at (task_setup_vm t s.sched.curr) (copied t rest s) (fails n) w e)

  do_fork-fork_user :
      (u : Vm)
      → task_setup_vm t s.sched.curr (spaces_copied t s) ≡ (done tt, u)
      → do_fork s ≡ fork_user t (mem_free s.shm.vm.memory) (with_vm (copied t rest s) u)
  do_fork-fork_user u e =
      do_fork_begins
      ∙ branch_done (in_vm (task_setup_vm t s.sched.curr))
          (λ u. fork_user t (mem_free s.shm.vm.memory))
          (λ n. bad_fork_setup_vm t (mem_free s.shm.vm.memory)) (copied t rest s)
          (with_vm (copied t rest s) u) tt
          (in_vm_at (task_setup_vm t s.sched.curr) (copied t rest s) (done tt) u e)

fork_user_fails :
    (t before n : ℕ) (s : Kernel) (w : Vm)
    → copy_user t s.sched.curr s.shm.vm ≡ (fails n, w)
    → fork_user t before s ≡ bad_fork_copy_vm_user t (mem_free s.shm.vm.memory) before (with_vm s w)
fork_user_fails t before n s w e =
    fork_user-copy t before s
    ∙ branch_fails (in_vm (copy_user t s.sched.curr))
        (λ u.
          in_vm (modify (copy_counts t s.sched.curr))
          >> fork_parts t before (mem_free s.shm.vm.memory))
        (λ n. bad_fork_copy_vm_user t (mem_free s.shm.vm.memory) before) s (with_vm s w) n
        (in_vm_at (copy_user t s.sched.curr) s (fails n) w e)

fork_user_goes_on :
    (t before : ℕ) (s : Kernel) (w : Vm)
    → copy_user t s.sched.curr s.shm.vm ≡ (done tt, w)
    → fork_user t before s
      ≡ fork_parts t before (mem_free s.shm.vm.memory) (with_vm s (copy_counts t s.sched.curr w))
fork_user_goes_on t before s w e =
    fork_user-copy t before s
    ∙ branch_done (in_vm (copy_user t s.sched.curr))
        (λ u.
          in_vm (modify (copy_counts t s.sched.curr))
          >> fork_parts t before (mem_free s.shm.vm.memory))
        (λ n. bad_fork_copy_vm_user t (mem_free s.shm.vm.memory) before) s (with_vm s w) tt
        (in_vm_at (copy_user t s.sched.curr) s (done tt) w e)

-- `do_fork` up to its call of `ipc_fork`. `kmalloc` gives the address `t`, which is not the running task `c`;
-- neither is the kernel's, and `cr3` is that of `c`. The temporary pages agree with their bitmap and the
-- free pages form a list; the user's area and that of shared memory stand on page boundaries and in
-- order, with no table of the kernel's; every page that `c` shows is in use, with bit 0 in its
-- permission. Where `task_setup_vm` fails it goes on at its label bad_fork_setup_vm, and where the
-- copy of the user's pages fails, at bad_fork_copy_vm_user; both fail only with -ENOMEM. Otherwise it
-- goes on at `ipc_fork` in a state in which each user address below and above the area of shared memory
-- shows, in `t`, nothing where it shows nothing in `c`, and else a page of its own with the same bytes
-- and the three low bits of the permission; the area of shared memory shows nothing yet. The address
-- spaces of all other tasks but the kernel's, and all pages in use, are then as before.
pub do_fork_lem :
    (t : ℕ) (rest : List ℕ) (s : Kernel)
    → s.shm.heap ≡ t ∷ rest
    → CanFork t s.sched.curr (spaces_copied t s)
    → ForkResult t rest s
do_fork_lem t rest s heap can =
    let c = s.sched.curr in
    let v = spaces_copied t s in
    let setup = task_setup_vm t c v in
    elim (fork_user_lem t c v can) [
      | inl (w, run, good) ↦
          elim (two_steps (task_setup_vm t c) (copy_user t c) v setup.0 setup.1 refl) [
            | inl (first, second) ↦ inr (
                inr (
                  setup.1,
                  w,
                  first,
                  good,
                  do_fork-fork_user t rest s heap setup.1 first
                      ∙ fork_user_goes_on t (mem_free s.shm.vm.memory)
                          (with_vm (copied t rest s) setup.1) w (sym second ∙ run),
                ))
            | inr (inl (n, first, second)) ↦ absurd (cc (sym run ∙ second))
            | inr (inr second) ↦ absurd (cc (sym run ∙ second))
          ]
      | inr (w, run) ↦ elim (two_steps (task_setup_vm t c) (copy_user t c) v setup.0 setup.1 refl) [
        | inl (first, second) ↦ inr (
            inl (
              setup.1,
              w,
              first,
              sym second ∙ run,
              do_fork-fork_user t rest s heap setup.1 first
                  ∙ fork_user_fails t (mem_free s.shm.vm.memory) enomem
                      (with_vm (copied t rest s) setup.1) w (sym second ∙ run),
            ))
        | inr (inl (n, first, second)) ↦
            let failed : setup ≡ (fails enomem, w) = first ∙ sym second ∙ run in
            inl (w, failed, do_fork-no_setup t rest s heap enomem w failed)
        | inr (inr second) ↦ absurd (cc (sym run ∙ second))
      ]
    ]
