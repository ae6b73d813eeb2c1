-- ===== src/Sched/Runnable.antt =====
-- The operations of Sched/Queues.antt on consistent lists: adding, removing, sleeping, waking.
use makarna_x.Base.{
  ℕ, ◌≡◌, ◌≢◌, refl, none, some, List, [], ◌∷◌, ◌++◌, if◌then◌else◌, arith, without,
}
use makarna_x.Sched.State.{
  TaskState, running, uninterruptible, ListId, runnable, list_eq, Sched, put_task, push_back,
  pop_front,
}
use makarna_x.Sched.Queues.{
  add_to_runnable_list, remove_from_runnable_list, sleep_uninterruptible, wakeup_interruptible,
  wakeup_uninterruptible,
}
use makarna_x.Sched.Consistent.{
  Consistent, Consistent-put_task, inserted, insert_between_lem, Consistent-inserted, erased,
  erase_lem, Consistent-erased, list_eq_iff,
}
use mathlib.Core.List.{append-nil}

-- The state after `t` has been put at the end of the queue of its priority.
abbrev pub readied : Sched → ℕ → Sched
readied s t =
    let s1 = put_task s t (record (s.tasks t) { state = running }) in
    inserted s1 (runnable (s.tasks t).priority) (s.lists (runnable (s.tasks t).priority)) [] t

pub add_to_runnable_list_lem :
    (s : Sched) (t : ℕ) → (s.tasks t).on ≡ none → add_to_runnable_list s t ≡ some (readied s t)
unfolding add_to_runnable_list push_back
add_to_runnable_list_lem s t h = ground (
  arith,
  insert_between_lem (put_task s t (record (s.tasks t) { state = running }))
      (runnable (s.tasks t).priority) (s.lists (runnable (s.tasks t).priority)) [] t,
)

pub Consistent-readied :
    (s : Sched) (t : ℕ) → Consistent s → (s.tasks t).on ≡ none → Consistent (readied s t)
Consistent-readied s t c h =
    let s1 = put_task s t (record (s.tasks t) { state = running }) in
    let q = runnable (s.tasks t).priority in
    Consistent-inserted s1 q (s.lists q) [] t
      (Consistent-put_task s t (record (s.tasks t) { state = running }) c refl
        (λ p e. ground arith))
      (append-nil (s.lists q)) (ground arith) (λ p e. ground arith)

-- The first task of the list `q` is taken out.
abbrev pub woken : Sched → ListId → ℕ → Sched
woken s q t = readied (erased s q t) t

pub wakeup_woken :
    (s : Sched) (q : ListId) (t : ℕ) (ts : List ℕ)
    → Consistent s
    → s.lists q ≡ t ∷ ts
    → (wakeup_interruptible s q ≡ some (woken s q t))
      × (wakeup_uninterruptible s q ≡ some (woken s q t))
unfolding wakeup_interruptible wakeup_uninterruptible pop_front
wakeup_woken s q t ts c h = ground (
  arith,
  erase_lem s q t (c.listed q t (rw h (ground arith))),
  add_to_runnable_list_lem (erased s q t) t (ground arith),
)

-- Waking a list that holds a task wakes the one that has waited longest: it leaves the list, the
-- others stay in their order, and it goes to the end of the queue of its priority, running. Every
-- other list is as before, and the lists stay consistent.
pub wakeup_first :
    (s : Sched) (q : ListId) (t : ℕ) (ts : List ℕ)
    → Consistent s
    → s.lists q ≡ t ∷ ts
    → q ≢ runnable (s.tasks t).priority
    → let ready = runnable (s.tasks t).priority in
      (s' : Sched) × (wakeup_interruptible s q ≡ some s')
      × (wakeup_uninterruptible s q ≡ some s')
      × ((r : ListId)
          → s'.lists r ≡ (
              if list_eq q r
              then ts
              else (if list_eq ready r then s.lists ready ++ t ∷ [] else s.lists r)))
      × ((s'.tasks t).state ≡ running)
      × (s'.curr ≡ s.curr)
      × Consistent s'
wakeup_first s q t ts c h differ =
    let here = c.listed q t (rw h (ground arith)) in
    let (a, b) = wakeup_woken s q t ts c h in
    let ready = runnable (s.tasks t).priority in
    (
      woken s q t,
      a,
      b,
      (λ r. ground (arith, h, list_eq_iff q r, list_eq_iff ready r, list_eq_iff q ready)),
      ground arith,
      refl,
      Consistent-readied (erased s q t) t (Consistent-erased s q t c here) (ground arith),
    )

-- The state after the running task has left its queue.
abbrev pub removed : Sched → ℕ → Sched
removed s t = erased s (runnable (s.tasks t).priority) t

pub remove_from_runnable_list_lem :
    (s : Sched) (t : ℕ)
    → (s.tasks t).on ≡ some (runnable (s.tasks t).priority)
    → (s.tasks t).state ≡ running
    → remove_from_runnable_list s t ≡ some (removed s t)
unfolding remove_from_runnable_list
remove_from_runnable_list_lem s t h k = ground (
  arith,
  list_eq_iff (runnable (s.tasks t).priority) (runnable (s.tasks t).priority),
  erase_lem s (runnable (s.tasks t).priority) t h,
)

-- The state after the running task has gone to sleep in `q`.
abbrev pub asleep : Sched → ListId → TaskState → Sched
asleep s q state =
    let s1 = removed s s.curr in
    let s2 = put_task s1 s.curr (record (s1.tasks s.curr) { state = state }) in
    inserted s2 q (s1.lists q) [] s.curr

-- The running task stands in the queue of its priority.
pub record IsCurrent (s : Sched) : Type 0 where
  pub queued : (s.tasks s.curr).on ≡ some (runnable (s.tasks s.curr).priority)
  pub active : (s.tasks s.curr).state ≡ running

sleep_uninterruptible_lem :
    (s : Sched) (q : ListId)
    → IsCurrent s
    → sleep_uninterruptible s q ≡ some (asleep s q uninterruptible)
unfolding sleep_uninterruptible push_back
sleep_uninterruptible_lem s q c =
    let s1 = removed s s.curr in
    let s2 = put_task s1 s.curr (record (s1.tasks s.curr) { state = uninterruptible }) in
    ground (
      arith,
      c.queued,
      c.active,
      remove_from_runnable_list_lem s s.curr c.queued c.active,
      insert_between_lem s2 q (s1.lists q) [] s.curr (ground arith),
    )

pub Consistent-asleep :
    (s : Sched) (q : ListId) (state : TaskState)
    → Consistent s
    → IsCurrent s
    → ((p : ℕ) → q ≢ runnable p)
    → Consistent (asleep s q state)
Consistent-asleep s q state c h other =
    let s1 = removed s s.curr in
    let v = record (s1.tasks s.curr) { state = state } in
    let s2 = put_task s1 s.curr v in
    let c1 = Consistent-erased s (runnable (s.tasks s.curr).priority) s.curr c h.queued in
    Consistent-inserted s2 q (s1.lists q) [] s.curr
      (Consistent-put_task s1 s.curr v c1 refl (λ p e. absurd (ground arith)))
      (append-nil (s1.lists q)) (ground arith) (λ p e. absurd (other p (ground arith)))

-- A running task that waits for a resource never fails to: it leaves the queue of its priority, and
-- stands at the end of the list of the resource, not runnable, behind those that came before it.
-- Every other list is as before, and the lists stay consistent.
pub sleep_last :
    (s : Sched) (q : ListId)
    → Consistent s
    → IsCurrent s
    → ((p : ℕ) → q ≢ runnable p)
    → let ready = runnable (s.tasks s.curr).priority in
      (s' : Sched) × (sleep_uninterruptible s q ≡ some s')
      × ((r : ListId)
          → s'.lists r ≡ (
              if list_eq q r
              then s.lists q ++ s.curr ∷ []
              else (if list_eq ready r then without s.curr (s.lists ready) else s.lists r)))
      × ((s'.tasks s.curr).state ≡ uninterruptible)
      × (s'.curr ≡ s.curr)
      × Consistent s'
sleep_last s q c h other =
    let ready = runnable (s.tasks s.curr).priority in
    let differ = other (s.tasks s.curr).priority in
    (
      asleep s q uninterruptible,
      sleep_uninterruptible_lem s q h,
      (λ r. ground (arith, list_eq_iff q r, list_eq_iff ready r, list_eq_iff ready q)),
      ground arith,
      refl,
      Consistent-asleep s q uninterruptible c h other,
    )
