-- ===== src/Sched/Delivery.antt =====
-- What `send_signal` of Sched/Signal.antt does with each state of the task.
use makarna_x.Base.{
  ℕ, ◌<◌, ◌≡◌, ◌≢◌, refl, ◌⊎◌, inl, inr, true, false, none, some, ◌==◌, if◌then◌else◌, arith,
  Option-cases, Bool-cases,
}
use makarna_x.Base.{◌≢◌}
use makarna_x.Sched.State.{
  TaskState, running, interruptible, uninterruptible, zombie, stopped, not_runnable, pos, sig_dfl,
  address, runnable, Sched,
}
use makarna_x.Sched.Consistent.{
  Consistent, Consistent-put_task, erased, erase_lem, Consistent-erased,
}
use makarna_x.Sched.Runnable.{readied, add_to_runnable_list_lem, Consistent-readied}
use makarna_x.Sched.Signal.{raise, leave_list, is_dropped, is_ignored, deliver, send_signal}

Consistent-raise : (s : Sched) (t sig : ℕ) → Consistent s → Consistent (raise s t sig)
Consistent-raise s t sig c =
    Consistent-put_task s t
      (record (s.tasks t) { sig = λ n. if sig == n then true else (s.tasks t).sig n }) c refl
      (λ p e. c.placed t p e)

-- A task off its list, in a consistent state.
record IsLeft (s s' : Sched) (t : ℕ) : Type 0 where
  off : (s'.tasks t).on ≡ none
  kept : Consistent s'
  bits : (s'.tasks t).sig ≡ (s.tasks t).sig
  level : (s'.tasks t).priority ≡ (s.tasks t).priority
  waits : (s'.tasks t).waiting_child ≡ (s.tasks t).waiting_child
  others : (u : ℕ) → t ≢ u → s'.tasks u ≡ s.tasks u

leave_list-IsLeft : (s : Sched) (t : ℕ) → Consistent s → IsLeft s (leave_list s t) t
leave_list-IsLeft s t c = elim (Option-cases (s.tasks t).on) [
  | inl free ↦
      let same : leave_list s t ≡ s = ground (arith, free) in
      rw same record {
        off = free;
        kept = c;
        bits = refl;
        level = refl;
        waits = refl;
        others = λ u k. refl;
      }
  | inr (q, here) ↦
      let same : leave_list s t ≡ erased s q t = ground (arith, here, erase_lem s q t here) in
      rw same record {
        off = ground arith;
        kept = Consistent-erased s q t c here;
        bits = ground arith;
        level = ground arith;
        waits = ground arith;
        others = λ u k. ground arith;
      }
]

-- A task in an interruptible sleep that gets a signal, which it does not handle already and which is
-- not ignored, always wakes: it leaves the list that it waits in, and is running in the queue of its
-- priority with the signal set. The lists stay consistent.
pub send_signal_wakes :
    (s : Sched) (sig t : ℕ)
    → Consistent s
    → sig < 32
    → (s.tasks t).state ≡ interruptible
    → (s.tasks t).pending sig ≡ false
    → is_dropped s t sig ≡ false
    → (s' : Sched) × (send_signal s sig t ≡ some (pos 0, s'))
      × ((s'.tasks t).state ≡ running)
      × ((s'.tasks t).on ≡ some (runnable (s.tasks t).priority))
      × ((s'.tasks t).sig sig ≡ true)
      × Consistent s'
unfolding send_signal deliver
send_signal_wakes s sig t c small asleep fresh heard =
    let s1 = raise s t sig in
    let l = leave_list-IsLeft s1 t (Consistent-raise s t sig c) in
    let s2 = leave_list s1 t in
    (
      readied s2 t,
      ground (arith, add_to_runnable_list_lem s2 t l.off),
      ground arith,
      ground (arith, l.level),
      ground (arith, l.bits),
      Consistent-readied s2 t l.kept l.off,
    )

-- A signal that wakes a task, with what it leaves of the tasks.
pub send_signal_woken :
    (s : Sched) (sig t : ℕ)
    → Consistent s
    → sig < 32
    → (s.tasks t).state ≡ interruptible
    → (s.tasks t).pending sig ≡ false
    → is_dropped s t sig ≡ false
    → (s' : Sched) × (send_signal s sig t ≡ some (pos 0, s'))
      × ((s'.tasks t).state ≡ running)
      × ((s'.tasks t).waiting_child ≡ (s.tasks t).waiting_child)
      × ((u : ℕ) → t ≢ u → s'.tasks u ≡ s.tasks u)
      × Consistent s'
unfolding send_signal deliver
send_signal_woken s sig t c small asleep fresh heard =
    let s1 = raise s t sig in
    let l = leave_list-IsLeft s1 t (Consistent-raise s t sig c) in
    let s2 = leave_list s1 t in
    (
      readied s2 t,
      ground (arith, add_to_runnable_list_lem s2 t l.off),
      ground arith,
      ground (arith, l.waits),
      (λ u k. ground (arith, l.others u k)),
      Consistent-readied s2 t l.kept l.off,
    )

State-cases :
    (v : TaskState)
    → (v ≡ interruptible)
      ⊎ ((v ≡ running) ⊎ (v ≡ zombie))
      ⊎ ((v ≡ uninterruptible) ⊎ (v ≡ stopped) ⊎ (v ≡ not_runnable))
State-cases interruptible = inl refl
State-cases running = inr (inl (inl refl))
State-cases zombie = inr (inl (inr refl))
State-cases uninterruptible = inr (inr (inl refl))
State-cases stopped = inr (inr (inr (inl refl)))
State-cases not_runnable = inr (inr (inr (inr refl)))

-- `send_signal` of a signal below 32 keeps the lists of the tasks consistent, whatever the state of
-- the task, and stops the kernel only where the task does not handle the signal already and is in
-- an uninterruptible sleep, stopped, or not runnable.
pub send_signal-Consistent :
    (s : Sched) (sig t : ℕ)
    → Consistent s
    → sig < 32
    → ((s' : Sched) × (send_signal s sig t ≡ some (pos 0, s')) × Consistent s')
      ⊎ ((send_signal s sig t ≡ none)
          × ((s.tasks t).pending sig ≡ false)
          × (((s.tasks t).state ≡ uninterruptible)
              ⊎ ((s.tasks t).state ≡ stopped)
              ⊎ ((s.tasks t).state ≡ not_runnable)))
unfolding send_signal deliver
send_signal-Consistent s sig t c small = elim (Bool-cases ((s.tasks t).pending sig)) [
  | inl handled ↦ inl (s, ground arith, c)
  | inr fresh ↦
      let s1 = raise s t sig in
      let c1 = Consistent-raise s t sig c in
      elim (State-cases (s.tasks t).state) [
        | inl asleep ↦ elim (Bool-cases (is_dropped s t sig)) [
          | inl dropped ↦ inl (s1, ground arith, c1)
          | inr heard ↦
              let (s', run, state, on, bit, kept) =
                send_signal_wakes s sig t c small asleep fresh heard in
              inl (s', run, kept)
        ]
        | inr (inl quiet) ↦ inl (s1, ground arith, c1)
        | inr (inr other) ↦ inr (ground arith, fresh, other)
      ]
]

-- A signal of SIGCHLD, SIGURG or SIGCONT does not wake a task in an interruptible sleep while the
-- task that runs has the default handler for it, whatever handler the task that gets it has set.
pub send_signal_drops :
    (s : Sched) (sig t n : ℕ)
    → sig < 32
    → is_ignored sig ≡ true
    → (s.tasks t).state ≡ interruptible
    → (s.tasks t).pending sig ≡ false
    → (s.tasks t).waiting_child ≡ false
    → (s.tasks t).action sig ≡ address n
    → (s.tasks s.curr).action sig ≡ sig_dfl
    → send_signal s sig t ≡ some (pos 0, raise s t sig)
unfolding send_signal deliver
send_signal_drops s sig t n small ignored asleep fresh busy own other =
    let differ : s.curr ≢ t = ground arith in ground arith
