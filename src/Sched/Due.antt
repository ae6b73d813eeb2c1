-- ===== src/Sched/Due.antt =====
-- `check_sleep_list` of Sched/Timer.antt: who is woken.
use makarna_x.Base.{
  ℕ, ◌≡◌, refl, inl, inr, true, false, none, some, List, [], ◌∷◌, ltb, if◌then◌else◌, arith,
  Bool-cases, has, subst, sym, ap, ◌∙◌, Distinct, ◌++◌, ◌==◌,
}
use makarna_x.Sched.State.{runnable, sleeping, Task, Sched, put_task, erase, or_same, ◌>>=◌}
use makarna_x.Sched.Consistent.{
  Consistent, Consistent-put_task, erased, erase_lem, Consistent-erased,
}
use makarna_x.Sched.Runnable.{readied, add_to_runnable_list_lem, Consistent-readied}
use mathlib.Core.List.{append-nil, append_assoc}
use makarna_x.Sched.Timer.{seconds_now, wake_due, wake_slept, check_sleep_list}

-- The tasks from the first one on whose time is not there yet.
abbrev pub not_due : (ℕ → Task) → ℕ → List ℕ → List ℕ
not_due tasks now [] = []
not_due tasks now (t ∷ ts) = if ltb now (tasks t).sleep then t ∷ ts else not_due tasks now ts

-- The tasks before that one: those that are due.
abbrev pub due : (ℕ → Task) → ℕ → List ℕ → List ℕ
due tasks now [] = []
due tasks now (t ∷ ts) = if ltb now (tasks t).sleep then [] else t ∷ due tasks now ts

-- Those of the tasks that have a priority.
abbrev pub of_priority : (ℕ → Task) → ℕ → List ℕ → List ℕ
of_priority tasks p [] = []
of_priority tasks p (t ∷ ts) =
    if (tasks t).priority == p then t ∷ of_priority tasks p ts else of_priority tasks p ts

due-agree :
    (tasks tasks' : ℕ → Task) (now p : ℕ) (ts : List ℕ)
    → ((u : ℕ) → has u ts ≡ true → tasks' u ≡ tasks u)
    → of_priority tasks' p (due tasks' now ts) ≡ of_priority tasks p (due tasks now ts)
due-agree tasks tasks' now p [] h = refl
due-agree tasks tasks' now p (t ∷ ts) h =
    let same = h t (ground arith) in
    ground (arith, due-agree tasks tasks' now p ts (λ u k. h u (ground arith)))

not_due-agree :
    (tasks tasks' : ℕ → Task) (now : ℕ) (ts : List ℕ)
    → ((u : ℕ) → has u ts ≡ true → tasks' u ≡ tasks u)
    → not_due tasks' now ts ≡ not_due tasks now ts
not_due-agree tasks tasks' now [] h = refl
not_due-agree tasks tasks' now (t ∷ ts) h =
    let same = h t (ground arith) in
    ground (arith, not_due-agree tasks tasks' now ts (λ u k. h u (ground arith)))

-- The state after the sleeping task `t` has been woken.
abbrev awake : Sched → ℕ → Sched
awake s t =
    let s1 = erased s sleeping t in readied (put_task s1 t (record (s1.tasks t) { sleep = 0 })) t

Consistent-awake :
    (s : Sched) (t : ℕ) → Consistent s → (s.tasks t).on ≡ some sleeping → Consistent (awake s t)
Consistent-awake s t c here =
    let s1 = erased s sleeping t in
    Consistent-readied (put_task s1 t (record (s1.tasks t) { sleep = 0 })) t
      (Consistent-put_task s1 t (record (s1.tasks t) { sleep = 0 })
        (Consistent-erased s sleeping t c here) refl (λ p e. absurd (ground arith)))
      (ground arith)

wake_slept_lem :
    (s : Sched) (t : ℕ)
    → (s.tasks t).on ≡ none
    → wake_slept s t ≡ some (readied (put_task s t (record (s.tasks t) { sleep = 0 })) t)
unfolding wake_slept
wake_slept_lem s t off = ground (
  arith,
  add_to_runnable_list_lem (put_task s t (record (s.tasks t) { sleep = 0 })) t (ground arith),
)

wake_due_one :
    (s s' : Sched) (now t : ℕ) (ts : List ℕ)
    → ltb now (s.tasks t).sleep ≡ false
    → wake_slept (or_same s (erase s sleeping t)) t ≡ some s'
    → wake_due now s (t ∷ ts) ≡ wake_due now s' ts
unfolding wake_due
wake_due_one s s' now t ts due woke =
    let first : wake_due now s (t ∷ ts)
        ≡ (wake_slept (or_same s (erase s sleeping t)) t >>= λ v. wake_due now v ts) =
      rw due refl in
    first ∙ ap (λ o. o >>= λ v. wake_due now v ts) woke

slept :
    (s : Sched) (t : ℕ)
    → (s.tasks t).on ≡ some sleeping
    → wake_slept (or_same s (erase s sleeping t)) t ≡ some (awake s t)
slept s t here =
    rw (erase_lem s sleeping t here) (wake_slept_lem (erased s sleeping t) t (ground arith))

awake-queue :
    (s : Sched) (t p : ℕ) (xs : List ℕ)
    → (awake s t).lists (runnable p) ++ xs
      ≡ s.lists (runnable p) ++ (if (s.tasks t).priority == p then t ∷ xs else xs)
awake-queue s t p xs = elim (Bool-cases ((s.tasks t).priority == p)) [
  | inl same ↦
      let e : (s.tasks t).priority ≡ p = ground (arith, same) in
      ground (arith, append_assoc (s.lists (runnable p)) (t ∷ []) xs)
  | inr other ↦ ground arith
]

wake_due_lem :
    (s : Sched) (now : ℕ) (ts : List ℕ)
    → Consistent s
    → s.lists sleeping ≡ ts
    → (s' : Sched) × (wake_due now s ts ≡ some s')
      × (s'.lists sleeping ≡ not_due s.tasks now ts)
      × ((p : ℕ)
          → s'.lists (runnable p)
            ≡ s.lists (runnable p) ++ of_priority s.tasks p (due s.tasks now ts))
      × Consistent s'
unfolding wake_due
wake_due_lem s now [] c l = (s, refl, l, (λ p. sym (append-nil (s.lists (runnable p)))), c)
wake_due_lem s now (t ∷ ts) c l = elim (Bool-cases (ltb now (s.tasks t).sleep)) [
  | inl later ↦
      (s, ground arith, ground arith, (λ p. ground (arith, append-nil (s.lists (runnable p)))), c)
  | inr due_now ↦
      let here = c.listed sleeping t (rw l (ground arith)) in
      let alone : Distinct (t ∷ ts) = subst Distinct l (c.distinct sleeping) in
      let s1 = awake s t in
      let (s', run, left, queued, kept) =
        wake_due_lem s1 now ts (Consistent-awake s t c here) (ground arith) in
      let same = not_due-agree s.tasks s1.tasks now ts (λ u k. ground arith) in
      let woken = λ (p : ℕ).
        queued p
        ∙ ap (λ xs. s1.lists (runnable p) ++ xs)
            (due-agree s.tasks s1.tasks now p ts (λ u k. ground arith))
        ∙ awake-queue s t p (of_priority s.tasks p (due s.tasks now ts)) in
      (
        s',
        ground (arith, wake_due_one s s1 now t ts due_now (slept s t here)),
        ground arith,
        (λ p. woken p ∙ ground (arith, due_now)),
        kept,
      )
]

-- `check_sleep_list` never stops the kernel. It wakes the tasks at the head of the list of sleepers
-- whose time has come, up to the first one whose time has not, and leaves the others: those that are
-- woken leave the list of sleepers and stand, in their order, at the ends of the queues of their
-- priorities, of which nothing else changes. The lists stay consistent.
pub check_sleep_list_lem :
    (s : Sched)
    → Consistent s
    → (s' : Sched) × (check_sleep_list s ≡ some s')
      × (s'.lists sleeping ≡ not_due s.tasks (seconds_now s) (s.lists sleeping))
      × ((p : ℕ)
          → s'.lists (runnable p)
            ≡ s.lists (runnable p)
              ++ of_priority s.tasks p (due s.tasks (seconds_now s) (s.lists sleeping)))
      × Consistent s'
unfolding check_sleep_list
check_sleep_list_lem s c = wake_due_lem s (seconds_now s) (s.lists sleeping) c refl
