-- ===== src/Sched/Pick.antt =====
-- `find_runnable_task` of Sched/Queues.antt: which task runs next.
use makarna_x.Base.{
  ℕ, zero, suc, ◌<◌, ◌≤◌, ◌≡◌, refl, ◌⊎◌, inl, inr, none, some, List, [], ◌∷◌, ◌++◌, ◌==◌,
  if◌then◌else◌, arith, Bool-cases,
}
use makarna_x.Sched.State.{
  running, ListId, runnable, list_eq, pos, Sched, put_task, push_back, pop_front,
}
use makarna_x.Sched.Queues.{find_level, rotate, find_runnable_task}
use makarna_x.Sched.Consistent.{
  Consistent, Consistent-put_task, inserted, insert_between_lem, Consistent-inserted, erased,
  erase_lem, Consistent-erased, list_eq_iff,
}
use mathlib.Core.List.{append-nil}

-- Every queue of a priority above `low`, up to `k`, is empty.
abbrev pub EmptyAbove : ℕ → ℕ → Sched → Type 0
EmptyAbove low k s = (j : ℕ) → low < j → j ≤ k → s.lists (runnable j) ≡ []

List-cases : (xs : List ℕ) → (xs ≡ []) ⊎ ((t : ℕ) × (ts : List ℕ) × (xs ≡ t ∷ ts))
List-cases [] = inl refl
List-cases (t ∷ ts) = inr (t, ts, refl)

extend :
    (i low : ℕ) (s : Sched)
    → s.lists (runnable (suc i)) ≡ []
    → EmptyAbove low i s
    → EmptyAbove low (suc i) s
extend i low s empty above j a b = elim (Bool-cases (j == suc i)) [
  | inl top ↦ ground arith
  | inr below ↦ above j a (ground arith)
]

find_level-cases :
    (k : ℕ) (s : Sched)
    → ((find_level k s ≡ none) × EmptyAbove 0 k s)
      ⊎ ((p : ℕ) × (t : ℕ) × (ts : List ℕ) × (find_level k s ≡ some p)
          × (1 ≤ p)
          × (p ≤ k)
          × (s.lists (runnable p) ≡ t ∷ ts)
          × EmptyAbove p k s)
unfolding find_level
find_level-cases zero s = inl (refl, λ j a b. absurd (omega arith))
find_level-cases (suc i) s = elim (List-cases (s.lists (runnable (suc i)))) [
  | inl empty ↦ elim (find_level-cases i s) [
    | inl (e, above) ↦ inl (ground arith, extend i 0 s empty above)
    | inr (p, t, ts, e, low, le, l, above) ↦
        inr (p, t, ts, ground arith, low, omega arith, l, extend i p s empty above)
  ]
  | inr (t, ts, l) ↦
      inr (suc i, t, ts, ground arith, omega arith, omega arith, l, λ j a b. absurd (omega arith))
]

-- The state after `t` has gone to the end of its queue with its time set anew.
abbrev pub rotated : Sched → ℕ → ℕ → Sched
rotated s p t =
    let s1 = erased s (runnable p) t in
    let s2 = inserted s1 (runnable p) (s1.lists (runnable p)) [] t in
    put_task s2 t (record (s2.tasks t) { counter = pos (s2.tasks t).priority })

rotate_lem :
    (s : Sched) (p t : ℕ) (ts : List ℕ)
    → Consistent s
    → s.lists (runnable p) ≡ t ∷ ts
    → rotate s p t ≡ some (rotated s p t)
unfolding rotate pop_front push_back
rotate_lem s p t ts c l =
    let here = c.listed (runnable p) t (rw l (ground arith)) in
    let s1 = erased s (runnable p) t in
    ground (
      arith,
      erase_lem s (runnable p) t here,
      insert_between_lem s1 (runnable p) (s1.lists (runnable p)) [] t (ground arith),
      c.placed t p here,
    )

Consistent-rotated :
    (s : Sched) (p t : ℕ) (ts : List ℕ)
    → Consistent s
    → s.lists (runnable p) ≡ t ∷ ts
    → Consistent (rotated s p t)
Consistent-rotated s p t ts c l =
    let here = c.listed (runnable p) t (rw l (ground arith)) in
    let good = c.placed t p here in
    let s1 = erased s (runnable p) t in
    let s2 = inserted s1 (runnable p) (s1.lists (runnable p)) [] t in
    let c2 =
      Consistent-inserted s1 (runnable p) (s1.lists (runnable p)) [] t
        (Consistent-erased s (runnable p) t c here) (append-nil (s1.lists (runnable p)))
        (ground arith) (λ q e. ground arith) in
    Consistent-put_task s2 t (record (s2.tasks t) { counter = pos (s2.tasks t).priority }) c2 refl
      (λ q e. ground arith)

picked :
    (s : Sched) (p t : ℕ) (ts : List ℕ)
    → find_level 40 s ≡ some p
    → s.lists (runnable p) ≡ t ∷ ts
    → rotate s p t ≡ some (rotated s p t)
    → find_runnable_task s ≡ some (some t, rotated s p t)
unfolding find_runnable_task
picked s p t ts e l r = ground arith

-- `find_runnable_task` always returns. If no queue of a priority from 1 to 40 holds a task it
-- returns NULL and changes nothing. Otherwise it returns the first task of the highest of these
-- queues that has one; that task goes to the end of its queue and gets its priority as its time, every other
-- queue stays, and the lists stay consistent.
pub find_runnable_task_lem :
    (s : Sched)
    → Consistent s
    → (EmptyAbove 0 40 s × (find_runnable_task s ≡ some (none, s)))
      ⊎ ((p : ℕ) × (t : ℕ) × (ts : List ℕ) × (s' : Sched) × (s.lists (runnable p) ≡ t ∷ ts)
          × (1 ≤ p)
          × (p ≤ 40)
          × EmptyAbove p 40 s
          × (find_runnable_task s ≡ some (some t, s'))
          × ((r : ListId)
              → s'.lists r ≡ (if list_eq (runnable p) r then ts ++ t ∷ [] else s.lists r))
          × ((s'.tasks t).counter ≡ pos p)
          × ((s'.tasks t).state ≡ running)
          × Consistent s')
unfolding find_runnable_task
find_runnable_task_lem s c = elim (find_level-cases 40 s) [
  | inl (e, above) ↦ inl (above, rw (e, find_runnable_task) refl)
  | inr (p, t, ts, e, low, le, l, above) ↦
      let here = c.listed (runnable p) t (rw l (ground arith)) in
      let good = c.placed t p here in
      inr (
        p,
        t,
        ts,
        rotated s p t,
        l,
        low,
        le,
        above,
        picked s p t ts e l (rotate_lem s p t ts c l),
        (λ r. ground (arith, l, list_eq_iff (runnable p) r, list_eq_iff (runnable p) (runnable p))),
        ground arith,
        ground arith,
        Consistent-rotated s p t ts c l,
      )
]
