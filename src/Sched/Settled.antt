-- ===== src/Sched/Settled.antt =====
-- What the loop of `check_signals` leaves behind.
use makarna_x.Base.{
  ℕ, zero, suc, ◌<◌, ◌≤◌, ◌≡◌, ◌≢◌, refl, sym, ap, ◌∙◌, inl, inr, ◌⊎◌, none, some, Bool, true,
  false, ◌||◌, ◌==◌, arith, Bool-cases, if◌then◌else◌, subst,
}
use makarna_x.Sched.State.{Task, Sched, put_task, on_list, runnable, ◌>>=◌}
use makarna_x.Sched.Queues.{remove_from_runnable_list}
use makarna_x.Sched.Signal.{is_ignored, is_default}
use makarna_x.Sched.Check.{
  leave, pass, handle, suspend, kill, Choice, is_stopping, has_signal, by_default, choose, after,
  mark_handled, returns, suspended, killed, End, Checked, finish, check_loop, check_signals,
  suspend_current, leave_loop,
}

-- A signal that may stay set: its handler is the default one, which passes it over.
abbrev pub IsPassed : Task → ℕ → Type 0
IsPassed v n = (is_default (v.action n) ≡ true) × ((v.id == 1 || is_ignored n) ≡ true)

-- What the end of the loop says about the task, for the signals from 1 to `k`.
abbrev pub Settles : ℕ → Task → End → Type 0
Settles k v returns = (n : ℕ) → 1 ≤ n → n ≤ k → v.sig n ≡ true → IsPassed v n
Settles k v (suspended n) =
    (n ≤ k)
    × (v.sig n ≡ true)
    × (is_default (v.action n) ≡ true)
    × (is_stopping n ≡ true)
    × (v.id ≢ 1)
Settles k v (killed n) =
    (n ≤ k)
    × (v.sig n ≡ true)
    × (is_default (v.action n) ≡ true)
    × (is_stopping n ≡ false)
    × (is_ignored n ≡ false)
    × (v.id ≢ 1)

-- The loop changes no handler and not the id, and no signal above `k`.
record Frames (k : ℕ) (v w : Task) : Type 0 where
  above : (n : ℕ) → k < n → w.sig n ≡ v.sig n
  action : w.action ≡ v.action
  id : w.id ≡ v.id

no_signal : (k : ℕ) (sig : ℕ → Bool) (n : ℕ) → has_signal k sig ≡ false → n < k → sig n ≡ false
no_signal zero sig n h less = absurd (omega arith)
no_signal (suc k) sig n h less = elim (Bool-cases (n == k)) [
  | inl top ↦ let e : n ≡ k = ground (arith, top) in ap sig e ∙ ground (arith, h)
  | inr below ↦
      let ne : n ≢ k = ground (arith, below) in
      no_signal k sig n (ground (arith, h)) (omega (arith, ne))
]

Frames-refl : (k : ℕ) (v : Task) → Frames k v v
Frames-refl k v = record { above = λ n h. refl; action = refl; id = refl }

Frames-handled : (k : ℕ) (v w : Task) → Frames k (mark_handled (suc k) v) w → Frames (suc k) v w
Frames-handled k v w f = record {
  above = λ n h.
      let ne : (suc k == n) ≡ false = ground (arith, h) in
      f.above n (omega arith) ∙ ground (arith, ne);
  action = f.action;
  id = f.id;
}

Frames-finish :
    (c : Choice) (k : ℕ) (v : Task) (r : Checked)
    → Frames k (after c (suc k) v) r.task
    → Frames (suc k) v (finish c (suc k) v r).task
Frames-finish leave k v r f = Frames-refl (suc k) v
Frames-finish pass k v r f = record {
  above = λ n h. f.above n (omega arith);
  action = f.action;
  id = f.id;
}
Frames-finish handle k v r f = Frames-handled k v r.task f
Frames-finish suspend k v r f = Frames-refl (suc k) v
Frames-finish kill k v r f = Frames-refl (suc k) v

check_loop-Frames : (k : ℕ) (v : Task) → Frames k v (check_loop k v).task
unfolding check_loop
check_loop-Frames zero v = Frames-refl 0 v
check_loop-Frames (suc k) v =
    Frames-finish (choose (suc k) v) k v (check_loop k (after (choose (suc k) v) (suc k) v))
      (check_loop-Frames k (after (choose (suc k) v) (suc k) v))

-- One signal more, which is passed over if it is set.
Settles-more :
    (k : ℕ) (w : Task) (e : End)
    → (w.sig (suc k) ≡ true → IsPassed w (suc k))
    → Settles k w e
    → Settles (suc k) w e
Settles-more k w returns top h = λ n low high set. elim (Bool-cases (n == suc k)) [
  | inl here ↦
      let same : n ≡ suc k = ground (arith, here) in
      subst (IsPassed w) (sym same) (top (sym (ap w.sig same) ∙ set))
  | inr below ↦ let ne : n ≢ suc k = ground (arith, below) in h n low (omega (arith, ne)) set
]
Settles-more k w (suspended n) top (low, set, default, stopping, one) =
    (omega (arith, low), set, default, stopping, one)
Settles-more k w (killed n) top (low, set, default, stopping, ignored, one) =
    (omega (arith, low), set, default, stopping, ignored, one)

choose-leave : (n : ℕ) (v : Task) → choose n v ≡ leave → has_signal 32 v.sig ≡ false
choose-leave n v h = elim (Bool-cases (has_signal 32 v.sig)) [
  | inr off ↦ off
  | inl on ↦ absurd (ground (arith, h, on))
]

choose-pass : (n : ℕ) (v : Task) → choose n v ≡ pass → v.sig n ≡ true → IsPassed v n
choose-pass n v h set =
    by_cases (has_signal 32 v.sig) (is_default (v.action n)) (v.id == 1 || is_ignored n) (
      ap
        (λ b.
          if has_signal 32 v.sig
          then (if b then (if is_default (v.action n) then by_default v.id n else handle) else pass)
          else leave)
        (sym set)
      ∙ h)
  where
    by_cases :
        (a d i : Bool)
        → (if a
            then (if d
                then (if i then pass else (if is_stopping n then suspend else kill))
                else handle)
            else leave)
          ≡ pass
        → (d ≡ true) × (i ≡ true)
    by_cases a d i e = ground (arith, e)

-- The tests that lead to a choice, as a function of their results.
abbrev chosen : Bool → Bool → Bool → Bool → Bool → Choice
chosen some_set set default passed stopping =
    if some_set
    then (if set
        then (if default
            then (if passed then pass else (if stopping then suspend else kill))
            else handle)
        else pass)
    else leave

chosen-suspend :
    (a b d i t : Bool)
    → chosen a b d i t ≡ suspend
    → (b ≡ true) × (d ≡ true) × (i ≡ false) × (t ≡ true)
chosen-suspend a b d i t e = ground (arith, e)

chosen-kill :
    (a b d i t : Bool)
    → chosen a b d i t ≡ kill
    → (b ≡ true) × (d ≡ true) × (i ≡ false) × (t ≡ false)
chosen-kill a b d i t e = ground (arith, e)

not_passed : (id n : ℕ) → (id == 1 || is_ignored n) ≡ false → (id ≢ 1) × (is_ignored n ≡ false)
not_passed id n e =
    let a : (id == 1) ≡ false = ground (arith, e) in (ground (arith, a), ground (arith, e))

Settles-finish :
    (c : Choice) (k : ℕ) (v : Task) (r : Checked)
    → suc k < 32
    → choose (suc k) v ≡ c
    → Frames k (after c (suc k) v) r.task
    → Settles k r.task r.end
    → Settles (suc k) (finish c (suc k) v r).task (finish c (suc k) v r).end
Settles-finish leave k v r small e f h = λ n low high set.
    absurd
      (cc (sym set ∙ no_signal 32 v.sig n (choose-leave (suc k) v e) (omega (arith, small, high))))
Settles-finish pass k v r small e f h =
    Settles-more k r.task r.end
      (λ set.
        let (default, passed) =
          choose-pass (suc k) v e (sym (f.above (suc k) (omega arith)) ∙ set) in
        (
          ap (λ g. is_default (g (suc k))) f.action ∙ default,
          ap (λ j. j == 1 || is_ignored (suc k)) f.id ∙ passed,
        ))
      h
Settles-finish handle k v r small e f h =
    let cleared : (mark_handled (suc k) v).sig (suc k) ≡ false = ground arith in
    Settles-more k r.task r.end
      (λ set. absurd (cc (sym set ∙ f.above (suc k) (omega arith) ∙ cleared))) h
Settles-finish suspend k v r small e f h =
    let (set, default, passed, stopping) =
      chosen-suspend (has_signal 32 v.sig) (v.sig (suc k)) (is_default (v.action (suc k)))
        (v.id == 1 || is_ignored (suc k)) (is_stopping (suc k)) e in
    (omega arith, set, default, stopping, (not_passed v.id (suc k) passed).0)
Settles-finish kill k v r small e f h =
    let (set, default, passed, stopping) =
      chosen-kill (has_signal 32 v.sig) (v.sig (suc k)) (is_default (v.action (suc k)))
        (v.id == 1 || is_ignored (suc k)) (is_stopping (suc k)) e in
    let (one, ignored) = not_passed v.id (suc k) passed in
    (omega arith, set, default, stopping, ignored, one)

check_loop-Settles :
    (k : ℕ) (v : Task) → k < 32 → Settles k (check_loop k v).task (check_loop k v).end
unfolding check_loop
check_loop-Settles zero v small = λ n low high set. absurd (omega (arith, low, high))
check_loop-Settles (suc k) v small =
    let w = after (choose (suc k) v) (suc k) v in
    Settles-finish (choose (suc k) v) k v (check_loop k w) small refl (check_loop-Frames k w)
      (check_loop-Settles k w (omega (arith, small)))

suspend_current_stops : (s : Sched) → suspend_current s ≡ none
unfolding suspend_current remove_from_runnable_list
suspend_current_stops s =
    elim (Bool-cases (on_list (s.tasks s.curr).on (runnable (s.tasks s.curr).priority))) [
      | inl queued ↦ ground (arith, queued)
      | inr off ↦ ground (arith, off)
    ]

-- Some signal suspends the task.
abbrev pub Suspends : Task → Type 0
Suspends v = (n : ℕ) × Settles 31 v (suspended n)

leave_loop-cases :
    (r : Checked) (e : End) (s : Sched)
    → r.end ≡ e
    → Settles 31 r.task e
    → ((leave_loop r e s ≡ none) × Suspends r.task)
      ⊎ ((leave_loop r e s ≡ some r) × Settles 31 r.task r.end × ((n : ℕ) → r.end ≢ suspended n))
leave_loop-cases r returns s e h = inr (refl, subst (Settles 31 r.task) (sym e) h, λ n k. cc)
leave_loop-cases r (killed m) s e h = inr (refl, subst (Settles 31 r.task) (sym e) h, λ n k. cc)
leave_loop-cases r (suspended m) s e h =
    inl (ap (λ o. o >>= λ q. some r) (suspend_current_stops s), (m, h))

-- `check_signals` of the running task stops the kernel where the loop comes to a signal that is set, has
-- the default handler and stops by default, in a task whose id is not 1: the task's state is no longer
-- State_running when `remove_from_runnable_list` asserts that it is. Otherwise the loop ends in one of
-- two ways. Where it comes to its end, every signal from 1 to 31 that is still set has the default
-- handler and is passed over: the task is task 1, or the signal is ignored by default. Where it ends
-- the task, that is for a signal that is set, has the default handler and neither stops nor is
-- ignored, and the id of the task is not 1.
pub check_signals-Settles :
    (s : Sched)
    → let r = check_loop 31 (s.tasks s.curr) in
      ((check_signals s ≡ none) × Suspends r.task)
      ⊎ ((check_signals s ≡ some r) × Settles 31 r.task r.end × ((n : ℕ) → r.end ≢ suspended n))
unfolding check_signals
check_signals-Settles s =
    let r = check_loop 31 (s.tasks s.curr) in
    leave_loop-cases r r.end (put_task s s.curr r.task) refl
      (check_loop-Settles 31 (s.tasks s.curr) (omega arith))
