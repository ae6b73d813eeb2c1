-- ===== src/Sched/Clock.antt =====
-- `do_timer`, `sys_sleep` and `sys_alarm` of Sched/Timer.antt.
use makarna_x.Base.{
  ℕ, zero, suc, ◌+◌, ◌/◌, ◌%◌, ◌^◌, ◌<◌, ◌≤◌, ◌≡◌, ◌≢◌, refl, ◌∙◌, Bool, true, false, none, some,
  List, [], ◌∷◌, ◌++◌, ◌==◌, ltb, arith, length,
}
use makarna_x.Base.{has}
use makarna_x.Sched.State.{
  pos, ListId, sleeping, interruptible, Task, Sched, put_task, insert_between, push_back,
}
use makarna_x.Sched.Consistent.{inserted, insert_between_lem}
use makarna_x.Sched.Runnable.{IsCurrent, removed, remove_from_runnable_list_lem}
use makarna_x.Sched.Timer.{
  seconds_now, do_timer, sys_alarm, alarm_loop, alarm_insert, sys_sleep, sleep_loop,
  check_sleep_list, wake_due,
}

-- The state after timer interrupts that do not switch tasks, from user mode or not each.
abbrev pub ticks : List Bool → Sched → Sched
ticks [] s = s
ticks (user ∷ users) s = ticks users (do_timer s user).1

do_timer-counter :
    (s : Sched) (user : Bool) (p : ℕ)
    → (s.tasks s.curr).counter ≡ pos (suc p)
    → (((do_timer s user).1).tasks s.curr).counter ≡ pos p
unfolding do_timer
do_timer-counter s user p h = ground arith

do_timer-curr : (s : Sched) (user : Bool) → (do_timer s user).1.curr ≡ s.curr
unfolding do_timer
do_timer-curr s user = refl

do_timer-last :
    (s : Sched) (user : Bool) (p : ℕ)
    → (s.tasks s.curr).counter ≡ pos p
    → (do_timer s user).0 ≡ (0 == p)
unfolding do_timer
do_timer-last s user zero h = ground arith
do_timer-last s user (suc p) h = ground arith

-- A task that has the time p keeps the processor for p timer interrupts, whatever mode they come
-- from, and the next one calls `schedule`.
pub do_timer-ticks :
    (users : List Bool) (s : Sched) (user : Bool) (p : ℕ)
    → (s.tasks s.curr).counter ≡ pos p
    → length users ≤ p
    → (do_timer (ticks users s) user).0 ≡ (length users == p)
do_timer-ticks [] s user p h k = do_timer-last s user p h
do_timer-ticks (u ∷ users) s user zero h k = absurd (omega arith)
do_timer-ticks (u ∷ users) s user (suc p) h k =
    let next = (do_timer s u).1 in
    let left : (next.tasks next.curr).counter ≡ pos p =
      rw (do_timer-curr s u) (do_timer-counter s u p h) in
    do_timer-ticks users next user p left (omega arith) ∙ ground arith

-- A task that stands in a list is not put in again.
sleep_loop-placed :
    (xs before : List ℕ) (seconds : ℕ) (s : Sched) (q : ListId)
    → (s.tasks s.curr).on ≡ some q
    → sleep_loop seconds s before xs ≡ s
unfolding sleep_loop insert_between
sleep_loop-placed [] before seconds s q h = refl
sleep_loop-placed (x ∷ xs) before seconds s q h =
    ground (arith, sleep_loop-placed xs (before ++ x ∷ []) seconds s q h)

sleep_loop-front :
    (t : ℕ) (ts : List ℕ) (seconds : ℕ) (s : Sched)
    → (s.tasks s.curr).on ≡ none
    → ltb seconds (s.tasks t).sleep ≡ true
    → sleep_loop seconds s [] (t ∷ ts) ≡ inserted s sleeping [] (t ∷ ts) s.curr
unfolding sleep_loop
sleep_loop-front t ts seconds s free before =
    let s1 = inserted s sleeping [] (t ∷ ts) s.curr in
    ground (
      arith,
      insert_between_lem s sleeping [] (t ∷ ts) s.curr free,
      sleep_loop-placed ts (t ∷ []) seconds s1 sleeping (ground arith),
    )

push_back-placed :
    (s : Sched) (q r : ListId) (t : ℕ) → (s.tasks t).on ≡ some r → push_back s q t ≡ none
unfolding push_back insert_between
push_back-placed s q r t h = ground arith

-- The state after the running task has gone to sleep before all others.
abbrev in_front : Sched → List ℕ → ℕ → Sched
in_front s ts seconds =
    let s1 = inserted (removed s s.curr) sleeping [] ts s.curr in
    put_task s1 s.curr (record (s1.tasks s.curr) {
      state = interruptible;
      sleep = (seconds_now s + seconds) % 2 ^ 32;
    })

sys_sleep-front :
    (s : Sched) (t : ℕ) (ts : List ℕ) (seconds : ℕ)
    → IsCurrent s
    → seconds ≢ 0
    → s.lists sleeping ≡ t ∷ ts
    → s.curr ≢ t
    → seconds < (s.tasks t).sleep
    → sys_sleep s seconds ≡ some (in_front s (t ∷ ts) seconds)
unfolding sys_sleep
sys_sleep-front s t ts seconds c some_time l other before =
    let s1 = removed s s.curr in
    let s2 = inserted s1 sleeping [] (t ∷ ts) s.curr in
    let listed : s1.lists sleeping ≡ t ∷ ts = ground arith in
    let loop : sleep_loop seconds s1 [] (s1.lists sleeping) ≡ s2 =
      rw listed (sleep_loop-front t ts seconds s1 (ground arith) (ground arith)) in
    let kept = push_back-placed s2 sleeping sleeping s.curr (ground arith) in
    ground (arith, remove_from_runnable_list_lem s s.curr c.queued c.active, loop, kept)

-- The comment of `sys_sleep` says that the list of sleepers is in the order of their times. But the
-- span of the new sleeper is compared with the point of time of the others: where the first of them
-- has a point of time above that span, the new sleeper goes before all, however late it is due, and
-- until it is due `check_sleep_list` changes nothing, so that nobody behind it is woken.
sys_sleep-overtakes :
    (s : Sched) (t : ℕ) (ts : List ℕ) (seconds later : ℕ)
    → IsCurrent s
    → seconds ≢ 0
    → s.lists sleeping ≡ t ∷ ts
    → s.curr ≢ t
    → seconds < (s.tasks t).sleep
    → later / 100 < (seconds_now s + seconds) % 2 ^ 32
    → (s' : Sched) × (sys_sleep s seconds ≡ some s')
      × (s'.lists sleeping ≡ s.curr ∷ t ∷ ts)
      × (check_sleep_list (record s' { jiffies = later }) ≡ some (record s' { jiffies = later }))
unfolding check_sleep_list wake_due
sys_sleep-overtakes s t ts seconds later c some_time l other before early = (
  in_front s (t ∷ ts) seconds,
  sys_sleep-front s t ts seconds c some_time l other before,
  ground arith,
  ground arith,
)

alarm_insert-placed :
    (s : Sched) (before behind : List ℕ) (t : ℕ)
    → (s.tasks t).on_alarm ≡ true
    → alarm_insert s before behind t ≡ none
unfolding alarm_insert
alarm_insert-placed s before behind t h = ground arith

alarm_loop_stops :
    (s : Sched) (x y : ℕ) (zs : List ℕ) (seconds : ℕ)
    → s.curr ≢ x
    → s.curr ≢ y
    → seconds < (s.tasks x).alarm
    → seconds < (s.tasks y).alarm
    → alarm_loop seconds s [] (x ∷ y ∷ zs) ≡ none
unfolding alarm_loop alarm_insert
alarm_loop_stops s x y zs seconds a b p q = ground arith

-- For a span above 0, `sys_alarm` of a task that has no alarm and is none of the first two of the list
-- of alarms stops the kernel where these two have points of time above the span: the loop does not end at the first place that fits, and the
-- second insertion of the task fails its ASSERT.
pub sys_alarm_stops :
    (s : Sched) (x y : ℕ) (zs : List ℕ) (seconds : ℕ)
    → seconds ≢ 0
    → (s.tasks s.curr).on_alarm ≡ false
    → s.alarms ≡ x ∷ y ∷ zs
    → s.curr ≢ x
    → s.curr ≢ y
    → seconds < (s.tasks x).alarm
    → seconds < (s.tasks y).alarm
    → sys_alarm s seconds ≡ none
unfolding sys_alarm
sys_alarm_stops s x y zs seconds some_time free l a b p q =
    let v = record (s.tasks s.curr) { alarm = (seconds_now s + seconds) % 2 ^ 32 } in
    let s2 = put_task s s.curr v in
    ground (arith, alarm_loop_stops s2 x y zs seconds a b (ground arith) (ground arith))

-- No task of the list has a point of time above the span.
abbrev pub NoneAbove : Sched → ℕ → List ℕ → Type 0
NoneAbove s seconds [] = Unit {0}
NoneAbove s seconds (x ∷ xs) = ((s.tasks x).alarm ≤ seconds) × NoneAbove s seconds xs

alarm_loop-none :
    (xs before : List ℕ) (s : Sched) (seconds : ℕ)
    → NoneAbove s seconds xs
    → alarm_loop seconds s before xs ≡ some s
unfolding alarm_loop
alarm_loop-none [] before s seconds h = refl
alarm_loop-none (x ∷ xs) before s seconds h =
    ground (arith, alarm_loop-none xs (before ++ x ∷ []) s seconds h.1)

NoneAbove-put_task :
    (s : Sched) (t : ℕ) (v : Task) (xs : List ℕ) (seconds : ℕ)
    → has t xs ≡ false
    → NoneAbove s seconds xs
    → NoneAbove (put_task s t v) seconds xs
NoneAbove-put_task s t v [] seconds out h = tt
NoneAbove-put_task s t v (x ∷ xs) seconds out h =
    (ground (arith, h.0), NoneAbove-put_task s t v xs seconds (ground arith) h.1)

-- Where no task of the list of alarms has a point of time above the span, `sys_alarm` of a task
-- without an alarm puts it at the end of the list, with its point of time.
pub sys_alarm_sets :
    (s : Sched) (seconds : ℕ)
    → seconds ≢ 0
    → (s.tasks s.curr).on_alarm ≡ false
    → has s.curr s.alarms ≡ false
    → NoneAbove s seconds s.alarms
    → (s' : Sched) × (sys_alarm s seconds ≡ some s')
      × (s'.alarms ≡ s.alarms ++ s.curr ∷ [])
      × ((s'.tasks s.curr).on_alarm ≡ true)
      × ((s'.tasks s.curr).alarm ≡ (seconds_now s + seconds) % 2 ^ 32)
unfolding sys_alarm alarm_insert
sys_alarm_sets s seconds some_time free out low =
    let v = record (s.tasks s.curr) { alarm = (seconds_now s + seconds) % 2 ^ 32 } in
    let s2 = put_task s s.curr v in
    let loop =
      alarm_loop-none s.alarms [] s2 seconds
        (NoneAbove-put_task s s.curr v s.alarms seconds out low) in
    (
      record (put_task s2 s.curr (record v { on_alarm = true })) {
        alarms = s.alarms ++ s.curr ∷ [];
      },
      ground (arith, loop),
      refl,
      ground arith,
      ground arith,
    )
