-- ===== src/Sched/State.antt =====
-- The state of kernel/sched.cpp: the tasks and the lists that they stand in. A task is a number. A
-- list of tasks is the sequence of its nodes, and `on` is the field `__list` of a task's
-- `list_node`, which a list tests before it takes a node in or out (include/wmc/__list.h).
-- `none` as a result is a failed ASSERT, a PANIC or a write past the end of an array.
use makarna_x.Base.{
  ℕ, zero, suc, Bool, true, false, Option, none, some, List, [], ◌∷◌, ◌++◌, ◌==◌, if◌then◌else◌,
  without,
}

-- `Task::State`.
pub data TaskState : Type 0 where
  not_runnable running interruptible uninterruptible zombie stopped : TaskState

-- __task_runnable_queue[p], task_sleep_list, task_zombie_list, and the lists that tasks wait in for
-- a resource.
pub data ListId : Type 0 where
  runnable : ℕ → ListId
  sleeping : ListId
  zombies : ListId
  waiting : ℕ → ListId

abbrev pub list_eq : ListId → ListId → Bool
list_eq (runnable p) (runnable q) = p == q
list_eq sleeping sleeping = true
list_eq zombies zombies = true
list_eq (waiting r) (waiting s) = r == s
list_eq _ _ = false

-- `int32_t counter`: `negsuc n` is -(n + 1).
pub data ℤ : Type 0 where
  pos : ℕ → ℤ
  negsuc : ℕ → ℤ

abbrev pub pred_ℤ : ℤ → ℤ
pred_ℤ (pos zero) = negsuc zero
pred_ℤ (pos (suc n)) = pos n
pred_ℤ (negsuc n) = negsuc (suc n)

abbrev pub is_negative : ℤ → Bool
is_negative (pos n) = false
is_negative (negsuc n) = true

-- The handlers SIG_DFL and SIG_IGN, and the address of a function.
pub data Handler : Type 0 where
  sig_dfl sig_ign : Handler
  address : ℕ → Handler

-- The fields of `struct Task` that the scheduler, the signals and the semaphores use. The words
-- `signal.sig` and `signal.pending` are their bits.
pub record Task : Type 0 where
  pub id : ℕ
  pub state : TaskState
  pub priority : ℕ
  pub counter : ℤ
  pub on : Option ListId
  pub on_alarm : Bool
  pub alarm : ℕ
  pub sleep : ℕ
  pub waiting_child : Bool
  pub sig : ℕ → Bool
  pub pending : ℕ → Bool
  pub action : ℕ → Handler
  pub time_user : ℕ
  pub time_kernel : ℕ

pub record Sched : Type 0 where
  pub tasks : ℕ → Task
  pub lists : ListId → List ℕ
  pub alarms : List ℕ
  pub curr : ℕ
  pub jiffies : ℕ

abbrev pub put_task : Sched → ℕ → Task → Sched
put_task s t v = record s { tasks = λ u. if t == u then v else s.tasks u }

abbrev pub put_list : Sched → ListId → List ℕ → Sched
put_list s q xs = record s { lists = λ r. if list_eq q r then xs else s.lists r }

abbrev pub on_list : Option ListId → ListId → Bool
on_list none q = false
on_list (some r) q = list_eq r q

abbrev pub is_free : Option ListId → Bool
is_free none = true
is_free (some r) = false

infixl 5 ◌>>=◌
abbrev pub ◌>>=◌ : {A B : Type 0} → Option A → (A → Option B) → Option B
none >>= f = none
some a >>= f = f a

-- ASSERT(b)
abbrev pub assert : Bool → Option (Unit {0})
assert true = some tt
assert false = none

infixl 5 ◌>>◌
abbrev pub ◌>>◌ : {B : Type 0} → Option (Unit {0}) → Option B → Option B
m >> k = m >>= λ _. k

-- List::insert at the place behind `before`, in front of `behind`: `none` is `error()`.
unfoldable pub insert_between : Sched → ListId → List ℕ → List ℕ → ℕ → Option Sched
insert_between s q before behind t =
    if is_free (s.tasks t).on
    then some
        (put_list (put_task s t (record (s.tasks t) { on = some q })) q (before ++ t ∷ behind))
    else none

-- List::push_back
unfoldable pub push_back : Sched → ListId → ℕ → Option Sched
unfolding insert_between
push_back s q t = insert_between s q (s.lists q) [] t

-- List::erase
unfoldable pub erase : Sched → ListId → ℕ → Option Sched
erase s q t =
    if on_list (s.tasks t).on q
    then some (put_list (put_task s t (record (s.tasks t) { on = none })) q (without t (s.lists q)))
    else none

-- A call whose result is not looked at: `error()` leaves everything as it was.
abbrev pub or_same : Sched → Option Sched → Sched
or_same s none = s
or_same s (some s') = s'

abbrev pub head? : List ℕ → Option ℕ
head? [] = none
head? (x ∷ xs) = some x

-- List::pop_front; the list's own node, which stands for the end, is not taken out.
unfoldable pub pop_front : Sched → ListId → Option Sched
unfolding erase
pop_front s q = elim (head? (s.lists q)) [ none ↦ none | some t ↦ erase s q t ]
