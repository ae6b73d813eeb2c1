-- ===== src/Sched/Consistent.antt =====
-- The invariant of the task lists of Sched/State.antt, and that the operations of a list keep it.
use makarna_x.Base.{
  ℕ, ◌≡◌, refl, ◌↔◌, true, false, none, some, List, [], ◌∷◌, ◌++◌, arith, has, Distinct, has-append,
  without, has-without_ne, has-without_self, Distinct-without, subst,
}
use makarna_x.Sched.State.{
  running, ListId, runnable, sleeping, zombies, waiting, list_eq, Task, Sched, put_task, put_list,
  insert_between, erase,
}

eq_of_list_eq : (q r : ListId) → list_eq q r ≡ true → q ≡ r
eq_of_list_eq (runnable p) (runnable q) h = ground arith
eq_of_list_eq (runnable p) sleeping h = cc
eq_of_list_eq (runnable p) zombies h = cc
eq_of_list_eq (runnable p) (waiting q) h = cc
eq_of_list_eq sleeping (runnable q) h = cc
eq_of_list_eq sleeping sleeping h = refl
eq_of_list_eq sleeping zombies h = cc
eq_of_list_eq sleeping (waiting q) h = cc
eq_of_list_eq zombies (runnable q) h = cc
eq_of_list_eq zombies sleeping h = cc
eq_of_list_eq zombies zombies h = refl
eq_of_list_eq zombies (waiting q) h = cc
eq_of_list_eq (waiting p) (runnable q) h = cc
eq_of_list_eq (waiting p) sleeping h = cc
eq_of_list_eq (waiting p) zombies h = cc
eq_of_list_eq (waiting p) (waiting q) h = ground arith

list_eq_refl : (q : ListId) → list_eq q q ≡ true
list_eq_refl (runnable p) = ground arith
list_eq_refl sleeping = refl
list_eq_refl zombies = refl
list_eq_refl (waiting p) = ground arith

pub list_eq_iff : (q r : ListId) → (list_eq q r ≡ true) ↔ (q ≡ r)
list_eq_iff q r = (eq_of_list_eq q r, λ e. subst (λ x. list_eq q x ≡ true) e (list_eq_refl q))

-- A task that stands in a runnable queue is running, and of the queue's priority.
abbrev pub IsPlaced : Task → Type 0
IsPlaced v = (p : ℕ) → v.on ≡ some (runnable p) → (v.state ≡ running) × (v.priority ≡ p)

-- A list holds a task exactly when the task's node says so, and once.
pub record Consistent (s : Sched) : Type 0 where
  pub listed : (q : ListId) (t : ℕ) → has t (s.lists q) ≡ true → (s.tasks t).on ≡ some q
  pub on_listed : (q : ListId) (t : ℕ) → (s.tasks t).on ≡ some q → has t (s.lists q) ≡ true
  pub distinct : (q : ListId) → Distinct (s.lists q)
  pub placed : (t : ℕ) → IsPlaced (s.tasks t)

-- A change of a task that leaves its node.
pub Consistent-put_task :
    (s : Sched) (t : ℕ) (v : Task)
    → Consistent s
    → v.on ≡ (s.tasks t).on
    → IsPlaced v
    → Consistent (put_task s t v)
Consistent-put_task s t v c same p = record {
  listed = λ q u h. ground (arith, c.listed q u);
  on_listed = λ q u h. ground (arith, c.on_listed q u);
  distinct = c.distinct;
  placed = λ u r h. ground (arith, c.placed u r, p r);
}

Distinct-insert :
    (xs ys : List ℕ) (t : ℕ)
    → Distinct (xs ++ ys)
    → has t (xs ++ ys) ≡ false
    → Distinct (xs ++ t ∷ ys)
Distinct-insert [] ys t d h = (h, d)
Distinct-insert (x ∷ xs) ys t d h =
    ground (arith, Distinct-insert xs ys t d.1, has-append x xs ys, has-append x xs (t ∷ ys))

abbrev pub inserted : Sched → ListId → List ℕ → List ℕ → ℕ → Sched
inserted s q before behind t =
    put_list (put_task s t (record (s.tasks t) { on = some q })) q (before ++ t ∷ behind)

pub insert_between_lem :
    (s : Sched) (q : ListId) (before behind : List ℕ) (t : ℕ)
    → (s.tasks t).on ≡ none
    → insert_between s q before behind t ≡ some (inserted s q before behind t)
unfolding insert_between
insert_between_lem s q before behind t h = rw h

pub Consistent-inserted :
    (s : Sched) (q : ListId) (before behind : List ℕ) (t : ℕ)
    → Consistent s
    → before ++ behind ≡ s.lists q
    → (s.tasks t).on ≡ none
    → IsPlaced (record (s.tasks t) { on = some q })
    → Consistent (inserted s q before behind t)
Consistent-inserted s q before behind t c split free p = record {
  listed = λ r u h. ground (
    arith,
    c.listed r u,
    c.listed q u,
    list_eq_iff q r,
    has-append u before (t ∷ behind),
    has-append u before behind,
  );
  on_listed = λ r u h. ground (
    arith,
    c.on_listed r u,
    c.on_listed q u,
    list_eq_iff q r,
    has-append u before (t ∷ behind),
    has-append u before behind,
  );
  distinct = λ r. ground (
    arith,
    c.distinct r,
    c.distinct q,
    c.listed q t,
    list_eq_iff q r,
    Distinct-insert before behind t,
  );
  placed = λ u r h. ground (arith, c.placed u r, p r);
}

abbrev pub erased : Sched → ListId → ℕ → Sched
erased s q t = put_list (put_task s t (record (s.tasks t) { on = none })) q (without t (s.lists q))

pub erase_lem :
    (s : Sched) (q : ListId) (t : ℕ) → (s.tasks t).on ≡ some q → erase s q t ≡ some (erased s q t)
unfolding erase
erase_lem s q t h = rw (h, list_eq_refl q)

pub Consistent-erased :
    (s : Sched) (q : ListId) (t : ℕ)
    → Consistent s
    → (s.tasks t).on ≡ some q
    → Consistent (erased s q t)
Consistent-erased s q t c here = record {
  listed = λ r u h. ground (
    arith,
    c.listed r u,
    c.listed q u,
    list_eq_iff q r,
    has-without_self t (s.lists q) (c.distinct q),
    has-without_ne t u (s.lists q),
  );
  on_listed = λ r u h.
      ground
        (arith, c.on_listed r u, c.on_listed q u, list_eq_iff q r, has-without_ne t u (s.lists q));
  distinct = λ r.
      ground (arith, c.distinct r, c.distinct q, list_eq_iff q r, Distinct-without t (s.lists q));
  placed = λ u r h. ground (arith, c.placed u r);
}
