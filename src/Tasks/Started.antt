-- ===== src/Tasks/Started.antt =====
-- The end of `do_fork` (kernel/task.cpp): the child gets its id and joins the scheduler.
use makarna_x.Base.{
  ℕ, ◌%◌, ◌≡◌, ◌≢◌, refl, sym, ap, ◌∙◌, inl, inr, true, none, some, List, [], ◌∷◌, ◌++◌, ◌==◌,
  arith, if◌then◌else◌, subst,
}
use makarna_x.DenemeFs.Store.{Outcome, done}
use makarna_x.Memory.Pages.{inc32}
use makarna_x.Hash.Table.{IdHashTable, put, get, is_free}
use makarna_x.Hash.Chains.{WellFormed, get-lookup}
use makarna_x.Hash.Laws.{put-get}
use makarna_x.Sched.State.{Sched, Task, put_task, running, runnable, ListId, list_eq}
use makarna_x.Sched.Consistent.{Consistent, Consistent-put_task}
use makarna_x.Sched.Runnable.{readied, add_to_runnable_list_lem, Consistent-readied}
use makarna_x.Sched.Queues.{add_to_runnable_list}
use makarna_x.Flow.{chain, must, branch_done, pure, halt, get as get_state, ◌>>=◌}
use makarna_x.Shm.Keys.{IsApart, lookup-new}
use makarna_x.Tasks.State.{Kernel, in_sched, sched_end}
use makarna_x.Tasks.Fork.{put_task_id, set_task_id, start_child}

-- The table with a new id for a node.
abbrev with_id : IdHashTable → ℕ → ℕ → IdHashTable
with_id t n id = record t { id = λ u. if n == u then id else t.id u }

WellFormed-with_id :
    (c : ℕ → List ℕ) (t : IdHashTable) (n id : ℕ) → WellFormed c t → WellFormed c (with_id t n id)
WellFormed-with_id c t n id h = record { chains = h.chains; taken = h.taken; bounded = h.bounded }

get-with_id :
    (c : ℕ → List ℕ) (t : IdHashTable) (n id key : ℕ)
    → IsApart c n
    → WellFormed c t
    → get key (with_id t n id) ≡ get key t
get-with_id c t n id key out h =
    get-lookup c (with_id t n id) key (WellFormed-with_id c t n id h)
    ∙ ap some (lookup-new t n id key (c (key % t.table_size)) (out (key % t.table_size)))
    ∙ sym (get-lookup c t key h)

put-with_id :
    (c : ℕ → List ℕ) (t : IdHashTable) (n id : ℕ)
    → IsApart c n
    → WellFormed c t
    → is_free t n ≡ true
    → get id t ≡ some none
    → (u : IdHashTable) × (put n (with_id t n id) ≡ (done tt, u))
      × (get id u ≡ some (some n))
      × ((key : ℕ) → id ≢ key → get key u ≡ get key t)
put-with_id c t n id out h free missing =
    let w = with_id t n id in
    let at : w.id n ≡ id = ground arith in
    elim (put-get c w n (WellFormed-with_id c t n id h) free) [
      | inl (i, found, run) ↦ absurd (
          cc (
            sym (subst (λ k. get k w ≡ some (some i)) at found)
            ∙ get-with_id c t n id id out h
            ∙ missing))
      | inr (u, gone, run, well, here, others) ↦ (
        u,
        run,
        subst (λ k. get k u ≡ some (some n)) at here,
        λ key apart. others key (λ e. apart (sym at ∙ e)) ∙ get-with_id c t n id key out h,
      )
    ]

readied_id : (s : Sched) (t : ℕ) (v : Task) → ((readied (put_task s t v) t).tasks t).id ≡ v.id
readied_id s t v = ground arith

readied_lists :
    (q : Sched) (t p : ℕ) (r : ListId)
    → (q.tasks t).priority ≡ p
    → (readied q t).lists r
      ≡ (if list_eq (runnable p) r then q.lists (runnable p) ++ t ∷ [] else q.lists r)
readied_lists q t p r e =
    ap (λ n. if list_eq (runnable n) r then q.lists (runnable n) ++ t ∷ [] else q.lists r) e

abbrev done_with : Kernel → ℕ → Outcome ℕ × Kernel
done_with w n = (done n, w)

-- The new task `t` is in no list and in no chain, and the next id is not in use.
pub record CanStart (c : ℕ → List ℕ) (t : ℕ) (s : Kernel) : Type 0 where
  pub ids : WellFormed c s.task_id_ht
  pub apart : IsApart c t
  pub new_node : is_free s.task_id_ht t ≡ true
  pub new_id : get s.next_task_id s.task_id_ht ≡ some none
  pub off : (s.sched.tasks t).on ≡ none
  pub lists : Consistent s.sched

-- The end of `do_fork`, from the registers of the child on. The lists are consistent and the table of ids
-- well formed; the child is in no list, its node is free and in no chain of the table, and no task has
-- the next id. Then the child gets that id, which finds it from then on and is the result, while every
-- other id finds what it found; it goes, running, to the end of the queue of its priority
-- and to the end of the children of the running task; every other list is as before, and the lists
-- stay consistent.
pub start_child_lem :
    (c : ℕ → List ℕ) (t : ℕ) (s : Kernel)
    → CanStart c t s
    → let ready = runnable (s.sched.tasks t).priority in
      (w : Kernel) × (start_child t s ≡ (done s.next_task_id, w))
      × (get s.next_task_id w.task_id_ht ≡ some (some t))
      × ((key : ℕ) → s.next_task_id ≢ key → get key w.task_id_ht ≡ get key s.task_id_ht)
      × ((r : ListId)
          → w.sched.lists r
            ≡ (if list_eq ready r then s.sched.lists ready ++ t ∷ [] else s.sched.lists r))
      × ((w.sched.tasks t).state ≡ running)
      × (w.childs s.sched.curr ≡ s.childs s.sched.curr ++ t ∷ [])
      × Consistent w.sched
unfolding start_child set_task_id
start_child_lem c t s can =
    let id = s.next_task_id in
    let ht = with_id s.task_id_ht t id in
    let (u, run, found, others) =
      put-with_id c s.task_id_ht t id can.apart can.ids can.new_node can.new_id in
    let q = put_task s.sched t (record (s.sched.tasks t) { id = id }) in
    let s1 = record s {
      time_start = λ x. if t == x then s.sched.jiffies else s.time_start x;
      childs = λ x. if s.sched.curr == x then s.childs x ++ t ∷ [] else s.childs x;
      sched = q;
      task_id_ht = ht;
      next_task_id = inc32 id;
    } in
    let s2 = record s1 { task_id_ht = u } in
    let off : (q.tasks t).on ≡ none = ground (arith, can.off) in
    let w = record s2 { sched = readied q t } in
    let rest = λ (x : Unit {0}). in_sched (λ p. add_to_runnable_list p t) >>= λ y.
    get_state >>= λ z. pure (z.sched.tasks t).id in
    (
      w,
      chain (must (put_task_id t)) rest s1 s2 tt (
            branch_done (put_task_id t) pure (λ n. halt) s1 s2 tt
              (ap (λ (r : Outcome (Unit {0}) × IdHashTable). (r.0, record s1 { task_id_ht = r.1 }))
                run))
          ∙ chain (in_sched (λ p. add_to_runnable_list p t))
              (λ y. get_state >>= λ z. pure (z.sched.tasks t).id) s2 w tt
              (ap (sched_end s2) (add_to_runnable_list_lem q t off))
          ∙ ap (done_with w) (readied_id s.sched t (record (s.sched.tasks t) { id = id })),
      found,
      others,
      λ r. readied_lists q t (s.sched.tasks t).priority r (ground arith),
      ground arith,
      ground arith,
      Consistent-readied q t
          (Consistent-put_task s.sched t (record (s.sched.tasks t) { id = id }) can.lists refl
            (can.lists.placed t))
          off,
    )
