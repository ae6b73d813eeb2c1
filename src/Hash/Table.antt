-- ===== src/Hash/Table.antt =====
-- The functions of include/wmc/idhashtable.h. A node is an address; `stop` is a write through the pointer
-- 0xffffffff, or a chain without an end.
use makarna_x.Base.{
  ℕ, zero, suc, ◌-◌, ◌%◌, Bool, true, false, ◌&&◌, not, Option, none, some, ◌==◌, if◌then◌else◌,
  is_some,
}
use makarna_x.DenemeFs.Store.{Outcome, done, fails, stop}

-- `__prev`: NULL, 0xffffffff or a node.
pub data Link : Type 0 where
  null all_ones : Link
  node : ℕ → Link

abbrev pub is_null : Link → Bool
is_null null = true
is_null all_ones = false
is_null (node n) = false

-- The table and its nodes, each with its id.
pub record IdHashTable : Type 0 where
  pub table : ℕ → Option ℕ
  pub table_size : ℕ
  pub count : ℕ
  pub prev : ℕ → Link
  pub next : ℕ → Option ℕ
  pub id : ℕ → ℕ

abbrev pub is_free : IdHashTable → ℕ → Bool
is_free t n = is_null (t.prev n) && not (is_some (t.next n))

-- The loops of `put` and `get` along a chain, with the rounds left.
unfoldable pub find : ℕ → (ℕ → Option ℕ) → (ℕ → ℕ) → ℕ → Option ℕ → Option (Option ℕ)
find zero next id key cur = none
find (suc k) next id key none = some none
find (suc k) next id key (some i) =
    let rest = find k next id key (next i) in if id i == key then some (some i) else rest

abbrev pub set_prev : (ℕ → Link) → ℕ → Link → ℕ → Link
set_prev prev n v m = if n == m then v else prev m

abbrev pub set_next : (ℕ → Option ℕ) → ℕ → Option ℕ → ℕ → Option ℕ
set_next next n v m = if n == m then v else next m

abbrev pub set_head : (ℕ → Option ℕ) → ℕ → Option ℕ → ℕ → Option ℕ
set_head table hash v b = if hash == b then v else table b

-- The node in front of the first one of the chain, or alone.
abbrev pub link_in : IdHashTable → ℕ → Option ℕ → IdHashTable
link_in t n none = record t { prev = set_prev t.prev n all_ones }
link_in t n (some i) = record t {
  next = set_next t.next n (some i);
  prev = set_prev t.prev i (node n);
}

-- The end of `put`, by what the loop has found.
abbrev pub put_found : ℕ → IdHashTable → Option (Option ℕ) → Outcome (Unit {0}) × IdHashTable
put_found n t none = (stop, t)
put_found n t (some (some i)) = (fails 1, t)
put_found n t (some none) =
    let hash = t.id n % t.table_size in
    let u = link_in t n (t.table hash) in
    (done tt, record u { table = set_head t.table hash (some n); count = suc t.count })

-- A chain has at most `__count` nodes.
unfoldable pub put : ℕ → IdHashTable → Outcome (Unit {0}) × IdHashTable
put n t =
    if is_free t n
    then put_found n t (find (suc t.count) t.next t.id (t.id n) (t.table (t.id n % t.table_size)))
    else (fails 1, t)

unfoldable pub get : ℕ → IdHashTable → Option (Option ℕ)
get key t = find (suc t.count) t.next t.id key (t.table (key % t.table_size))

-- if (n->__next) n->__next->__prev = n->__prev
abbrev pub unlink_next : IdHashTable → ℕ → Option ℕ → IdHashTable
unlink_next t n none = t
unlink_next t n (some m) = record t { prev = set_prev t.prev m (t.prev n) }

-- The end of `remove`.
abbrev pub unlinked : ℕ → IdHashTable → IdHashTable
unlinked n t =
    let u = unlink_next t n (t.next n) in
    record u { prev = set_prev u.prev n null; next = set_next u.next n none; count = t.count - 1 }

abbrev pub is_node : Option ℕ → ℕ → Bool
is_node none n = false
is_node (some m) n = m == n

unfoldable pub remove : ℕ → IdHashTable → Outcome (Unit {0}) × IdHashTable
remove n t = elim (t.prev n) [
  | all_ones ↦ (stop, t)
  | node p ↦ (done tt, unlinked n (record t { next = set_next t.next p (t.next n) }))
  | null ↦
      let hash = t.id n % t.table_size in
      if is_node (t.table hash) n
      then (done tt, unlinked n (record t { table = set_head t.table hash (t.next n) }))
      else (fails 1, t)
]
