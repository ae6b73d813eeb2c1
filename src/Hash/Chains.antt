-- ===== src/Hash/Chains.antt =====
-- The chains of the hash table, and `put` on them.
use makarna_x.Base.{
  ℕ, zero, suc, ◌%◌, ◌<◌, ◌≤◌, ◌≡◌, ◌≢◌, refl, sym, ap, inl, inr, true, false, Option, none, some,
  List, [], ◌∷◌, ◌==◌, if◌then◌else◌, length, has, arith, Bool-cases, ==_refl, subst,
}
use makarna_x.Hash.Table.{IdHashTable, is_free, find, link_in, put_found, set_head, put, get}

-- The nodes of a chain, from a first one on.
abbrev pub IsChain : (ℕ → Option ℕ) → Option ℕ → List ℕ → Type 0
IsChain next o [] = o ≡ none
IsChain next o (n ∷ ns) = (o ≡ some n) × IsChain next (next n) ns

-- The first node with an id.
abbrev pub lookup : (ℕ → ℕ) → ℕ → List ℕ → Option ℕ
lookup id key [] = none
lookup id key (n ∷ ns) = if id n == key then some n else lookup id key ns

-- The chains of the table: a node in none is free, and one in some is in that of its id alone.
pub record WellFormed (c : ℕ → List ℕ) (t : IdHashTable) : Type 0 where
  pub chains : (b : ℕ) → IsChain t.next (t.table b) (c b)
  pub taken : (b n : ℕ) → has n (c b) ≡ true → is_free t n ≡ false
  pub bounded : (b : ℕ) → length (c b) ≤ t.count

pub find-lookup :
    (k key : ℕ) (next : ℕ → Option ℕ) (id : ℕ → ℕ) (o : Option ℕ) (ns : List ℕ)
    → IsChain next o ns
    → length ns < k
    → find k next id key o ≡ some (lookup id key ns)
unfolding find
find-lookup zero key next id o ns chain less = absurd (omega (arith, less))
find-lookup (suc k) key next id o [] chain less = rw chain refl
find-lookup (suc k) key next id o (n ∷ ns) (e, chain) less =
    let rest = find-lookup k key next id (next n) ns chain (omega (arith, less)) in
    rw e (ground (arith, rest))

pub get-lookup :
    (c : ℕ → List ℕ) (t : IdHashTable) (key : ℕ)
    → WellFormed c t
    → get key t ≡ some (lookup t.id key (c (key % t.table_size)))
unfolding get
get-lookup c t key h =
    find-lookup (suc t.count) key t.next t.id (t.table (key % t.table_size))
      (c (key % t.table_size)) (h.chains (key % t.table_size))
      (let b = h.bounded (key % t.table_size) in omega (arith, b))

-- A node that is not in a chain may change its `next`.
pub IsChain-other :
    (next next' : ℕ → Option ℕ) (o : Option ℕ) (ns : List ℕ)
    → ((m : ℕ) → has m ns ≡ true → next' m ≡ next m)
    → IsChain next o ns
    → IsChain next' o ns
IsChain-other next next' o [] same chain = chain
IsChain-other next next' o (n ∷ ns) same (e, chain) = (
  e,
  subst (λ q. IsChain next' q ns) (sym (same n (ground arith)))
      (IsChain-other next next' (next n) ns (λ m a. same m (ground (arith, a))) chain),
)

-- The chains with a node more in front of one.
abbrev pub added : (ℕ → List ℕ) → ℕ → ℕ → ℕ → List ℕ
added c hash n b = if hash == b then n ∷ c b else c b

-- What `link_in` does to the links.
pub record Linked (t u : IdHashTable) (n : ℕ) (o : Option ℕ) : Type 0 where
  pub others : (m : ℕ) → n ≢ m → u.next m ≡ t.next m
  pub self : u.next n ≡ o
  pub busy : is_free u n ≡ false
  pub kept : (m : ℕ) → n ≢ m → is_free t m ≡ false → is_free u m ≡ false
  pub same : (u.table ≡ t.table) × (u.id ≡ t.id) × (u.table_size ≡ t.table_size)

pub Linked-link_in :
    (t : IdHashTable) (n : ℕ) (o : Option ℕ) → is_free t n ≡ true → Linked t (link_in t n o) n o
Linked-link_in t n none free = record {
  others = λ m apart. refl;
  self = ground (arith, free);
  busy = ground arith;
  kept = λ m apart busy. ground (arith, apart, busy);
  same = (refl, refl, refl);
}
Linked-link_in t n (some i) free = record {
  others = λ m apart. ground (arith, apart);
  self = ground arith;
  busy = ground arith;
  kept = λ m apart busy. ground (arith, apart, busy);
  same = (refl, refl, refl);
}

-- The state after `put` of a node.
abbrev pub with_node : IdHashTable → ℕ → IdHashTable
with_node t n = (put_found n t (some none)).1

pub put_lem :
    (c : ℕ → List ℕ) (t : IdHashTable) (n : ℕ)
    → WellFormed c t
    → is_free t n ≡ true
    → put n t ≡ put_found n t (some (lookup t.id (t.id n) (c (t.id n % t.table_size))))
unfolding put
put_lem c t n h free =
    let hash = t.id n % t.table_size in
    let b = h.bounded hash in
    rw free (
      ap (put_found n t) (
        find-lookup (suc t.count) (t.id n) t.next t.id (t.table hash) (c hash) (h.chains hash)
          (omega (arith, b))))

-- A free node is in no chain.
pub absent :
    (c : ℕ → List ℕ) (t : IdHashTable) (n b m : ℕ)
    → WellFormed c t
    → is_free t n ≡ true
    → has m (c b) ≡ true
    → n ≢ m
absent c t n b m h free listed same = ground (arith, h.taken b m listed, free, same)

pub IsChain-kept :
    (c : ℕ → List ℕ) (t : IdHashTable) (n b : ℕ) (o : Option ℕ)
    → WellFormed c t
    → is_free t n ≡ true
    → IsChain (link_in t n o).next (t.table b) (c b)
IsChain-kept c t n b o h free =
    let l = Linked-link_in t n o free in
    IsChain-other t.next (link_in t n o).next (t.table b) (c b)
      (λ m listed. l.others m (absent c t n b m h free listed)) (h.chains b)

pub WellFormed-with_node :
    (c : ℕ → List ℕ) (t : IdHashTable) (n : ℕ)
    → WellFormed c t
    → is_free t n ≡ true
    → WellFormed (added c (t.id n % t.table_size) n) (with_node t n)
WellFormed-with_node c t n h free =
    let hash = t.id n % t.table_size in
    let o = t.table hash in
    let l = Linked-link_in t n o free in
    record {
      chains = λ b. elim (Bool-cases (hash == b)) [
        | inl same ↦
            let e : hash ≡ b = ground (arith, same) in
            subst
              (λ d.
                IsChain (link_in t n o).next (set_head t.table hash (some n) d) (added c hash n d))
              e
              (rw (==_refl hash) (
                refl,
                subst (λ q. IsChain (link_in t n o).next q (c hash)) (sym l.self)
                    (IsChain-kept c t n hash o h free),
              ))
        | inr other ↦ rw other (IsChain-kept c t n b o h free)
      ];
      taken = λ b m listed. elim (Bool-cases (n == m)) [
        | inl same ↦
            let e : n ≡ m = ground (arith, same) in
            subst (λ d. is_free (link_in t n o) d ≡ false) e l.busy
        | inr other ↦ l.kept m (ground (arith, other)) (h.taken b m (ground (arith, listed, other)))
      ];
      bounded = λ b. let e = h.bounded b in ground (arith, e);
    }
