-- ===== src/Hash/Laws.antt =====
-- The hash table of ids as a finite map: `put` against `get`, and `remove`.
use makarna_x.Base.{
  ℕ, ◌%◌, ◌≡◌, ◌≢◌, refl, sym, ap, ◌∙◌, ◌⊎◌, inl, inr, true, none, some, List, arith, List-cases,
  Option-cases, subst,
}
use makarna_x.DenemeFs.Store.{done, fails, stop}
use makarna_x.Hash.Table.{all_ones, IdHashTable, is_free, link_in, put_found, put, get, remove}
use makarna_x.Hash.Chains.{
  IsChain, lookup, WellFormed, get-lookup, added, Linked-link_in, with_node, put_lem,
  WellFormed-with_node,
}

get-with_node :
    (c : ℕ → List ℕ) (t : IdHashTable) (n key : ℕ)
    → WellFormed c t
    → is_free t n ≡ true
    → get key (with_node t n)
      ≡ some (lookup t.id key (added c (t.id n % t.table_size) n (key % t.table_size)))
get-with_node c t n key h free =
    let hash = t.id n % t.table_size in
    let u = link_in t n (t.table hash) in
    let (tables, ids, sizes) = (Linked-link_in t n (t.table hash) free).same in
    get-lookup (added c hash n) (with_node t n) key (WellFormed-with_node c t n h free)
    ∙ ap (λ f. some (lookup f key (added c hash n (key % u.table_size)))) ids
    ∙ ap (λ m. some (lookup t.id key (added c hash n (key % m)))) sizes

lookup-added :
    (c : ℕ → List ℕ) (t : IdHashTable) (n key : ℕ)
    → t.id n ≢ key
    → lookup t.id key (added c (t.id n % t.table_size) n (key % t.table_size))
      ≡ lookup t.id key (c (key % t.table_size))
lookup-added c t n key apart = ground (arith, apart)

-- In a well-formed table, for a node that is free: where `get` finds a node with its id, `put`
-- fails and changes nothing. Else `get` finds none, `put` succeeds, the table is well-formed with
-- the node in front of its chain, `get` of its id gives it, and `get` of any other id gives what
-- it gave before.
pub put-get :
    (c : ℕ → List ℕ) (t : IdHashTable) (n : ℕ)
    → WellFormed c t
    → is_free t n ≡ true
    → ((i : ℕ) × (get (t.id n) t ≡ some (some i)) × (put n t ≡ (fails 1, t)))
      ⊎ ((t' : IdHashTable) × (get (t.id n) t ≡ some none)
          × (put n t ≡ (done tt, t'))
          × WellFormed (added c (t.id n % t.table_size) n) t'
          × (get (t.id n) t' ≡ some (some n))
          × ((key : ℕ) → t.id n ≢ key → get key t' ≡ get key t))
put-get c t n h free =
    let hash = t.id n % t.table_size in
    let run = put_lem c t n h free in
    let found = get-lookup c t (t.id n) h in
    elim (Option-cases (lookup t.id (t.id n) (c hash))) [
      | inr (i, e) ↦ inl (i, found ∙ ap some e, run ∙ ap (λ o. put_found n t (some o)) e)
      | inl e ↦
          let t' = with_node t n in
          let h' = WellFormed-with_node c t n h free in
          inr (
            t',
            found ∙ ap some e,
            run ∙ ap (λ o. put_found n t (some o)) e,
            h',
            get-with_node c t n (t.id n) h free ∙ ground arith,
            λ key apart.
                get-with_node c t n key h free
                ∙ ap (λ o. some o) (lookup-added c t n key apart)
                ∙ sym (get-lookup c t key h),
          )
    ]

remove_bad : (t : IdHashTable) (n : ℕ) → t.prev n ≡ all_ones → (remove n t).0 ≡ stop
unfolding remove
remove_bad t n e = rw (remove, e) refl

lookup-none :
    (c : ℕ → List ℕ) (t : IdHashTable) (b key : ℕ)
    → WellFormed c t
    → t.table b ≡ none
    → lookup t.id key (c b) ≡ none
lookup-none c t b key h empty = elim (List-cases (c b)) [
  | inl nil ↦ ground (arith, nil)
  | inr (x, xs, e) ↦
      let chain = subst (IsChain t.next (t.table b)) e (h.chains b) in
      absurd (ground (arith, chain.0, empty))
]

-- In a well-formed table, `put` of a free node into an empty chain succeeds, and `remove` of that
-- node then stops: it writes through the pointer 0xffffffff that `put` has left in the node.
pub put-remove :
    (c : ℕ → List ℕ) (t : IdHashTable) (n : ℕ)
    → WellFormed c t
    → is_free t n ≡ true
    → t.table (t.id n % t.table_size) ≡ none
    → (t' : IdHashTable) × (put n t ≡ (done tt, t')) × ((remove n t').0 ≡ stop)
put-remove c t n h free empty =
    let hash = t.id n % t.table_size in
    let marked : (link_in t n (t.table hash)).prev n ≡ all_ones =
      subst (λ o. (link_in t n o).prev n ≡ all_ones) (sym empty) (ground arith) in
    (
      with_node t n,
      put_lem c t n h free
          ∙ ap (λ o. put_found n t (some o)) (lookup-none c t hash (t.id n) h empty),
      remove_bad (with_node t n) n marked,
    )
