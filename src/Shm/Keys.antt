-- ===== src/Shm/Keys.antt =====
-- New nodes in the hash tables of kernel/ipc/shared_memory.cpp.
use makarna_x.Base.{
  ℕ, ◌%◌, ◌≡◌, ◌≢◌, refl, sym, ap, ◌∙◌, inl, inr, true, false, Option, none, some, List, [], ◌∷◌,
  ◌==◌, arith, if◌then◌else◌, has, subst,
}
use makarna_x.DenemeFs.Store.{done}
use makarna_x.Hash.Table.{IdHashTable, is_free, put, get}
use makarna_x.Hash.Chains.{IsChain, lookup, WellFormed, get-lookup}
use makarna_x.Hash.Laws.{put-get}
use makarna_x.Flow.{chain}
use makarna_x.Shm.State.{new_node}

-- A node in no chain.
abbrev pub IsApart : (ℕ → List ℕ) → ℕ → Type 0
IsApart c a = (b : ℕ) → has a (c b) ≡ false

IsChain-new :
    (t : IdHashTable) (a id : ℕ) (o : Option ℕ) (ns : List ℕ)
    → has a ns ≡ false
    → IsChain t.next o ns
    → IsChain (new_node t a id).next o ns
IsChain-new t a id o [] out h = h
IsChain-new t a id o (n ∷ ns) out (e, chain) =
    let apart : (a == n) ≡ false = ground (arith, out) in
    (
      e,
      subst (λ x. IsChain (new_node t a id).next x ns)
          (ap (λ b. if b then none else t.next n) (sym apart))
          (IsChain-new t a id (t.next n) ns (ground (arith, out)) chain),
    )

-- A table stays well-formed when a node in no chain gets a new id.
pub WellFormed-new_node :
    (c : ℕ → List ℕ) (t : IdHashTable) (a id : ℕ)
    → IsApart c a
    → WellFormed c t
    → WellFormed c (new_node t a id)
WellFormed-new_node c t a id out h = record {
  chains = λ b. IsChain-new t a id (t.table b) (c b) (out b) (h.chains b);
  taken = λ b n listed.
      let apart : a ≢ n = λ e. absurd (ground (arith, out b, listed, e)) in
      ground (arith, h.taken b n listed, apart);
  bounded = h.bounded;
}

pub lookup-new :
    (t : IdHashTable) (a id key : ℕ) (ns : List ℕ)
    → has a ns ≡ false
    → lookup (new_node t a id).id key ns ≡ lookup t.id key ns
lookup-new t a id key [] out = refl
lookup-new t a id key (n ∷ ns) out =
    let apart : (a == n) ≡ false = ground (arith, out) in
    ground (arith, apart, lookup-new t a id key ns)

pub get-new_node :
    (c : ℕ → List ℕ) (t : IdHashTable) (a id key : ℕ)
    → IsApart c a
    → WellFormed c t
    → get key (new_node t a id) ≡ get key t
get-new_node c t a id key out h =
    get-lookup c (new_node t a id) key (WellFormed-new_node c t a id out h)
    ∙ ap some (lookup-new t a id key (c (key % t.table_size)) (out (key % t.table_size)))
    ∙ sym (get-lookup c t key h)

new_node-is_free : (t : IdHashTable) (a id : ℕ) → is_free (new_node t a id) a ≡ true
new_node-is_free t a id = ground arith

new_node-id : (t : IdHashTable) (a id : ℕ) → (new_node t a id).id a ≡ id
new_node-id t a id = ground arith

-- `put` of a new node whose id no node has.
pub put-new_node :
    (c : ℕ → List ℕ) (t : IdHashTable) (a id : ℕ)
    → IsApart c a
    → WellFormed c t
    → get id t ≡ some none
    → (u : IdHashTable) × (put a (new_node t a id) ≡ (done tt, u))
      × (get id u ≡ some (some a))
      × ((key : ℕ) → id ≢ key → get key u ≡ get key t)
put-new_node c t a id out h missing =
    let n = new_node t a id in
    let at = new_node-id t a id in
    elim (put-get c n a (WellFormed-new_node c t a id out h) (new_node-is_free t a id)) [
      | inl (i, found, run) ↦ absurd (
          cc (
            sym (subst (λ k. get k n ≡ some (some i)) at found)
            ∙ get-new_node c t a id id out h
            ∙ missing))
      | inr (u, gone, run, well, here, others) ↦ (
        u,
        run,
        subst (λ k. get k u ≡ some (some a)) at here,
        λ key apart. others key (λ e. apart (sym at ∙ e)) ∙ get-new_node c t a id key out h,
      )
    ]
