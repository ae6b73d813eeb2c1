-- ===== src/Hash/Tests.antt =====
-- Runs of the hash table, and the theorems at them.
use makarna_x.Base.{ℕ, ◌+◌, ◌≡◌, ◌≢◌, refl, ◌⊎◌, none, some, [], arith}
use makarna_x.DenemeFs.Store.{done, fails}
use makarna_x.Hash.Table.{null, IdHashTable, put, get}
use makarna_x.Hash.Laws.{put-get}
use makarna_x.Hash.Chains.{WellFormed, added}

-- No node in four chains; the id of the node n is n + 10.
abbrev empty : IdHashTable
empty = record {
  table = λ b. none;
  table_size = 4;
  count = 0;
  prev = λ n. null;
  next = λ n. none;
  id = λ n. n + 10;
}

empty-WellFormed : WellFormed (λ b. []) empty
empty-WellFormed = record {
  chains = λ b. refl;
  taken = λ b n listed. absurd (ground (arith, listed));
  bounded = λ b. omega arith;
}

put-get_example :
    ((i : ℕ) × (get 13 empty ≡ some (some i)) × (put 3 empty ≡ (fails 1, empty)))
    ⊎ ((t : IdHashTable) × (get 13 empty ≡ some none)
        × (put 3 empty ≡ (done tt, t))
        × WellFormed (added (λ b. []) 1 3) t
        × (get 13 t ≡ some (some 3))
        × ((key : ℕ) → 13 ≢ key → get key t ≡ get key empty))
put-get_example = put-get (λ b. []) empty 3 empty-WellFormed refl
