-- ===== src/DenemeFs/Entries.antt =====
-- The loops over a directory's slots and over the table, without the table's contents:
-- `find_entry`, `clear_entry` and `find_from` of DenemeFs/Dir.antt.
use makarna_x.Base.{
  ℕ, zero, suc, ◌+◌, ◌≤◌, ◌<◌, ◌≡◌, ◌≢◌, refl, ◌↔◌, ◌⊎◌, inl, inr, true, none, some, List, [], ◌∷◌,
  ◌++◌, ◌==◌, if◌then◌else◌, length, arith, Bool-cases, is_some,
}
use makarna_x.DenemeFs.Store.{Name, name_eq, Entry, Table}
use makarna_x.DenemeFs.Dir.{find_from, find_entry, clear_entry}

pub name_eq_refl : (a : Name) → name_eq a a ≡ true
name_eq_refl [] = refl
name_eq_refl (x ∷ xs) = ground (arith, name_eq_refl xs)

pub eq_of_name_eq : (a b : Name) → name_eq a b ≡ true → a ≡ b
eq_of_name_eq [] [] h = refl
eq_of_name_eq [] (y ∷ ys) h = cc
eq_of_name_eq (x ∷ xs) [] h = cc
eq_of_name_eq (x ∷ xs) (y ∷ ys) h = ground (arith, eq_of_name_eq xs ys)

pub name_eq_iff : (a b : Name) → (name_eq a b ≡ true) ↔ (a ≡ b)
name_eq_iff a b = (eq_of_name_eq a b, λ e. ground (arith, name_eq_refl a))

-- An entry at the end is found by its name if no slot before it has that name.
pub find_entry-push :
    (es : List Entry) (e : Entry) (name : Name)
    → find_entry es e.name ≡ none
    → find_entry (es ++ e ∷ []) name
      ≡ (if name_eq e.name name then some e.no else find_entry es name)
unfolding find_entry
find_entry-push [] e name h = refl
find_entry-push (x ∷ es) e name h = ground (
  arith,
  find_entry-push es e name,
  name_eq_iff x.name name,
  name_eq_iff e.name name,
  name_eq_iff x.name e.name,
)

-- No two slots have one name, but for the empty one.
abbrev pub DistinctNames : List Entry → Type 0
DistinctNames [] = Unit {0}
DistinctNames (e ∷ es) = ((e.name ≡ []) ⊎ (find_entry es e.name ≡ none)) × DistinctNames es

-- What `clear_entry` leaves, where there is an entry of that name.
pub cleared : List Entry → Name → List Entry
cleared [] name = []
cleared (e ∷ es) name =
    if name_eq e.name name then record { no = 0; name = [] } ∷ es else e ∷ cleared es name

pub clear_entry-cleared :
    (es : List Entry) (name : Name)
    → clear_entry es name ≡ (if is_some (find_entry es name) then some (cleared es name) else none)
unfolding find_entry clear_entry cleared
clear_entry-cleared [] name = refl
clear_entry-cleared (e ∷ es) name = ground (arith, clear_entry-cleared es name)

pub length-cleared : (es : List Entry) (name : Name) → length (cleared es name) ≡ length es
unfolding cleared
length-cleared [] name = refl
length-cleared (e ∷ es) name = ground (arith, length-cleared es name)

-- Another name is found as before.
pub find_entry-cleared_ne :
    (es : List Entry) (name other : Name)
    → name ≢ other
    → other ≢ []
    → find_entry (cleared es name) other ≡ find_entry es other
unfolding find_entry cleared
find_entry-cleared_ne [] name other h k = refl
find_entry-cleared_ne (e ∷ es) name other h k = ground (
  arith,
  find_entry-cleared_ne es name other,
  name_eq_iff e.name name,
  name_eq_iff e.name other,
  name_eq_iff [] other,
)

-- The name itself is found no more.
pub find_entry-cleared :
    (es : List Entry) (name : Name)
    → name ≢ []
    → DistinctNames es
    → find_entry (cleared es name) name ≡ none
unfolding find_entry cleared
find_entry-cleared [] name h d = refl
find_entry-cleared (e ∷ es) name h d =
    ground (arith, find_entry-cleared es name, name_eq_iff e.name name, name_eq_iff [] name)

find_entry-cleared-none :
    (es : List Entry) (name other : Name)
    → other ≢ []
    → find_entry es other ≡ none
    → find_entry (cleared es name) other ≡ none
unfolding find_entry cleared
find_entry-cleared-none [] name other plain h = refl
find_entry-cleared-none (e ∷ es) name other plain h =
    ground (arith, find_entry-cleared-none es name other plain, name_eq_iff [] other)

pub DistinctNames-cleared :
    (es : List Entry) (name : Name) → DistinctNames es → DistinctNames (cleared es name)
unfolding cleared
DistinctNames-cleared [] name d = tt
DistinctNames-cleared (e ∷ es) name d = elim (Bool-cases (name_eq e.name [])) [
  | inl nameless ↦
      ground (arith, DistinctNames-cleared es name d.1, eq_of_name_eq e.name [] nameless)
  | inr plain ↦ ground (
    arith,
    DistinctNames-cleared es name d.1,
    name_eq_iff e.name [],
    find_entry-cleared-none es name e.name,
  )
]

-- The slots that `find_from` passes over are in use, and the one it returns is free.
pub find_from-some :
    (k i n : ℕ) (di : Table)
    → find_from k i di ≡ some n
    → (i ≤ n) × (n < i + k) × ((di n).nlinks ≡ 0)
unfolding find_from
find_from-some zero i n di h = cc
find_from-some (suc k) i n di h = elim (Bool-cases ((di i).nlinks == 0)) [
  | inl free ↦ ground arith
  | inr used ↦ ground (arith, find_from-some k (i + 1) n di)
]

pub find_from-none :
    (k i n : ℕ) (di : Table) → find_from k i di ≡ none → i ≤ n → n < i + k → (di n).nlinks ≢ 0
unfolding find_from
find_from-none zero i n di h p q = absurd (omega arith)
find_from-none (suc k) i n di h p q = elim (Bool-cases (i == n)) [
  | inl here ↦ ground arith
  | inr further ↦ ground (arith, find_from-none k (i + 1) n di)
]
