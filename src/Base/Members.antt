-- ===== src/Base/Members.antt =====
-- Lists of indices, each at most once.
use Prim.Native.Nat.{ℕ}
use mathlib.Core.Path.{◌≡◌, refl}
use mathlib.Core.Logic.{◌≢◌}
use mathlib.Core.Bool.{Bool, false, ◌||◌}
use mathlib.Core.List.{List, [], ◌∷◌, ◌++◌}
use native.Mathlib.Omega.{arith}
use makarna_x.Base.Tests.{◌==◌, if◌then◌else◌}

abbrev pub has : ℕ → List ℕ → Bool
has i [] = false
has i (x ∷ xs) = (i == x) || has i xs

abbrev pub Distinct : List ℕ → Type 0
Distinct [] = Unit {0}
Distinct (x ∷ xs) = (has x xs ≡ false) × Distinct xs

pub has-append : (i : ℕ) (xs ys : List ℕ) → has i (xs ++ ys) ≡ (has i xs || has i ys)
has-append i [] ys = refl
has-append i (x ∷ xs) ys = ground (arith, has-append i xs ys)

pub Distinct-push : (xs : List ℕ) (i : ℕ) → Distinct xs → has i xs ≡ false → Distinct (xs ++ i ∷ [])
Distinct-push [] i d h = (refl, tt)
Distinct-push (x ∷ xs) i d h = ground (arith, Distinct-push xs i, has-append x xs (i ∷ []))

-- The list without the first `i`.
abbrev pub without : ℕ → List ℕ → List ℕ
without i [] = []
without i (x ∷ xs) = if i == x then xs else x ∷ without i xs

pub has-without_ne : (i j : ℕ) (xs : List ℕ) → i ≢ j → has j (without i xs) ≡ has j xs
has-without_ne i j [] h = refl
has-without_ne i j (x ∷ xs) h = ground (arith, has-without_ne i j xs h)

pub has-without_self : (i : ℕ) (xs : List ℕ) → Distinct xs → has i (without i xs) ≡ false
has-without_self i [] d = refl
has-without_self i (x ∷ xs) d = ground (arith, has-without_self i xs d.1)

has-without-false : (i j : ℕ) (xs : List ℕ) → has j xs ≡ false → has j (without i xs) ≡ false
has-without-false i j [] h = refl
has-without-false i j (x ∷ xs) h = ground (arith, has-without-false i j xs)

pub Distinct-without : (i : ℕ) (xs : List ℕ) → Distinct xs → Distinct (without i xs)
Distinct-without i [] d = tt
Distinct-without i (x ∷ xs) d =
    ground (arith, Distinct-without i xs d.1, has-without-false i x xs d.0)
