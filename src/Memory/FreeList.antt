-- ===== src/Memory/FreeList.antt =====
-- The free pages of Memory/Pages.antt as a queue: what the links of a well-formed list stand for,
-- and how the two ends change.
use makarna_x.Base.{
  ℕ, ◌+◌, ◌-◌, ◌<◌, ◌^◌, ◌≡◌, ◌≢◌, refl, true, false, Option, none, some, List, [], ◌∷◌, ◌++◌,
  arith, length, has, Distinct, ◌∙◌, ap, ==_refl,
}
use makarna_x.Memory.Pages.{Pages, set_next, field20, inc32, dec32, dec20, Memory}

abbrev pub first : List ℕ → Option ℕ
first [] = none
first (x ∷ xs) = some x

abbrev pub last_or : ℕ → List ℕ → ℕ
last_or x [] = x
last_or x (y ∷ ys) = last_or y ys

abbrev pub last : List ℕ → Option ℕ
last [] = none
last (x ∷ xs) = some (last_or x xs)

-- The index that a page's link holds: that of the next page, or 0.
abbrev pub next_of : List ℕ → ℕ
next_of [] = 0
next_of (x ∷ xs) = x

-- A page that stands in the list.
pub record IsFreePage (pages : Pages) (i : ℕ) : Type 0 where
  pub free : (pages i).free ≡ true
  pub ne_zero : i ≢ 0
  pub small : i < 2 ^ 20

abbrev pub Chain : Pages → List ℕ → Type 0
Chain pages [] = Unit {0}
Chain pages (x ∷ xs) = IsFreePage pages x × ((pages x).next_or_ref ≡ next_of xs) × Chain pages xs

-- The memory whose free pages are `xs`, in order, and no others.
pub record IsFreeList (m : Memory) (xs : List ℕ) : Type 0 where
  pub begin : m.begin ≡ first xs
  pub end : m.end ≡ last xs
  pub count : m.count ≡ length xs
  pub chain : Chain m.pages xs
  pub distinct : Distinct xs
  pub all_free : (i : ℕ) → (m.pages i).free ≡ true → has i xs ≡ true

pub Chain-frame :
    (pages pages' : Pages) (xs : List ℕ)
    → Chain pages xs
    → ((i : ℕ) → has i xs ≡ true → pages' i ≡ pages i)
    → Chain pages' xs
Chain-frame pages pages' [] c h = tt
Chain-frame pages pages' (x ∷ xs) c h =
    let same = h x (ground arith) in
    (
      record { free = ground (arith, c.0.free); ne_zero = c.0.ne_zero; small = c.0.small },
      ground (arith, c.1),
      Chain-frame pages pages' xs c.2 (λ i k. h i (ground arith)),
    )

pub has-last_or : (x : ℕ) (xs : List ℕ) → has (last_or x xs) (x ∷ xs) ≡ true
has-last_or x [] = ground arith
has-last_or x (y ∷ ys) = ground (arith, has-last_or y ys)

pub last_or-push : (x : ℕ) (xs : List ℕ) (i : ℕ) → last_or x (xs ++ i ∷ []) ≡ i
last_or-push x [] i = refl
last_or-push x (y ∷ ys) i = last_or-push y ys i

pub field20_small : (n : ℕ) → n < 2 ^ 20 → field20 n ≡ n
unfolding field20
field20_small n h = omega arith

pub inc32_small : (n : ℕ) → n + 1 < 2 ^ 32 → inc32 n ≡ n + 1
unfolding inc32
inc32_small n h = omega arith

pub dec32_pos : (n : ℕ) → n + 1 < 2 ^ 32 → dec32 (n + 1) ≡ n
unfolding dec32
dec32_pos n h = omega arith

pub dec20_pos : (n : ℕ) → 0 < n → n < 2 ^ 20 → dec20 n ≡ n - 1
unfolding dec20
dec20_pos n p h = omega arith

pub set_next-free : (pages : Pages) (e n x : ℕ) → (set_next pages e n x).free ≡ (pages x).free
set_next-free pages e n x = ground arith

pub set_next-type : (pages : Pages) (e n x : ℕ) → (set_next pages e n x).type ≡ (pages x).type
set_next-type pages e n x = ground arith

pub set_next_self : (pages : Pages) (e n : ℕ) → n < 2 ^ 20 → (set_next pages e n e).next_or_ref ≡ n
set_next_self pages e n h = rw ==_refl (field20_small n h)

pub set_next_ne : (pages : Pages) (e n x : ℕ) → e ≢ x → set_next pages e n x ≡ pages x
set_next_ne pages e n x h = ground arith

pub IsFreePage-set_next :
    (pages : Pages) (e n x : ℕ) → IsFreePage pages x → IsFreePage (set_next pages e n) x
IsFreePage-set_next pages e n x p = record {
  free = set_next-free pages e n x ∙ p.free;
  ne_zero = p.ne_zero;
  small = p.small;
}

-- A free page, its link at 0, behind the last one of a chain.
pub Chain-push :
    (pages : Pages) (x : ℕ) (xs : List ℕ) (i : ℕ)
    → Chain pages (x ∷ xs)
    → Distinct (x ∷ xs)
    → has i (x ∷ xs) ≡ false
    → IsFreePage pages i
    → (pages i).next_or_ref ≡ 0
    → Chain (set_next pages (last_or x xs) i) (x ∷ xs ++ i ∷ [])
Chain-push pages x [] i c d out p link = (
  IsFreePage-set_next pages x i x c.0,
  set_next_self pages x i p.small,
  (
    IsFreePage-set_next pages x i i p,
    ap (λ q. q.next_or_ref) (set_next_ne pages x i i (ground arith)) ∙ link,
    tt,
  ),
)
Chain-push pages x (y ∷ ys) i c d out p link =
    let apart : last_or y ys ≢ x = ground (arith, has-last_or y ys) in
    (
      IsFreePage-set_next pages (last_or y ys) i x c.0,
      ap (λ q. q.next_or_ref) (set_next_ne pages (last_or y ys) i x apart) ∙ c.1,
      Chain-push pages y ys i c.2 d.1 (ground arith) p link,
    )
