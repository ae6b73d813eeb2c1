-- ===== src/Heap/State.antt =====
-- The state of kernel/memory/kmalloc.cpp: the lists of free blocks, the headers in memory, the counts of
-- the pages and the lock. A block is its address; `owner` is the list that its node is in. `none` is
-- a failed ASSERT, or a lock that is never given back.
use makarna_x.Base.{
  ℕ, ◌+◌, ◌-◌, ◌*◌, ◌/◌, ◌%◌, ◌^◌, Bool, true, false, ◌&&◌, Option, none, some, List, [], ◌∷◌, ◌++◌,
  ◌==◌, ltb, if◌then◌else◌,
}

-- `enum BlockFlags`, and what else may stand there.
pub data Flag : Type 0 where
  free used other : Flag

-- `struct BlockHeader`: `sizeno` has 4 bits.
pub record Header : Type 0 where
  pub sizeno : ℕ
  pub flag : Flag

-- `struct PageHeader`: a number for each size.
pub record PageHeader : Type 0 where
  pub count : ℕ → ℕ
  pub count_used : ℕ → ℕ

pub record Heap : Type 0 where
  pub lists : ℕ → List ℕ
  pub headers : ℕ → Header
  pub owner : ℕ → Option ℕ
  pub page_headers : ℕ → PageHeader
  pub pages : List ℕ
  pub locked : Bool

abbrev pub H : Type 0 → Type 0
H A = Heap → Option (A × Heap)

abbrev pub pure : {A : Type 0} → A → H A
pure a h = some (a, h)

abbrev pub halt : {A : Type 0} → H A
halt h = none

abbrev pub continue : {A B : Type 0} → (A → H B) → Option (A × Heap) → Option (B × Heap)
continue f none = none
continue f (some (a, h)) = f a h

infixl 5 ◌>>=◌ ◌>>◌
abbrev pub ◌>>=◌ : {A B : Type 0} → H A → (A → H B) → H B
◌>>=◌ m f h = continue f (m h)

abbrev pub ◌>>◌ : {B : Type 0} → H (Unit {0}) → H B → H B
m >> k = m >>= λ _. k

abbrev pub get : H Heap
get h = some (h, h)

abbrev pub assert : Bool → H (Unit {0})
assert true h = some (tt, h)
assert false h = none

abbrev pub is_free : Flag → Bool
is_free free = true
is_free used = false
is_free other = false

abbrev pub is_used : Flag → Bool
is_used free = false
is_used used = true
is_used other = false

abbrev pub last_sizeno : ℕ
last_sizeno = 6

-- The bytes of a block with its header: 1 << (5 + sizeno).
abbrev pub block_size : ℕ → ℕ
block_size sizeno = 32 * 2 ^ sizeno

-- Above the size 4096 there is no pair.
abbrev pub pair : ℕ → ℕ → ℕ
pair b sizeno =
    if b / block_size sizeno % 2 == 0 then b + block_size sizeno else b - block_size sizeno

-- The page of an address, from a base that is a multiple of the page.
abbrev pub page_of : ℕ → ℕ
page_of b = b / 4096

abbrev pub counter_bits : ℕ → ℕ
counter_bits sizeno = if ltb sizeno 4 then 8 else 4

-- `PH_count::add` of `i`, and of `-i`: sizes above 6 have no number.
unfoldable pub add : (ℕ → ℕ) → ℕ → ℕ → ℕ → ℕ
add c sizeno i n = if sizeno == n && ltb sizeno 7 then (c n + i) % 2 ^ counter_bits sizeno else c n

unfoldable pub sub : (ℕ → ℕ) → ℕ → ℕ → ℕ → ℕ
sub c sizeno i n =
    if sizeno == n && ltb sizeno 7
    then (c n + 2 ^ counter_bits sizeno - i) % 2 ^ counter_bits sizeno
    else c n

abbrev pub put_header : Heap → ℕ → Header → Heap
put_header h b v = record h { headers = λ a. if b == a then v else h.headers a }

abbrev pub put_owner : Heap → ℕ → Option ℕ → Heap
put_owner h b v = record h { owner = λ a. if b == a then v else h.owner a }

abbrev pub put_list : Heap → ℕ → List ℕ → Heap
put_list h s bs = record h { lists = λ t. if s == t then bs else h.lists t }

abbrev pub put_page : Heap → ℕ → PageHeader → Heap
put_page h p v = record h { page_headers = λ q. if p == q then v else h.page_headers q }

abbrev pub erase : ℕ → List ℕ → List ℕ
erase b [] = []
erase b (x ∷ xs) = if x == b then xs else x ∷ erase b xs

-- `__list->erase` of the node of a block: the node of no list has no `__list`.
unfoldable pub unlist : ℕ → H (Unit {0})
unlist b h = elim (h.owner b) [
  | none ↦ none
  | some s ↦ some (tt, put_owner (put_list h s (erase b (h.lists s))) b none)
]

unfoldable pub push_back : ℕ → ℕ → H (Unit {0})
push_back s b h = some (tt, put_owner (put_list h s (h.lists s ++ b ∷ [])) b (some s))

unfoldable pub push_front : ℕ → ℕ → H (Unit {0})
push_front s b h = some (tt, put_owner (put_list h s (b ∷ h.lists s)) b (some s))
