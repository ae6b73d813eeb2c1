-- ===== src/Heap/Sizes.antt =====
-- `kmalloc_size` against the size that `kmalloc` takes, and `kmalloc` without memory.
use makarna_x.Base.{
  ℕ, zero, suc, ◌+◌, ◌-◌, ◌*◌, ◌<◌, ◌≤◌, ◌≡◌, refl, sym, ap, ◌∙◌, inl, inr, false, none, some, ◌==◌,
  leb, if◌then◌else◌, arith, Bool-cases,
}
use makarna_x.Heap.State.{Heap, block_size}
use makarna_x.Heap.Buddy.{block_size_pos}
use makarna_x.Heap.Steps.{first_fit_lem}
use makarna_x.Heap.Kmalloc.{kmalloc_size, grow, first_fit, first_list, from_page, from_lists}

-- The loop of `kmalloc_size` that has `s` stops at a size that has room.
grow_stops : (k s size : ℕ) → size + 4 ≤ s * 2 → grow (suc k) s size ≡ s * 2
grow_stops k s size room = ground (arith, room)

grow_goes : (k s size : ℕ) → s * 2 < size + 4 → grow (suc k) s size ≡ grow k (s * 2) size
grow_goes k s size less = ground (arith, less)

abbrev rounds : ℕ → ℕ → ℕ
rounds zero m = m
rounds (suc n) m = suc (rounds n m)

big : (j : ℕ) → 32 ≤ block_size j
big zero = omega arith
big (suc j) = omega (arith, big j)

first_fit_from : (n i size u : ℕ) → first_fit n i size ≡ some u → i ≤ u
first_fit_from zero i size u h = absurd (ground arith)
first_fit_from (suc n) i size u h = elim (Bool-cases (leb size (block_size i - 4))) [
  | inl fits ↦ ground (arith, h, fits)
  | inr small ↦
      let a = first_fit_from n (suc i) size u (ground (arith, h, small)) in omega (arith, a)
]

above_zero :
    (u size : ℕ)
    → leb size 28 ≡ false
    → first_fit 7 0 size ≡ some u
    → (1 ≤ u) × (first_fit 6 1 size ≡ some u)
above_zero u size big fit =
    let next : first_fit 6 1 size ≡ some u =
      ap (λ q. if q then some 0 else first_fit 6 1 size) (sym big) ∙ fit in
    (first_fit_from 6 1 size u next, next)

grow-first_fit :
    (n m j size u : ℕ)
    → first_fit n (suc j) size ≡ some u
    → grow (rounds n m) (block_size j) size ≡ block_size u
grow-first_fit zero m j size u h = absurd (ground arith)
grow-first_fit (suc n) m j size u h =
    let twice : block_size j * 2 ≡ block_size (suc j) = omega arith in
    elim (Bool-cases (leb size (block_size (suc j) - 4))) [
      | inl fits ↦
          let here : suc j ≡ u = ground (arith, h, fits) in
          let size_pos = block_size_pos j in
          let room : size + 4 ≤ block_size j * 2 = ground (arith, fits, twice, size_pos, big j) in
          grow_stops (rounds n m) (block_size j) size room ∙ twice ∙ ap block_size here
      | inr less ↦
          let more : block_size j * 2 < size + 4 = ground (arith, less, twice, big j) in
          grow_goes (rounds n m) (block_size j) size more
          ∙ ap (λ s. grow (rounds n m) s size) twice
          ∙ grow-first_fit n m (suc j) size u (ground (arith, h, less))
    ]

small_block : (u : ℕ) → u < 7 → block_size u < 4096
small_block zero h = omega arith
small_block (suc zero) h = omega arith
small_block (suc (suc zero)) h = omega arith
small_block (suc (suc (suc zero))) h = omega arith
small_block (suc (suc (suc (suc zero)))) h = omega arith
small_block (suc (suc (suc (suc (suc zero))))) h = omega arith
small_block (suc (suc (suc (suc (suc (suc zero)))))) h = omega arith
small_block (suc (suc (suc (suc (suc (suc (suc u))))))) h = absurd (omega (arith, h))

-- `kmalloc_size` ends for every size that `kmalloc` takes. It is the size of the block that `kmalloc` takes
-- for these bytes, except for 28 bytes and less: there `kmalloc` takes a block of 32 bytes, and
-- `kmalloc_size` says 64.
pub kmalloc_size-first_fit :
    (size u : ℕ)
    → first_fit 7 0 size ≡ some u
    → (kmalloc_size size ≡ some (if u == 0 then 64 else block_size u)) × ((u == 0) ≡ leb size 28)
unfolding kmalloc_size
kmalloc_size-first_fit size u fit = elim (Bool-cases (leb size 28)) [
  | inl tiny ↦
      let least : 0 ≡ u = ground (arith, fit, tiny) in
      let end = grow_stops 31 32 size (ground (arith, tiny)) in
      (ground (arith, least, end), ground (arith, least, tiny))
  | inr big ↦
      let (j, more) = above_zero u size big fit in
      let end = grow-first_fit 6 26 0 size u more in
      let less = small_block u (first_fit_lem 7 0 size u fit).1 in
      (ground (arith, j, end, less), ground (arith, j, big))
]

pub from_lists_empty :
    (h : Heap) (u : ℕ)
    → first_list (7 - u) u h.lists ≡ none
    → from_lists u h ≡ from_page u h.pages h
from_lists_empty h u e = rw (from_lists, e) refl
