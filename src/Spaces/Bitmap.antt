-- ===== src/Spaces/Bitmap.antt =====
-- The bitmap of include/data_structures/bitmap.h: what the search for a clear bit finds.
use makarna_x.Base.{
  ℕ, zero, suc, ◌+◌, ◌*◌, ◌/◌, ◌%◌, ◌<◌, ◌≤◌, ◌≡◌, ◌≢◌, refl, ap, ◌∙◌, inl, inr, Bool, true, false,
  Option, none, some, ◌==◌, ltb, arith, Bool-cases, if◌then◌else◌,
}
use makarna_x.Spaces.State.{
  Word, bit_find_first_zero, bitmap_find_first_zero, is_full, bitmap_test, write_bit,
}

is_full_lem : (k : ℕ) (w : Word) (j : ℕ) → is_full k w ≡ true → j < k → w j ≡ true
is_full_lem zero w j h less = absurd (omega arith)
is_full_lem (suc k) w j h less = elim (Bool-cases (w k)) [
  | inr off ↦ absurd (ground (arith, off, h))
  | inl on ↦ elim (Bool-cases (j == k)) [
    | inl top ↦ let e : j ≡ k = ground (arith, top) in ground (arith, on, e)
    | inr below ↦
        let apart : j ≢ k = ground (arith, below) in
        is_full_lem k w j (ground (arith, h, on)) (omega (arith, apart))
  ]
]

-- Every bit from `i` up to the result is set, and the result is clear if it is one of the bits.
record Finds (k i r : ℕ) (w : Word) : Type 0 where
  low : i ≤ r
  high : r ≤ i + k
  before : (j : ℕ) → i ≤ j → j < r → w j ≡ true
  clear : r < i + k → w r ≡ false

bit-Finds : (k i : ℕ) (w : Word) → Finds k i (bit_find_first_zero k i w) w
unfolding bit_find_first_zero
bit-Finds zero i w = record {
  low = omega arith;
  high = omega arith;
  before = λ j a b. absurd (omega arith);
  clear = λ h. absurd (omega arith);
}
bit-Finds (suc k) i w = elim (Bool-cases (w i)) [
  | inl on ↦
      let ih = bit-Finds k (suc i) w in
      rw on (record {
        low = omega (arith, ih.low);
        high = omega (arith, ih.high);
        before = λ j a b. elim (Bool-cases (j == i)) [
          | inl here ↦ let e : j ≡ i = ground (arith, here) in ground (arith, e, on)
          | inr later ↦
              let apart : j ≢ i = ground (arith, later) in ih.before j (omega (arith, apart)) b
        ];
        clear = λ h. ih.clear (omega (arith, h));
      })
  | inr off ↦ rw off (record {
    low = omega arith;
    high = omega arith;
    before = λ j a b. absurd (omega arith);
    clear = λ h. off;
  })
]

-- A word that is not full has a clear bit.
not_full : (w : Word) → is_full 32 w ≡ false → bit_find_first_zero 32 0 w < 32
not_full w h = elim (Bool-cases (ltb (bit_find_first_zero 32 0 w) 32)) [
  | inl less ↦ ground (arith, less)
  | inr past ↦
      let all : (k : ℕ) → k ≤ 32 → is_full k w ≡ true =
        full_below w
          (λ j less. (bit-Finds 32 0 w).before j (omega arith) (ground (arith, past, less))) in
      absurd (ground (arith, h, all 32 (omega arith)))
]
  where
    full_below :
        (w : Word) → ((j : ℕ) → j < 32 → w j ≡ true) → (k : ℕ) → k ≤ 32 → is_full k w ≡ true
    full_below w h zero room = refl
    full_below w h (suc k) room =
        let here = h k (omega arith) in ground (arith, here, full_below w h k (omega arith))

-- What the search in the words from `i` on may give.
abbrev pub FirstZero : ℕ → ℕ → (ℕ → Word) → Option ℕ → Type 0
FirstZero k i bitmap none = (j : ℕ) → 32 * i ≤ j → j < 32 * (i + k) → bitmap_test bitmap j ≡ true
FirstZero k i bitmap (some r) =
    (r < 32 * (i + k))
    × (bitmap_test bitmap r ≡ false)
    × (32 * i ≤ r)
    × ((j : ℕ) → 32 * i ≤ j → j < r → bitmap_test bitmap j ≡ true)

FirstZero-later :
    (k i : ℕ) (bitmap : ℕ → Word) (o : Option ℕ)
    → ((j : ℕ) → j < 32 → bitmap i j ≡ true)
    → FirstZero k (suc i) bitmap o
    → FirstZero (suc k) i bitmap o
FirstZero-later k i bitmap none full h = λ j low high. elim (Bool-cases (j / 32 == i)) [
  | inl here ↦
      let e : j / 32 ≡ i = ground (arith, here) in
      ap (λ x. bitmap x (j % 32)) e ∙ full (j % 32) (omega arith)
  | inr later ↦
      let apart : j / 32 ≢ i = ground (arith, later) in
      h j (omega (arith, apart)) (omega (arith, high))
]
FirstZero-later k i bitmap (some r) full (a, b, c, d) = (
  omega (arith, a),
  b,
  omega (arith, c),
  λ j low high. elim (Bool-cases (j / 32 == i)) [
    | inl here ↦
        let e : j / 32 ≡ i = ground (arith, here) in
        ap (λ x. bitmap x (j % 32)) e ∙ full (j % 32) (omega arith)
    | inr later ↦ let apart : j / 32 ≢ i = ground (arith, later) in d j (omega (arith, apart)) high
  ],
)

FirstZero-here :
    (k i b : ℕ) (bitmap : ℕ → Word)
    → b < 32
    → bitmap i b ≡ false
    → ((j : ℕ) → j < b → bitmap i j ≡ true)
    → FirstZero (suc k) i bitmap (some (32 * i + b))
FirstZero-here k i b bitmap less off before =
    let q : (32 * i + b) / 32 ≡ i = omega (arith, less) in
    let m : (32 * i + b) % 32 ≡ b = omega (arith, less) in
    (
      omega (arith, less),
      rw (q, m) off,
      omega arith,
      λ j low high.
          let e : j / 32 ≡ i = omega (arith, low, high, less) in
          ap (λ x. bitmap x (j % 32)) e ∙ before (j % 32) (omega (arith, low, high, less)),
    )

-- The search of `bitmap_find_first_zero` gives the first clear bit: every bit before it is set. Where it
-- finds none, every bit of the words searched is set.
pub bitmap_find_first_zero_lem :
    (k i : ℕ) (bitmap : ℕ → Word) → FirstZero k i bitmap (bitmap_find_first_zero k i bitmap)
unfolding bitmap_find_first_zero
bitmap_find_first_zero_lem zero i bitmap = λ j low high. absurd (omega (arith, low, high))
bitmap_find_first_zero_lem (suc k) i bitmap = elim (Bool-cases (is_full 32 (bitmap i))) [
  | inl full ↦ rw full (
      FirstZero-later k i bitmap (bitmap_find_first_zero k (suc i) bitmap)
        (λ j less. is_full_lem 32 (bitmap i) j full less)
        (bitmap_find_first_zero_lem k (suc i) bitmap))
  | inr open_word ↦
      let found = bit-Finds 32 0 (bitmap i) in
      let less = not_full (bitmap i) open_word in
      rw open_word (
        FirstZero-here k i (bit_find_first_zero 32 0 (bitmap i)) bitmap less (found.clear less)
          (λ j below. found.before j (omega arith) below))
]

-- A bit after a write.
pub bitmap_test-write_bit :
    (bitmap : ℕ → Word) (p j : ℕ) (b : Bool)
    → bitmap_test (write_bit bitmap p b) j ≡ (if p == j then b else bitmap_test bitmap j)
bitmap_test-write_bit bitmap p j b = elim (Bool-cases (p == j)) [
  | inl same ↦ let e : p ≡ j = ground (arith, same) in ground (arith, e)
  | inr apart ↦
      let ne : p ≢ j = ground (arith, apart) in
      elim (Bool-cases (p / 32 == j / 32)) [
        | inr words ↦ ground (arith, words, apart)
        | inl word ↦
            let bits : (p % 32 == j % 32) ≡ false = ground (arith, word, ne, one_bit p j) in
            ground (arith, word, bits, apart)
      ]
]
  where
    one_bit : (p j : ℕ) → p / 32 ≡ j / 32 → p % 32 ≡ j % 32 → p ≡ j
    one_bit p j q m = omega (arith, q, m)
