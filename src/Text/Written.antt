-- ===== src/Text/Written.antt =====
-- What `intToString` writes: the digits from the last quotient to the first.
use makarna_x.Base.{
  ℕ, zero, suc, ◌+◌, ◌-◌, ◌/◌, ◌%◌, ◌<◌, ◌≡◌, ◌≢◌, refl, sym, ap, ◌∙◌, inl, inr, true, false, ◌&&◌,
  ◌==◌, ltb, leb, arith, Bool-cases, if◌then◌else◌,
}
use makarna_x.Text.Convert.{Buffer, put, digit, write_loop, swap_loop}

-- The number divided `k` times by the base.
abbrev pub quotient : ℕ → ℕ → ℕ → ℕ
quotient base zero num = num
quotient base (suc k) num = quotient base k (num / base)

pub quotient-suc : (base k num : ℕ) → quotient base (suc k) num ≡ quotient base k num / base
quotient-suc base zero num = refl
quotient-suc base (suc k) num = quotient-suc base k (num / base)

-- The digits of `num` stand in the buffer from `i` on, the least first, and there are enough of them.
pub record Digits (base i num size : ℕ) (buf out : Buffer) : Type 0 where
  pub some_digit : i < size
  pub before : (x : ℕ) → x < i → out x ≡ buf x
  pub at : (x : ℕ) → i + x < size → out (i + x) ≡ digit (quotient base x num % base)
  pub all : quotient base (size - i) num ≡ 0

Digits-later :
    (base i num size : ℕ) (buf out : Buffer)
    → Digits base (suc i) (num / base) size (put buf i (digit (num % base))) out
    → Digits base i num size buf out
Digits-later base i num size buf out d = record {
  some_digit = omega (arith, d.some_digit);
  before = λ x less.
      let apart : i ≢ x = λ e. absurd (omega (arith, e, less)) in
      d.before x (omega (arith, less)) ∙ ground (arith, apart);
  at = λ x less. at x less;
  all =
      let e : size - i ≡ suc (size - suc i) = omega (arith, d.some_digit) in
      ap (λ k. quotient base k num) e ∙ d.all;
}
  where
    at : (x : ℕ) → i + x < size → out (i + x) ≡ digit (quotient base x num % base)
    at zero less =
        let e : i + 0 ≡ i = omega arith in ap out e ∙ d.before i (omega arith) ∙ ground arith
    at (suc x) less =
        let e : i + suc x ≡ suc i + x = omega arith in ap out e ∙ d.at x (omega (arith, less))

Digits-last :
    (base i num : ℕ) (buf : Buffer)
    → num / base ≡ 0
    → Digits base i num (suc i) buf (put buf i (digit (num % base)))
Digits-last base i num buf zero_left = record {
  some_digit = omega arith;
  before =
      λ x less. let apart : i ≢ x = λ e. absurd (omega (arith, e, less)) in ground (arith, apart);
  at = λ x less.
      let e : x ≡ 0 = omega (arith, less) in
      let f : i + x ≡ i = omega (arith, e) in
      ap (put buf i (digit (num % base))) f
      ∙ first_digit
      ∙ ap (λ y. digit (quotient base y num % base)) (sym e);
  all = let e : suc i - i ≡ 1 = omega arith in ap (λ n. quotient base n num) e ∙ zero_left;
}
  where
    first_digit : put buf i (digit (num % base)) i ≡ digit (num % base)
    first_digit = ground arith

-- With a round for each digit, the first loop of `intToString` writes them all.
pub write_loop-Digits :
    (k i num base : ℕ) (buf : Buffer)
    → quotient base (suc k) num ≡ 0
    → Digits base i num
        (write_loop (suc k) i num base buf).0
        buf
        (write_loop (suc k) i num base buf).1
unfolding write_loop
write_loop-Digits zero i num base buf ends =
    let none_left : ltb 0 (num / base) ≡ false = ground (arith, ends) in
    rw none_left (Digits-last base i num buf ends)
write_loop-Digits (suc k) i num base buf ends = elim (Bool-cases (ltb 0 (num / base))) [
  | inr last ↦
      let zero_left : num / base ≡ 0 = ground (arith, last) in
      rw last (Digits-last base i num buf zero_left)
  | inl more ↦
      let out = put buf i (digit (num % base)) in
      let r = write_loop (suc k) (suc i) (num / base) base out in
      rw more (
        Digits-later base i num r.0 buf r.1
          (write_loop-Digits k (suc i) (num / base) base out ends))
]

swap_step :
    (i j x : ℕ) (buf : Buffer)
    → j < i
    → (if leb (suc j) x && leb x (i - 1)
        then put (put buf i (buf j)) j (buf i) (i - 1 + suc j - x)
        else put (put buf i (buf j)) j (buf i) x)
      ≡ (if leb j x && leb x i then buf (i + j - x) else buf x)
swap_step i j x buf less = elim (Bool-cases (j == x)) [
  | inl first ↦
      let e : j ≡ x = ground (arith, first) in
      let f : i + j - x ≡ i = omega (arith, e) in ground (arith, e, less, ap buf f)
  | inr after ↦
      let ne : j ≢ x = ground (arith, after) in
      elim (Bool-cases (i == x)) [
        | inl last ↦
            let e : i ≡ x = ground (arith, last) in
            let f : i + j - x ≡ j = omega (arith, e) in ground (arith, e, less, ne, ap buf f)
        | inr before ↦
            let ne2 : i ≢ x = ground (arith, before) in
            let place : i - 1 + suc j - x ≡ i + j - x = omega (arith, less) in
            elim (Bool-cases (leb j x && leb x i)) [
              | inl inside ↦
                  let narrow : (leb (suc j) x && leb x (i - 1)) ≡ true =
                    ground (arith, inside, ne, ne2) in
                  let a : (j == i + j - x) ≡ false = ground (arith, inside, ne, ne2, less) in
                  let b : (i == i + j - x) ≡ false = ground (arith, inside, ne, ne2, less) in
                  rw (inside, narrow, place, a, b) refl
              | inr out ↦
                  let wide : (leb (suc j) x && leb x (i - 1)) ≡ false =
                    ground (arith, out, ne, ne2) in
                  rw (out, wide, after, before) refl
            ]
      ]
]

-- What the second loop of `intToString` leaves at each place: between the ends, the text backwards.
pub swap_loop_lem :
    (k i j x : ℕ) (buf : Buffer)
    → i < j + k
    → swap_loop k i j buf x ≡ (if leb j x && leb x i then buf (i + j - x) else buf x)
unfolding swap_loop
swap_loop_lem zero i j x buf less = elim (Bool-cases (leb j x && leb x i)) [
  | inl inside ↦ absurd (ground (arith, inside))
  | inr out ↦ rw out refl
]
swap_loop_lem (suc k) i j x buf less = elim (Bool-cases (ltb j i)) [
  | inr met ↦ elim (Bool-cases (leb j x && leb x i)) [
    | inr out ↦ rw (met, out) refl
    | inl inside ↦
        let e : i + j - x ≡ x = ground (arith, met, inside) in rw (met, inside) (sym (ap buf e))
  ]
  | inl apart ↦
      let two = put (put buf i (buf j)) j (buf i) in
      let ih = swap_loop_lem k (i - 1) (suc j) x two (ground (arith, apart)) in
      rw apart (ih ∙ swap_step i j x buf (ground (arith, apart)))
]
