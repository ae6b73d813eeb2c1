-- ===== src/Text/RoundTrip.antt =====
-- `str_to_int` and `atoi` after `intToString`.
use makarna_x.Base.{
  ℕ, zero, suc, ◌+◌, ◌-◌, ◌*◌, ◌/◌, ◌%◌, ◌^◌, ◌<◌, ◌≤◌, ◌≡◌, refl, sym, ap, ◌∙◌, inl, inr, true,
  false, ◌&&◌, ◌==◌, ltb, leb, arith, Bool-cases, if◌then◌else◌,
}
use makarna_x.Text.Convert.{
  Buffer, put, digit, write_loop, swap_loop, int_to_string, hex_loop, str_to_int, dec_loop, atoi,
}
use makarna_x.Text.Written.{quotient, quotient-suc, Digits, write_loop-Digits, swap_loop_lem}

-- The digits of `num` from place 0 on, the greatest first, and the end after them.
pub record Reads (base num size : ℕ) (s : Buffer) : Type 0 where
  pub at : (x : ℕ) → x < size → s x ≡ digit (quotient base (size - 1 - x) num % base)
  pub end : s size ≡ 0
  pub all : quotient base size num ≡ 0

-- The digits, turned around and ended.
turned :
    (base num size : ℕ) (buf w : Buffer)
    → Digits base 0 num size buf w
    → Reads base num size (swap_loop size (size - 1) 0 (put w size 0))
turned base num size buf w d = record {
  at = λ x less.
      let inside : (leb 0 x && leb x (size - 1)) ≡ true = ground (arith, less) in
      let place : size - 1 + 0 - x ≡ size - 1 - x = omega arith in
      let apart : (size == size - 1 - x) ≡ false = ground (arith, less) in
      let same : 0 + (size - 1 - x) ≡ size - 1 - x = omega arith in
      swapped x
      ∙ ap (λ b. if b then put w size 0 (size - 1 + 0 - x) else put w size 0 x) inside
      ∙ ap (put w size 0) place
      ∙ ap (λ b. if b then 0 else w (size - 1 - x)) apart
      ∙ ap w (sym same)
      ∙ d.at (size - 1 - x) (omega (arith, less));
  end =
      let out : (leb 0 size && leb size (size - 1)) ≡ false = ground (arith, d.some_digit) in
      swapped size
      ∙ ap (λ b. if b then put w size 0 (size - 1 + 0 - size) else put w size 0 size) out
      ∙ ground arith;
  all = let same : size ≡ size - 0 = omega arith in ap (λ y. quotient base y num) same ∙ d.all;
}
  where
    swapped :
        (x : ℕ)
        → swap_loop size (size - 1) 0 (put w size 0) x ≡ (
            if leb 0 x && leb x (size - 1) then put w size 0 (size - 1 + 0 - x) else put w size 0 x)
    swapped x = swap_loop_lem size (size - 1) 0 x (put w size 0) (omega (arith, d.some_digit))

-- `intToString` writes the digits of the number, the greatest first, and ends them.
pub int_to_string-Reads :
    (buf : Buffer) (num base : ℕ)
    → quotient base 32 num ≡ 0
    → Reads base num (int_to_string buf num base).0 (int_to_string buf num base).1
unfolding int_to_string
int_to_string-Reads buf num base ends =
    let w = write_loop 32 0 num base buf in
    turned base num w.0 buf w.1 (write_loop-Digits 31 0 num base buf ends)

quotient_le : (k num : ℕ) → quotient 16 k num ≤ num
quotient_le zero num = omega arith
quotient_le (suc k) num = omega (arith, quotient_le k (num / 16))

-- One digit, read by the loop of `str_to_int`.
hex_digit :
    (k p q d : ℕ) (s : Buffer)
    → s p ≡ digit d
    → d < 16
    → q * 16 + d < 2 ^ 32
    → hex_loop (suc k) p q s ≡ hex_loop k (suc p) (q * 16 + d) s
unfolding hex_loop
hex_digit k p q d s c small fits =
    let shift : q * 16 % 4294967296 ≡ q * 16 = omega (arith, fits) in
    elim (Bool-cases (ltb d 10)) [
      | inl low ↦
          let code : s p ≡ d + 48 = c ∙ ap (λ b. if b then d + 48 else d + 87) low in
          let value : (q * 16 + (s p - 48)) % 4294967296 ≡ q * 16 + d = omega (arith, code, fits) in
          let some_char : (s p == 0) ≡ false = ground (arith, code) in
          let no_letter : (leb 97 (s p) && leb (s p) 102) ≡ false = ground (arith, code, low) in
          let number : (leb 48 (s p) && leb (s p) 57) ≡ true = ground (arith, code, low) in
          rw (some_char, no_letter, number, shift, value) refl
      | inr high ↦
          let code : s p ≡ d + 87 = c ∙ ap (λ b. if b then d + 48 else d + 87) high in
          let ten : 10 ≤ d = ground (arith, high) in
          let value : (q * 16 + (s p - 97) + 10) % 4294967296 ≡ q * 16 + d =
            omega (arith, code, fits, ten) in
          let some_char : (s p == 0) ≡ false = ground (arith, code) in
          let letter : (leb 97 (s p) && leb (s p) 102) ≡ true = ground (arith, code, ten, small) in
          rw (some_char, letter, shift, value) refl
    ]

-- The loop, with `k` digits left and the others read.
hex_loop_lem :
    (k p num size : ℕ) (s : Buffer)
    → Reads 16 num size s
    → num < 2 ^ 32
    → p + k ≡ size
    → hex_loop (suc k) p (quotient 16 k num) s ≡ num
unfolding hex_loop
hex_loop_lem zero p num size s r fits e =
    let at_end : s p ≡ 0 = ap s (omega (arith, e)) ∙ r.end in ground (arith, at_end)
hex_loop_lem (suc k) p num size s r fits e =
    let q = quotient 16 k num in
    let place : size - 1 - p ≡ k = omega (arith, e) in
    let c = r.at p (omega (arith, e)) ∙ ap (λ y. digit (quotient 16 y num % 16)) place in
    let whole : quotient 16 (suc k) num * 16 + q % 16 ≡ q = omega (arith, quotient-suc 16 k num) in
    hex_digit (suc k) p (quotient 16 (suc k) num) (q % 16) s c (omega arith)
      (omega (arith, whole, quotient_le k num, fits))
    ∙ ap (λ y. hex_loop (suc k) (suc p) y s) whole
    ∙ hex_loop_lem k (suc p) num size s r fits (omega (arith, e))

-- A number of 32 bits that `intToString` writes in base 16 is what `str_to_int` reads.
pub int_to_string-str_to_int :
    (buf : Buffer) (num : ℕ)
    → num < 2 ^ 32
    → str_to_int (int_to_string buf num 16).0 (int_to_string buf num 16).1 ≡ num
unfolding str_to_int
int_to_string-str_to_int buf num fits =
    let w = int_to_string buf num 16 in
    let r = int_to_string-Reads buf num 16 (ends num fits) in
    ap (λ y. hex_loop (suc w.0) 0 y w.1) (sym r.all)
    ∙ hex_loop_lem w.0 0 num w.0 w.1 r fits (omega arith)
  where
    ends : (num : ℕ) → num < 2 ^ 32 → quotient 16 32 num ≡ 0
    ends num fits = omega arith

-- One digit, read by the loop of `atoi`.
dec_digit :
    (k p q d : ℕ) (s : Buffer)
    → s p ≡ digit d
    → d < 10
    → dec_loop (suc k) p q s ≡ dec_loop k (suc p) (q * 10 + d) s
unfolding dec_loop
dec_digit k p q d s c small =
    let low : ltb d 10 ≡ true = ground (arith, small) in
    let code : s p ≡ d + 48 = c ∙ ap (λ b. if b then d + 48 else d + 87) low in
    let value : q * 10 + (s p - 48) ≡ q * 10 + d = omega (arith, code) in
    let some_char : (s p == 0) ≡ false = ground (arith, code) in
    let number : (leb 48 (s p) && leb (s p) 57) ≡ true = ground (arith, code, small) in
    rw (some_char, number, value) refl

dec_loop_lem :
    (k p num size : ℕ) (s : Buffer)
    → Reads 10 num size s
    → p + k ≡ size
    → dec_loop (suc k) p (quotient 10 k num) s ≡ num
unfolding dec_loop
dec_loop_lem zero p num size s r e =
    let at_end : s p ≡ 0 = ap s (omega (arith, e)) ∙ r.end in ground (arith, at_end)
dec_loop_lem (suc k) p num size s r e =
    let q = quotient 10 k num in
    let place : size - 1 - p ≡ k = omega (arith, e) in
    let c = r.at p (omega (arith, e)) ∙ ap (λ y. digit (quotient 10 y num % 10)) place in
    let whole : quotient 10 (suc k) num * 10 + q % 10 ≡ q = omega (arith, quotient-suc 10 k num) in
    dec_digit (suc k) p (quotient 10 (suc k) num) (q % 10) s c (omega arith)
    ∙ ap (λ y. dec_loop (suc k) (suc p) y s) whole
    ∙ dec_loop_lem k (suc p) num size s r (omega (arith, e))

-- A number below 2 ^ 31 that `intToString` writes in base 10 is what `atoi` reads.
pub int_to_string-atoi :
    (buf : Buffer) (num : ℕ)
    → num < 2 ^ 31
    → atoi (int_to_string buf num 10).0 (int_to_string buf num 10).1 ≡ num
unfolding atoi
int_to_string-atoi buf num fits =
    let w = int_to_string buf num 10 in
    let r = int_to_string-Reads buf num 10 (ends num fits) in
    ap (λ y. dec_loop (suc w.0) 0 y w.1) (sym r.all)
    ∙ dec_loop_lem w.0 0 num w.0 w.1 r (omega arith)
  where
    ends : (num : ℕ) → num < 2 ^ 31 → quotient 10 32 num ≡ 0
    ends num fits = omega arith

-- A number below 2 ^ 31 comes back from text: `str_to_int` reads it from what `intToString` writes in
-- base 16, and `atoi` from what it writes in base 10. In base 16 this holds below 2 ^ 32.
pub int_to_string-reads_back :
    (buf : Buffer) (num : ℕ)
    → num < 2 ^ 32
    → (str_to_int (int_to_string buf num 16).0 (int_to_string buf num 16).1 ≡ num)
      × (num < 2 ^ 31 → atoi (int_to_string buf num 10).0 (int_to_string buf num 10).1 ≡ num)
int_to_string-reads_back buf num fits =
    (int_to_string-str_to_int buf num fits, λ small. int_to_string-atoi buf num small)
