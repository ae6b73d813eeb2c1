-- ===== src/Text/Convert.antt =====
-- The functions of lib/genel_fonksiyonlar.c: `intToString`, `str_to_int` and `atoi`.
use makarna_x.Base.{ℕ, zero, suc, ◌+◌, ◌-◌, ◌*◌, ◌/◌, ◌%◌, ◌^◌, ◌&&◌, ◌==◌, ltb, leb, if◌then◌else◌}

abbrev pub Buffer : Type 0
Buffer = ℕ → ℕ

abbrev pub put : Buffer → ℕ → ℕ → Buffer
put buf i c x = if i == x then c else buf x

-- "0123456789abcdef"[d]
abbrev pub digit : ℕ → ℕ
digit d = if ltb d 10 then d + 48 else d + 87

-- The first loop of `intToString`, with the rounds left, at most one for each bit: the place after the last digit.
unfoldable pub write_loop : ℕ → ℕ → ℕ → ℕ → Buffer → ℕ × Buffer
write_loop zero i num base buf = (i, buf)
write_loop (suc k) i num base buf =
    let rest = write_loop k (suc i) (num / base) base (put buf i (digit (num % base))) in
    if ltb 0 (num / base) then rest else (suc i, put buf i (digit (num % base)))

-- The loop that turns the digits around, with the rounds left.
unfoldable pub swap_loop : ℕ → ℕ → ℕ → Buffer → Buffer
swap_loop zero i j buf = buf
swap_loop (suc k) i j buf =
    let rest = swap_loop k (i - 1) (suc j) (put (put buf i (buf j)) j (buf i)) in
    if ltb j i then rest else buf

-- `intToString`, with the number of digits.
unfoldable pub int_to_string : Buffer → ℕ → ℕ → ℕ × Buffer
unfolding write_loop swap_loop
int_to_string buf num base =
    let (size, written) = write_loop 32 0 num base buf in
    (size, swap_loop size (size - 1) 0 (put written size 0))

-- The loop of `str_to_int` from the place `p` on, with the rounds left.
unfoldable pub hex_loop : ℕ → ℕ → ℕ → Buffer → ℕ
hex_loop zero p i s = i
hex_loop (suc k) p i s =
    let shifted = i * 16 % 2 ^ 32 in
    let letter = hex_loop k (suc p) ((shifted + (s p - 97) + 10) % 2 ^ 32) s in
    let number = hex_loop k (suc p) ((shifted + (s p - 48)) % 2 ^ 32) s in
    if s p == 0
    then i
    else (if leb 97 (s p) && leb (s p) 102
        then letter
        else (if leb 48 (s p) && leb (s p) 57 then number else shifted / 16))

-- `str_to_int` of a text that ends within `len` characters.
unfoldable pub str_to_int : ℕ → Buffer → ℕ
unfolding hex_loop
str_to_int len s = hex_loop (suc len) 0 0 s

-- The loop of `atoi` from the place `p` on, with the rounds left. A product or sum above 2 ^ 31 - 1, which C does not
-- define, is not cut off.
unfoldable pub dec_loop : ℕ → ℕ → ℕ → Buffer → ℕ
dec_loop zero p i s = i
dec_loop (suc k) p i s =
    let rest = dec_loop k (suc p) (i * 10 + (s p - 48)) s in
    if s p == 0 then i else (if leb 48 (s p) && leb (s p) 57 then rest else i * 10 / 10)

-- `atoi` of a text that ends within `len` characters.
unfoldable pub atoi : ℕ → Buffer → ℕ
unfolding dec_loop
atoi len s = dec_loop (suc len) 0 0 s
