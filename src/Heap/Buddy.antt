-- ===== src/Heap/Buddy.antt =====
-- The arithmetic of the addresses of blocks: a block of size `s` has an address that is a multiple of it.
use makarna_x.Base.{ℕ, zero, suc, ◌+◌, ◌*◌, ◌/◌, ◌%◌, ◌<◌, ◌≡◌, sym, ◌∙◌, arith, ◌==◌, true}
use native.Mathlib.Nat.{mul-div_cancel, mul-add, add-mul}
use makarna_x.Heap.State.{block_size}

pub block_size-suc : (s : ℕ) → block_size (suc s) ≡ block_size s + block_size s
block_size-suc s = omega arith

pub block_size_pos : (s : ℕ) → 0 < block_size s
block_size_pos zero = omega arith
block_size_pos (suc s) = let h = block_size_pos s in omega (arith, h, block_size-suc s)

abbrev pub IsAligned : ℕ → ℕ → Type 0
IsAligned b s = (q : ℕ) × (b ≡ q * block_size s)

twice : (q n m : ℕ) → m ≡ n + n → q * m ≡ (q + q) * n
twice q n m h = rw h (mul-add q n n ∙ sym (add-mul q q n))

pub IsAligned-half : (b s : ℕ) → IsAligned b (suc s) → IsAligned b s
IsAligned-half b s (q, e) =
    (q + q, e ∙ twice q (block_size s) (block_size (suc s)) (block_size-suc s))

-- The address of a block of twice the size is that of a left half.
pub left_half : (b s : ℕ) → IsAligned b (suc s) → (b / block_size s % 2 == 0) ≡ true
left_half b s (q, e) =
    let half = twice q (block_size s) (block_size (suc s)) (block_size-suc s) in
    let quotient : b / block_size s ≡ q + q =
      rw e rw half (mul-div_cancel (q + q) (block_size_pos s)) in
    ground (arith, quotient)
