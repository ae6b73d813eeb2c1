-- ===== src/DenemeFs/Bytes.antt =====
-- The loops of `denemefs_read` and `denemefs_write` of DenemeFs/File.antt: which bytes they take,
-- and which they change.
use Prim.Native.Nat.{min}
use makarna_x.Base.{
  ℕ, zero, suc, ◌+◌, ◌-◌, ◌<◌, ◌≤◌, ◌≡◌, refl, inl, inr, ◌&&◌, Option, some, List, [], ◌∷◌, arith,
  length, get_elem?, ◌==◌, set, length-set, ltb, leb, if◌then◌else◌, Bool-cases,
}
use makarna_x.DenemeFs.File.{read_loop, write_loop}

-- A byte below the length is there.
get_elem?_lt : (b : List ℕ) (i : ℕ) → i < length b → (v : ℕ) × (get_elem? b i ≡ some v)
get_elem?_lt [] i h = elim h [ ]
get_elem?_lt (x ∷ b) zero h = (x, refl)
get_elem?_lt (x ∷ b) (suc i) h = get_elem?_lt b i (omega arith)

get_elem?-set :
    (b : List ℕ) (i j v : ℕ)
    → i < length b
    → get_elem? (set b i v) j ≡ (if i == j then some v else get_elem? b j)
get_elem?-set [] i j v h = elim h [ ]
get_elem?-set (x ∷ b) zero zero v h = refl
get_elem?-set (x ∷ b) zero (suc j) v h = ground arith
get_elem?-set (x ∷ b) (suc i) zero v h = ground arith
get_elem?-set (x ∷ b) (suc i) (suc j) v h = ground (arith, get_elem?-set b i j v)

-- The rounds of both loops.
abbrev pub rounds : ℕ → ℕ → ℕ → ℕ
rounds size in_size pos = min size (in_size - pos)

cons_bytes :
    (v : ℕ) (r b : List ℕ) (pos : ℕ)
    → get_elem? b pos ≡ some v
    → ((i : ℕ) → i < length r → get_elem? r i ≡ get_elem? b (pos + 1 + i))
    → (i : ℕ) → i < length (v ∷ r)
    → get_elem? (v ∷ r) i ≡ get_elem? b (pos + i)
cons_bytes v r b pos e h zero k = ground arith
cons_bytes v r b pos e h (suc i) k = ground (arith, h i)

pub read_loop_lem :
    (size : ℕ) (b : List ℕ) (in_size pos : ℕ)
    → in_size ≤ length b
    → (r : List ℕ) × (read_loop size b in_size pos ≡ some r)
      × (length r ≡ rounds size in_size pos)
      × ((i : ℕ) → i < length r → get_elem? r i ≡ get_elem? b (pos + i))
unfolding read_loop
read_loop_lem zero b in_size pos h = ([], refl, omega arith, λ i k. elim k [ ])
read_loop_lem (suc size) b in_size pos h = elim (Bool-cases (ltb pos in_size)) [
  | inl more ↦
      let (v, at_pos) = get_elem?_lt b pos (ground arith) in
      let (r, run, long, same) = read_loop_lem size b in_size (pos + 1) h in
      (v ∷ r, ground arith, ground arith, cons_bytes v r b pos at_pos same)
  | inr over ↦ ([], ground arith, ground arith, λ i k. elim k [ ])
]

-- Byte `i` after `buf` has been written from `pos` on, `n` bytes of it.
abbrev pub written : List ℕ → List ℕ → ℕ → ℕ → ℕ → Option ℕ
written buf b pos n i =
    if leb pos i && ltb i (pos + n) then get_elem? buf (i - pos) else get_elem? b i

written_cons :
    (v : ℕ) (buf b d : List ℕ) (pos n : ℕ)
    → pos < length b
    → ((i : ℕ) → get_elem? d i ≡ written buf (set b pos v) (pos + 1) n i)
    → (i : ℕ) → get_elem? d i ≡ written (v ∷ buf) b pos (n + 1) i
written_cons v buf b d pos n room h i = elim (Bool-cases (ltb pos i)) [
  | inl after ↦
      let step : i - pos ≡ suc (i - (pos + 1)) = ground arith in
      rw (h i, step) (ground (arith, get_elem?-set b pos i v room))
  | inr other ↦ elim (Bool-cases (i == pos)) [
    | inl here ↦
        let none_left : i - pos ≡ 0 = ground arith in
        rw (h i, none_left) (ground (arith, get_elem?-set b pos i v room))
    | inr before ↦ rw (h i) (ground (arith, get_elem?-set b pos i v room))
  ]
]

pub write_loop_lem :
    (buf b : List ℕ) (in_size pos : ℕ)
    → in_size ≤ length b
    → (d : List ℕ) × (write_loop buf b in_size pos ≡ some (rounds (length buf) in_size pos, d))
      × (length d ≡ length b)
      × ((i : ℕ) → get_elem? d i ≡ written buf b pos (rounds (length buf) in_size pos) i)
unfolding write_loop
write_loop_lem [] b in_size pos h = (b, ground arith, refl, λ i. ground arith)
write_loop_lem (v ∷ buf) b in_size pos h = elim (Bool-cases (ltb pos in_size)) [
  | inl more ↦
      let room : pos < length b = ground arith in
      let same_length = length-set b pos v in
      let (d, run, long, same) =
        write_loop_lem buf (set b pos v) in_size (pos + 1) (omega (arith, same_length)) in
      let one_more : rounds (length (v ∷ buf)) in_size pos
          ≡ rounds (length buf) in_size (pos + 1) + 1 =
        ground arith in
      (
        d,
        ground arith,
        omega (arith, long, same_length),
        rw one_more (written_cons v buf b d pos (rounds (length buf) in_size (pos + 1)) room same),
      )
  | inr over ↦ (b, ground arith, refl, λ i. ground arith)
]
