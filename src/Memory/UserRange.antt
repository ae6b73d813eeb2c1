-- ===== src/Memory/UserRange.antt =====
-- `verify_user_addr` of kernel/memory/virtual.cpp.
use makarna_x.Base.{
  ℕ, zero, suc, ◌+◌, ◌-◌, ◌/◌, ◌%◌, ◌^◌, ◌<◌, ◌≤◌, ◌≡◌, ◌≢◌, refl, ap, ◌∙◌, inl, inr, Bool, true,
  false, ◌&&◌, Option, none, some, ◌==◌, ltb, if◌then◌else◌, arith, Option-cases, Bool-cases, subst,
}
use makarna_x.Memory.Virtual.{
  Layout, Pte, PageDirInfo, round_up, page_get, lacks, refuses, verify_loop, verify_range,
  verify_user_addr,
}

-- The page of the address is mapped.
abbrev pub IsMapped : PageDirInfo → ℕ → Type 0
IsMapped d a = (pte : Pte) × (page_get d a ≡ some pte) × (pte.present ≡ true)

pub refuses-IsMapped :
    (d : PageDirInfo) (a perm : ℕ) → refuses perm (page_get d a) ≡ false → IsMapped d a
refuses-IsMapped d a perm h = elim (Option-cases (page_get d a)) [
  | inl missing ↦ absurd (ground (arith, h, missing))
  | inr (pte, at) ↦ (pte, at, ground (arith, h, at))
]

-- The entry depends on the page of the address alone.
pub same_page : (d : PageDirInfo) (a b : ℕ) → a / 4096 ≡ b / 4096 → IsMapped d a → IsMapped d b
unfolding page_get
same_page d a b e (pte, at, present) = (
  pte,
  subst
      (λ p.
        elim (d.pgtables (p / 1024)) as (λ x. Option Pte) [
          | none ↦ none
          | some f ↦ some (f (p % 1024))
        ]
        ≡ some pte)
      e at,
  present,
)

pub verify_step :
    (k i end perm : ℕ) (d : PageDirInfo)
    → i < end
    → verify_loop (suc k) i end perm d ≡ true
    → (refuses perm (page_get d i) ≡ false) × (verify_loop k (i + 4096) end perm d ≡ true)
unfolding verify_loop
verify_step k i end perm d less h = elim (Bool-cases (refuses perm (page_get d i))) [
  | inl refused ↦ absurd (ground (arith, h, less, refused))
  | inr passed ↦ (passed, ground (arith, h, less, passed))
]

-- The pages from that of `i` on, up to the end, are mapped.
pub verify_loop-IsMapped :
    (k i end perm a : ℕ) (d : PageDirInfo)
    → verify_loop k i end perm d ≡ true
    → end / 4096 ≤ i / 4096 + k
    → i / 4096 ≤ a / 4096
    → a < end
    → (end % 4096 ≡ 0)
    → IsMapped d a
verify_loop-IsMapped zero i end perm a d h enough low high whole =
    absurd (omega (arith, enough, low, high, whole))
verify_loop-IsMapped (suc k) i end perm a d h enough low high whole =
    let (passed, rest) = verify_step k i end perm d (omega (arith, low, high, whole)) h in
    elim (Bool-cases (a / 4096 == i / 4096)) [
      | inl here ↦ same_page d i a (ground (arith, here)) (refuses-IsMapped d i perm passed)
      | inr later ↦
          let apart : a / 4096 ≢ i / 4096 = λ e. absurd (ground (arith, e, later)) in
          verify_loop-IsMapped k (i + 4096) end perm a d rest (omega (arith, enough))
            (omega (arith, low, apart)) high whole
    ]

abbrev pub user_va : PageDirInfo → ℕ → ℕ
user_va d addr = (addr + d.layout.seg_user_base) % 2 ^ 32

pub range_lem :
    (l : Layout) (va end : ℕ)
    → verify_range l va end ≡ true
    → (va < l.user_top) × (end ≤ l.user_top) × (l.user_base ≤ va) × (l.user_base ≤ end)
range_lem l va end h = (ground (arith, h), ground (arith, h), ground (arith, h), ground (arith, h))

pub split_and : (a b : Bool) → (a && b) ≡ true → (a ≡ true) × (b ≡ true)
split_and true true h = (refl, refl)
split_and true false h = absurd (ground (arith, h))
split_and false b h = absurd (ground (arith, h))

-- Where the end of the range does not pass 2 ^ 32 and the user's area ends a page before it, an address
-- range that `verify_user_addr` accepts lies in the user's area, and the page of each of its
-- addresses is mapped.
pub verify_user_addr-IsMapped :
    (addr len perm a : ℕ) (d : PageDirInfo)
    → d.layout.user_top + 4096 ≤ 2 ^ 32
    → user_va d addr + len < 2 ^ 32
    → verify_user_addr addr len perm d ≡ true
    → user_va d addr ≤ a
    → a < user_va d addr + len
    → (d.layout.user_base ≤ a) × (a < d.layout.user_top) × IsMapped d a
unfolding verify_user_addr
verify_user_addr-IsMapped addr len perm a d room fits h low high =
    let va = user_va d addr in
    let end = (va + len) % 2 ^ 32 in
    let (ranged, looped) =
      split_and (verify_range d.layout va end)
        (verify_loop (suc ((round_up end - va) / 4096)) va (round_up end) perm d) h in
    let (r1, r2, r3, r4) = range_lem d.layout va end ranged in
    let whole : end ≡ va + len = omega (arith, fits) in
    (
      omega (arith, r3, low),
      omega (arith, r2, high, whole),
      verify_loop-IsMapped (suc ((round_up end - va) / 4096)) va (round_up end) perm a d looped
          (omega (arith, r2, room, whole)) (omega (arith, low))
          (omega (arith, high, whole, r2, room)) (omega arith),
    )

pub refuses_even : (perm : ℕ) (o : Option Pte) → perm % 2 ≡ 0 → refuses perm o ≡ refuses 0 o
unfolding lacks
refuses_even perm none even = refl
refuses_even perm (some pte) even = ground (arith, even)

pub verify_loop_even :
    (k i end perm : ℕ) (d : PageDirInfo)
    → perm % 2 ≡ 0
    → verify_loop k i end perm d ≡ verify_loop k i end 0 d
unfolding verify_loop
verify_loop_even zero i end perm d even = refl
verify_loop_even (suc k) i end perm d even =
    let rest = verify_loop_even k (i + 4096) end perm d even in
    let here = refuses_even perm (page_get d i) even in
    ap (λ q. if ltb i end then (if q then false else verify_loop k (i + 4096) end perm d) else true)
      here
    ∙ ap (λ q. if ltb i end then (if refuses 0 (page_get d i) then false else q) else true) rest

-- For an even `perm`, as `PTE_U` is, `verify_user_addr` does not depend on the permissions: its
-- result is that for the permission 0, for which no entry that is present is refused.
pub verify_user_addr-even :
    (addr len perm : ℕ) (d : PageDirInfo)
    → perm % 2 ≡ 0
    → verify_user_addr addr len perm d ≡ verify_user_addr addr len 0 d
unfolding verify_user_addr
verify_user_addr-even addr len perm d even =
    let va = user_va d addr in
    let end = (va + len) % 2 ^ 32 in
    ap (λ q. verify_range d.layout va end && q)
      (verify_loop_even (suc ((round_up end - va) / 4096)) va (round_up end) perm d even)

pub verify_loop_end :
    (k i end perm : ℕ) (d : PageDirInfo) → end ≤ i → verify_loop (suc k) i end perm d ≡ true
unfolding verify_loop
verify_loop_end k i end perm d less = ground (arith, less)

pub range_intro :
    (l : Layout) (va end : ℕ)
    → va < l.user_top
    → end ≤ l.user_top
    → l.user_base ≤ va
    → l.user_base ≤ end
    → verify_range l va end ≡ true
range_intro l va end a b c e = ground (arith, a, b, c, e)

-- A length that takes the end of the range past 2 ^ 32 and back into the user's area, at least a page
-- below the start, is accepted whatever is mapped: the end in 32 bits passes both tests, and the
-- loop has no page to look at.
pub verify_user_addr-wraps :
    (addr len perm : ℕ) (d : PageDirInfo)
    → user_va d addr < d.layout.user_top
    → d.layout.user_base ≤ (user_va d addr + len) % 2 ^ 32
    → (user_va d addr + len) % 2 ^ 32 + 4096 ≤ user_va d addr
    → verify_user_addr addr len perm d ≡ true
unfolding verify_user_addr
verify_user_addr-wraps addr len perm d below base back =
    let va = user_va d addr in
    let end = (va + len) % 2 ^ 32 in
    let small : va < 2 ^ 32 = omega arith in
    ap (λ q. q && verify_loop (suc ((round_up end - va) / 4096)) va (round_up end) perm d)
      (range_intro d.layout va end below (omega (arith, back, below)) (omega (arith, base, back))
        base)
    ∙ verify_loop_end ((round_up end - va) / 4096) va (round_up end) perm d
        (omega (arith, back, small))
