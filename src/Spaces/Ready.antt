-- ===== src/Spaces/Ready.antt =====
-- When the temporary pages are in order: the bitmap agrees with the entries of the kernel's table, and the
-- free pages form a list. How `page_alloc` and the reference counts keep that list.
use makarna_x.Base.{
  ℕ, ◌+◌, ◌*◌, ◌%◌, ◌^◌, ◌<◌, ◌≤◌, ◌≡◌, ◌≢◌, sym, ap, ◌∙◌, ◌⊎◌, inl, inr, true, false, Option, none,
  some, List, [], ◌∷◌, arith, length, subst,
}
use makarna_x.Memory.Pages.{Page, Memory, put, page_alloc, type_available}
use makarna_x.Memory.FreeList.{IsFreeList, Chain-frame}
use makarna_x.Memory.Queue.{free_of_has, page_alloc_lem, page_alloc-popped, popped}
use makarna_x.Memory.Virtual.{Pte, page_get}
use makarna_x.Spaces.State.{Vm, bitmap_test}

-- The temporary address of bit `r`.
abbrev pub tmp_va : Vm → ℕ → ℕ
tmp_va v r = v.areas.tmp_base + r * 4096

-- The entry of each temporary address is there, and is present where the bit is set.
abbrev pub BitAgrees : Vm → ℕ → Type 0
BitAgrees v r =
    (pte : Pte) × (page_get (v.spaces 0).info (tmp_va v r) ≡ some pte)
    × (pte.present ≡ bitmap_test v.tmp_pages r)

-- The temporary area lies in that of the kernel, on page boundaries.
pub record TmpArea (v : Vm) : Type 0 where
  pub whole : v.areas.tmp_base % 4096 ≡ 0
  pub room : v.areas.tmp_base + 4194304 ≤ 2 ^ 32
  pub low : (v.spaces 0).info.layout.kernel_base ≤ v.areas.tmp_base
  pub high : v.areas.tmp_base + 4194304 ≤ (v.spaces 0).info.layout.kernel_top

abbrev pub HasFreeList : Memory → Type 0
HasFreeList m = (xs : List ℕ) × IsFreeList m xs × (length xs + 1 < 2 ^ 32)

pub record IsReady (v : Vm) : Type 0 where
  pub area : TmpArea v
  pub bits : (r : ℕ) → r < 1024 → BitAgrees v r
  pub pages : HasFreeList v.memory

abbrev pub IsUsed : Vm → ℕ → Type 0
IsUsed v p = (v.memory.pages p).free ≡ false

-- A page in use, its record replaced by that of a page in use.
pub IsFreeList-put :
    (m : Memory) (xs : List ℕ) (p : ℕ) (q : Page)
    → IsFreeList m xs
    → (m.pages p).free ≡ false
    → q.free ≡ false
    → IsFreeList (record m { pages = put m.pages p q }) xs
IsFreeList-put m xs p q l used stays = record {
  begin = l.begin;
  end = l.end;
  count = l.count;
  chain =
      Chain-frame m.pages (put m.pages p q) xs l.chain
        (λ j h. ground (arith, free_of_has m.pages xs j l.chain h));
  distinct = l.distinct;
  all_free = λ j h. ground (arith, stays, l.all_free j);
}

-- A page with one reference, as `page_alloc` and `refcount_inc` leave it.
abbrev pub one_ref : Page
one_ref = record { next_or_ref = 1; free = false; type = type_available }

-- A page taken from the list and given its first reference.
pub record Taken (m n : Memory) (p : ℕ) : Type 0 where
  pub was_free : (m.pages p).free ≡ true
  pub used : (n.pages p).free ≡ false
  pub no_ref : n.pages p ≡ record { next_or_ref = 0; free = false; type = type_available }
  pub others : (x : ℕ) → x ≢ p → n.pages x ≡ m.pages x
  pub list : HasFreeList n
  pub ne_zero : p ≢ 0
  pub small : p < 2 ^ 20

some_pair :
    (x y : ℕ) (m n : Memory)
    → ◌≡◌ {A = Option (Option ℕ × Memory)} (some (some x, m)) (some (some y, n))
    → (x ≡ y) × (m ≡ n)
some_pair x y m n e = (cc, cc)

-- `page_alloc` of a list of free pages takes a page, or finds none and changes nothing.
pub page_alloc-Taken :
    (m : Memory)
    → HasFreeList m
    → (page_alloc m ≡ some (none, m))
      ⊎ ((p : ℕ) × (n : Memory) × (page_alloc m ≡ some (some p, n)) × Taken m n p)
page_alloc-Taken m ([], l, room) = elim (page_alloc_lem m [] l (omega arith)) [
  | inl (e, run) ↦ inl run
  | inr (x, ys, n, e, run, left, taken) ↦ absurd (cc e)
]
page_alloc-Taken m (x ∷ xs, l, room) = elim (page_alloc_lem m (x ∷ xs) l (omega (arith, room))) [
  | inl (e, run) ↦ absurd (cc e)
  | inr (y, ys, n, e, run, left, taken) ↦
      let same = some_pair y x n (popped m x xs) (sym run ∙ page_alloc-popped m x xs l) in
      let long : length ys + 1 < 2 ^ 32 = omega (arith, room, ap length e) in
      inr (
        y,
        n,
        run,
        record {
          was_free = rw same.0 l.chain.0.free;
          used = ap (λ q. q.free) taken;
          no_ref = taken;
          others = λ z apart. ground (arith, same.0, same.1, apart);
          list = (ys, left, long);
          ne_zero = rw same.0 l.chain.0.ne_zero;
          small = rw same.0 l.chain.0.small;
        },
      )
]

pub TmpArea-same : (v w : Vm) → w.areas ≡ v.areas → w.spaces 0 ≡ v.spaces 0 → TmpArea v → TmpArea w
TmpArea-same v w a s area = record {
  whole = subst (λ x. x.tmp_base % 4096 ≡ 0) (sym a) area.whole;
  room = subst (λ x. x.tmp_base + 4194304 ≤ 2 ^ 32) (sym a) area.room;
  low =
      subst (λ x. x.info.layout.kernel_base ≤ w.areas.tmp_base) (sym s)
        (subst (λ x. (v.spaces 0).info.layout.kernel_base ≤ x.tmp_base) (sym a) area.low);
  high =
      subst (λ x. w.areas.tmp_base + 4194304 ≤ x.info.layout.kernel_top) (sym s)
        (subst (λ x. x.tmp_base + 4194304 ≤ (v.spaces 0).info.layout.kernel_top) (sym a) area.high);
}

-- The order depends on the directory of the kernel, the bitmap and the free pages alone.
pub IsReady-same :
    (v w : Vm)
    → w.areas ≡ v.areas
    → w.tmp_pages ≡ v.tmp_pages
    → w.spaces 0 ≡ v.spaces 0
    → HasFreeList w.memory
    → IsReady v
    → IsReady w
IsReady-same v w a t s m ready = record {
  area = TmpArea-same v w a s ready.area;
  bits = λ r less.
      let (pte, there, agrees) = ready.bits r less in
      (
        pte,
        subst (λ x. page_get x.info (tmp_va w r) ≡ some pte) (sym s)
            (subst (λ x. page_get (v.spaces 0).info (x.tmp_base + r * 4096) ≡ some pte) (sym a)
              there),
        agrees ∙ sym (ap (λ x. bitmap_test x r) t),
      );
  pages = m;
}
