-- ===== src/Memory/Queue.antt =====
-- `page_free`, `page_alloc` and the reference counts of Memory/Pages.antt on a well-formed list.
use mathlib.Core.Path.{fun_ext}
use native.Mathlib.Numerals.{add-one}
use makarna_x.Base.{
  ℕ, ◌+◌, ◌^◌, ◌<◌, ◌≡◌, ◌≢◌, refl, ap, sym, ◌⊎◌, inl, inr, Bool-cases, true, false, none, some,
  List, [], ◌∷◌, ◌++◌, arith, length, length-append, has, has-append, Distinct-push,
}
use makarna_x.Memory.Pages.{
  Page, Pages, put, set_next, inc32, dec32, dec20, Memory, type_available, insert, link_last,
  page_free, page_alloc, get_first, unlink_first, next_free, refcount_get, refcount_dec,
}
use makarna_x.Memory.FreeList.{
  first, last, last_or, IsFreePage, Chain, IsFreeList, Chain-frame, has-last_or, last_or-push,
  Chain-push, field20_small, inc32_small, dec32_pos, dec20_pos, set_next-free, set_next_self,
}

-- A page that may be given to `page_free`: available, in use, with no reference.
pub record IsReleased (m : Memory) (i : ℕ) : Type 0 where
  pub available : (m.pages i).type ≡ type_available
  pub used : (m.pages i).free ≡ false
  pub no_ref : (m.pages i).next_or_ref ≡ 0
  pub ne_zero : i ≢ 0
  pub small : i < 2 ^ 20

-- The array after a page has been marked free, and its link set to 0.
abbrev marked : Pages → ℕ → Pages
marked pages i = set_next (put pages i (record (pages i) { free = true })) i 0

abbrev pushed_pages : Pages → List ℕ → ℕ → Pages
pushed_pages pages [] i = marked pages i
pushed_pages pages (x ∷ xs) i = set_next (marked pages i) (last_or x xs) i

-- The memory after page `i` has joined the list `xs`.
abbrev pub pushed : Memory → List ℕ → ℕ → Memory
pushed m xs i = record m {
  pages = pushed_pages m.pages xs i;
  begin = first (xs ++ i ∷ []);
  end = some i;
  count = inc32 m.count;
}

pub free_of_has :
    (pages : Pages) (xs : List ℕ) (i : ℕ) → Chain pages xs → has i xs ≡ true → (pages i).free ≡ true
free_of_has pages [] i c h = cc
free_of_has pages (x ∷ xs) i c h = ground (arith, c.0.free, free_of_has pages xs i c.2)

outside : (m : Memory) (xs : List ℕ) (i : ℕ) → IsFreeList m xs → IsReleased m i → has i xs ≡ false
outside m xs i l r = elim (Bool-cases (has i xs)) [
  | inl listed ↦ absurd (ground (arith, free_of_has m.pages xs i l.chain listed, r.used))
  | inr out ↦ out
]

page_free-pushed :
    (m : Memory) (xs : List ℕ) (i : ℕ)
    → IsFreeList m xs
    → IsReleased m i
    → page_free m i ≡ some (pushed m xs i)
unfolding page_free insert link_last refcount_get
page_free-pushed m [] i l r =
    ground (arith, l.begin, l.end, r.available, r.used, r.no_ref, r.ne_zero)
page_free-pushed m (x ∷ xs) i l r =
    ground (arith, l.begin, l.end, r.available, r.used, r.no_ref, r.ne_zero)

marked_ne : (pages : Pages) (i j : ℕ) → i ≢ j → marked pages i j ≡ pages j
marked_ne pages i j h = ground arith

IsFreePage-marked : (m : Memory) (i : ℕ) → IsReleased m i → IsFreePage (marked m.pages i) i
IsFreePage-marked m i r = record { free = ground arith; ne_zero = r.ne_zero; small = r.small }

Chain-marked :
    (m : Memory) (xs : List ℕ) (i : ℕ)
    → IsFreeList m xs
    → IsReleased m i
    → Chain (marked m.pages i) xs
Chain-marked m xs i l r =
    Chain-frame m.pages (marked m.pages i) xs l.chain
      (λ j k. marked_ne m.pages i j (ground (arith, outside m xs i l r)))

Chain-pushed :
    (m : Memory) (xs : List ℕ) (i : ℕ)
    → IsFreeList m xs
    → IsReleased m i
    → Chain (pushed_pages m.pages xs i) (xs ++ i ∷ [])
Chain-pushed m [] i l r = (
  IsFreePage-marked m i r,
  set_next_self (put m.pages i (record (m.pages i) { free = true })) i 0 (omega arith),
  tt,
)
Chain-pushed m (x ∷ xs) i l r =
    Chain-push (marked m.pages i) x xs i (Chain-marked m (x ∷ xs) i l r) l.distinct
      (outside m (x ∷ xs) i l r) (IsFreePage-marked m i r)
      (set_next_self (put m.pages i (record (m.pages i) { free = true })) i 0 (omega arith))

pushed_free :
    (m : Memory) (xs : List ℕ) (i j : ℕ)
    → (pushed_pages m.pages xs i j).free ≡ true
    → (i ≡ j) ⊎ ((m.pages j).free ≡ true)
pushed_free m [] i j h = ground arith
pushed_free m (x ∷ xs) i j h =
    ground (arith, set_next-free (marked m.pages i) (last_or x xs) i j, marked_ne m.pages i j)

last-push : (xs : List ℕ) (i : ℕ) → last (xs ++ i ∷ []) ≡ some i
last-push [] i = refl
last-push (x ∷ xs) i = ap some (last_or-push x xs i)

-- Where a page other than 0, with a number below 2 ^ 20, is marked available, is not free and has no reference, and the count of
-- free pages has room for one more, `page_free` never fails: it puts the page at the end of the list
-- of free pages, whose other pages stay in their order.
pub page_free-push :
    (m : Memory) (xs : List ℕ) (i : ℕ)
    → IsFreeList m xs
    → IsReleased m i
    → length xs + 1 < 2 ^ 32
    → (m' : Memory) × (page_free m i ≡ some m') × IsFreeList m' (xs ++ i ∷ [])
page_free-push m xs i l r room = (
  pushed m xs i,
  page_free-pushed m xs i l r,
  record {
    begin = refl;
    end = sym (last-push xs i);
    count = rw l.count (omega (arith, length-append xs (i ∷ []), inc32_small (length xs) room));
    chain = Chain-pushed m xs i l r;
    distinct = Distinct-push xs i l.distinct (outside m xs i l r);
    all_free =
        λ j h. ground (arith, pushed_free m xs i j h, has-append j xs (i ∷ []), l.all_free j);
  },
)

-- The memory after the first page `x` has been taken from the list.
abbrev pub popped : Memory → ℕ → List ℕ → Memory
popped m x xs = record m {
  pages = put m.pages x (record { next_or_ref = 0; free = false; type = type_available });
  begin = first xs;
  end = last xs;
  count = dec32 m.count;
}

put_ne : (pages : Pages) (x j : ℕ) (p : Page) → x ≢ j → put pages x p j ≡ pages j
put_ne pages x j p h = ground arith

apart : (x y : ℕ) (ys : List ℕ) → has x (y ∷ ys) ≡ false → last_or y ys ≢ x
apart x y ys out = ground (arith, has-last_or y ys)

ne_of_has : (x j : ℕ) (xs : List ℕ) → has x xs ≡ false → has j xs ≡ true → x ≢ j
ne_of_has x j xs out h = ground arith

taken_pages :
    (pages : Pages) (x : ℕ)
    → put
        (set_next pages x 0)
        x
        (record (set_next pages x 0 x) { free = false; type = type_available })
      ≡ put pages x (record { next_or_ref = 0; free = false; type = type_available })
taken_pages pages x = fun_ext λ j. ground (arith, field20_small 0 (omega arith))

page_alloc_only :
    (m : Memory) (x : ℕ)
    → m.begin ≡ some x
    → m.end ≡ some x
    → (m.pages x).free ≡ true
    → page_alloc m ≡ some (some x, popped m x [])
unfolding page_alloc get_first unlink_first next_free
page_alloc_only m x b e f = ground (arith, taken_pages m.pages x)

page_alloc-first :
    (m : Memory) (x e : ℕ) (xs : List ℕ)
    → m.begin ≡ some x
    → m.end ≡ some e
    → last xs ≡ some e
    → first xs ≡ some (m.pages x).next_or_ref
    → e ≢ x
    → (m.pages x).free ≡ true
    → page_alloc m ≡ some (some x, popped m x xs)
unfolding page_alloc get_first unlink_first next_free
page_alloc-first m x e xs b t l f differ free = ground (arith, taken_pages m.pages x)

pub page_alloc-popped :
    (m : Memory) (x : ℕ) (xs : List ℕ)
    → IsFreeList m (x ∷ xs)
    → page_alloc m ≡ some (some x, popped m x xs)
page_alloc-popped m x [] l = page_alloc_only m x l.begin l.end l.chain.0.free
page_alloc-popped m x (y ∷ ys) l =
    page_alloc-first m x (last_or y ys) (y ∷ ys) l.begin l.end refl (ap some (sym l.chain.1))
      (apart x y ys l.distinct.0) l.chain.0.free

page_alloc-nil : (m : Memory) → IsFreeList m [] → page_alloc m ≡ some (none, m)
unfolding page_alloc get_first
page_alloc-nil m l = ground (arith, l.begin)

page_alloc-cons :
    (m : Memory) (x : ℕ) (xs : List ℕ)
    → IsFreeList m (x ∷ xs)
    → length xs + 1 < 2 ^ 32
    → (m' : Memory) × (page_alloc m ≡ some (some x, m'))
      × IsFreeList m' xs
      × (m'.pages x ≡ record { next_or_ref = 0; free = false; type = type_available })
page_alloc-cons m x xs l room = (
  popped m x xs,
  page_alloc-popped m x xs l,
  record {
    begin = refl;
    end = refl;
    count = rw (l.count, ← add-one (length xs)) (dec32_pos (length xs) room);
    chain = Chain-frame m.pages (popped m x xs).pages xs l.chain.2 (λ j h.
        put_ne m.pages x j (record { next_or_ref = 0; free = false; type = type_available })
          (ne_of_has x j xs l.distinct.0 h));
    distinct = l.distinct.1;
    all_free = λ j h. ground (arith, l.all_free j);
  },
  ground arith,
)

-- `page_alloc` never stops. Where no page is free it returns -ENOMEM and changes nothing; otherwise it
-- takes the first page of the list, without a reference and marked available, and leaves the other
-- free pages in their order.
pub page_alloc_lem :
    (m : Memory) (xs : List ℕ)
    → IsFreeList m xs
    → length xs < 2 ^ 32
    → ((xs ≡ []) × (page_alloc m ≡ some (none, m)))
      ⊎ ((x : ℕ) × (ys : List ℕ) × (m' : Memory) × (xs ≡ x ∷ ys)
          × (page_alloc m ≡ some (some x, m'))
          × IsFreeList m' ys
          × (m'.pages x ≡ record { next_or_ref = 0; free = false; type = type_available }))
page_alloc_lem m [] l room = inl (refl, page_alloc-nil m l)
page_alloc_lem m (x ∷ xs) l room =
    let (m', run, left, taken) = page_alloc-cons m x xs l (omega arith) in
    inr (x, xs, m', refl, run, left, taken)

-- An available page whose last reference goes is put at the end of the list of free pages, and the
-- new count is 0.
pub refcount_dec-last :
    (m : Memory) (xs : List ℕ) (i : ℕ)
    → IsFreeList m xs
    → (m.pages i).free ≡ false
    → (m.pages i).type ≡ type_available
    → (m.pages i).next_or_ref ≡ 1
    → i ≢ 0
    → i < 2 ^ 20
    → length xs + 1 < 2 ^ 32
    → (m' : Memory) × (refcount_dec m i ≡ some (0, m')) × IsFreeList m' (xs ++ i ∷ [])
unfolding refcount_dec
refcount_dec-last m xs i l used available one ne_zero small room =
    let less = put m.pages i (record (m.pages i) { next_or_ref = dec20 (m.pages i).next_or_ref }) in
    let zero_left : dec20 (m.pages i).next_or_ref ≡ 0 =
      rw one (dec20_pos 1 (omega arith) (omega arith)) in
    let l' : IsFreeList (record m { pages = less }) xs = record {
      begin = l.begin;
      end = l.end;
      count = l.count;
      chain =
          Chain-frame m.pages less xs l.chain
            (λ j h. ground (arith, free_of_has m.pages xs j l.chain h));
      distinct = l.distinct;
      all_free = λ j h. ground (arith, l.all_free j);
    } in
    let (m', run, after) =
      page_free-push (record m { pages = less }) xs i l'
        (record {
          available = ground arith;
          used = ground arith;
          no_ref = ground arith;
          ne_zero = ne_zero;
          small = small;
        })
        room in
    (m', ground arith, after)
