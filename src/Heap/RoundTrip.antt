-- ===== src/Heap/RoundTrip.antt =====
-- `kmalloc` and then `kfree` of kernel/memory/kmalloc.cpp.
use makarna_x.Base.{
  ℕ, zero, suc, ◌+◌, ◌-◌, ◌/◌, ◌%◌, ◌<◌, ◌≤◌, ◌≡◌, refl, ap, ◌∙◌, ◌⊎◌, inl, inr, true, false, not,
  ◌&&◌, Option, none, some, List, [], ◌∷◌, ◌==◌, ltb, if◌then◌else◌, is_some, arith, Bool-cases,
  subst,
}
use native.Mathlib.Nat.{zero-div}
use makarna_x.Heap.State.{
  used, Heap, H, pure, continue, assert, ◌>>=◌, ◌>>◌, block_size, pair, put_owner, put_list,
  push_front, is_free, is_used,
}
use makarna_x.Heap.Kmalloc.{
  split_down, set_used, set_free, merge_up, can_merge, put_back, first_fit, first_list, take_front,
  give, from_lists, search, acquire, kmalloc, free_at, kfree,
}
use makarna_x.Heap.Buddy.{IsAligned, block_size_pos}
use makarna_x.Heap.Halves.{free_block, HasNone}
use makarna_x.Heap.Undo.{up, up_add, Like, IsSplittable, Undone, undone}
use makarna_x.Heap.Steps.{
  first_list_lem, used_at, free_again, set_used_lem, set_free_lem, Freed-free_again, merge_up_stops,
  first_fit_lem,
}

-- The block `b` at the front of the list `i` is the first for `size` bytes, which want a block of size
-- `u`: it is whole and free, its page has no free block between these sizes, and its pair is no free
-- block of its size.
pub record IsFirst (h : Heap) (size u i b : ℕ) (bs : List ℕ) : Type 0 where
  pub small : size ≤ 2044
  pub unlocked : h.locked ≡ false
  pub fit : first_fit 7 0 size ≡ some u
  pub found : first_list (7 - u) u h.lists ≡ some (i, b, bs)
  pub head : h.headers b ≡ free_block i
  pub aligned : IsAligned b i
  pub full : (j : ℕ) → u ≤ j → j < i → HasNone h b j
  pub apart : can_merge h b i ≡ false

-- The state with the lock, after the block has left its list.
abbrev taken : Heap → ℕ → ℕ → List ℕ → Heap
taken h i b bs = put_owner (put_list (record h { locked = true }) i bs) b none

pub acquire_lem : (h : Heap) → acquire h ≡ some (tt, record h { locked = true })
acquire_lem h = refl

take_front_lem :
    (h : Heap) (i b : ℕ) (bs : List ℕ)
    → h.headers b ≡ free_block i
    → take_front i b bs h ≡ some (tt, put_owner (put_list h i bs) b none)
take_front_lem h i b bs head = ground (arith, head)

pub give_lem :
    (k u b : ℕ) (h h1 : Heap)
    → h.owner b ≡ none
    → Undone h h1 b u k
    → give k u b h ≡ some (some (b + 4), record (used_at h1 b u) { locked = false })
give_lem k u b h h1 loose c =
    let last : H (Option ℕ) = λ w. some (some (b + 4), record w { locked = false }) in
    ap (λ o. (assert (not (is_some o)) >> (split_down k u b >> (set_used b >> last))) h) loose
    ∙ ap (continue (λ v. set_used b >> last)) c.run
    ∙ ap (continue (λ v. last)) (set_used_lem h1 b u c.head c.loose)

from_lists_lem :
    (h : Heap) (u i b : ℕ) (bs : List ℕ)
    → first_list (7 - u) u h.lists ≡ some (i, b, bs)
    → from_lists u h ≡ (take_front i b bs >> give (i - u) u b) h
from_lists_lem h u i b bs e = rw (from_lists, e) refl

kmalloc_lem :
    (h h1 : Heap) (size u i b k : ℕ) (bs : List ℕ)
    → IsFirst h size u i b bs
    → i ≡ up k u
    → Undone (taken h i b bs) h1 b u k
    → kmalloc size h ≡ some (some (b + 4), record (used_at h1 b u) { locked = false })
unfolding kmalloc
kmalloc_lem h h1 size u i b k bs c level d =
    let w = record h { locked = true } in
    let small : ltb 2044 size ≡ false = ground (arith, c.small) in
    let rounds : i - u ≡ k = omega (arith, level, up_add k u) in
    ap (λ q. (if q then pure none else (acquire >> search (first_fit 7 0 size))) h) small
    ∙ ap (continue (λ v. search (first_fit 7 0 size))) (acquire_lem h)
    ∙ ap (λ o. search o w) c.fit
    ∙ from_lists_lem w u i b bs c.found
    ∙ ap (continue (λ v. give (i - u) u b)) (take_front_lem w i b bs c.head)
    ∙ ap (λ n. give n u b (taken h i b bs)) rounds
    ∙ give_lem k u b (taken h i b bs) h1 (ground arith) d

not_zero : (b i : ℕ) → (b / block_size i % 2 == 0) ≡ false → 0 < b
not_zero zero i odd = absurd (ground (arith, zero-div (block_size i), odd))
not_zero (suc b) i odd = omega arith

outside_pair : (b i : ℕ) → (pair b i < b) ⊎ (b + block_size i ≤ pair b i)
outside_pair b i =
    let pos = block_size_pos i in
    elim (Bool-cases (b / block_size i % 2 == 0)) [
      | inl left ↦ inr (rw left (omega arith))
      | inr right ↦ inl (rw right (omega (arith, pos, not_zero b i right)))
    ]

-- The end of `kfree` with the block in no list.
abbrev listed : Heap → ℕ → ℕ → Heap
listed h b i = record (put_owner (put_list h i (b ∷ h.lists i)) b (some i)) { locked = false }

put_back_lem :
    (h : Heap) (b i : ℕ)
    → i < 7
    → h.owner b ≡ none
    → (put_back (b, i) >> (λ u. some (tt, record u { locked = false }))) h ≡ some (tt, listed h b i)
unfolding push_front
put_back_lem h b i less loose = ground (arith, less, loose)

abbrev pub unlock : H (Unit {0})
unlock u = some (tt, record u { locked = false })

pub free_at_run :
    (g h3 h4 : Heap) (b u i : ℕ)
    → g.headers b ≡ record { sizeno = u; flag = used }
    → merge_up (7 - u) u b (free_again g b u) ≡ some ((b, i), h3)
    → (put_back (b, i) >> unlock) h3 ≡ some (tt, h4)
    → free_at b g ≡ some (tt, h4)
unfolding free_at
free_at_run g h3 h4 b u i head run last =
    let tail = λ (r : ℕ × ℕ). put_back r >> unlock in
    ap
      (λ v.
        (assert (is_used v.flag) >> (set_free b >> (merge_up (7 - v.sizeno) v.sizeno b >>= tail)))
          g)
      head
    ∙ ap (continue (λ v. merge_up (7 - u) u b >>= tail)) (set_free_lem g b u head)
    ∙ ap (continue tail) run
    ∙ last

free_at_lem :
    (g h3 : Heap) (b u i : ℕ)
    → i < 7
    → g.headers b ≡ record { sizeno = u; flag = used }
    → merge_up (7 - u) u b (free_again g b u) ≡ some ((b, i), h3)
    → h3.owner b ≡ none
    → free_at b g ≡ some (tt, listed h3 b i)
free_at_lem g h3 b u i less head run loose =
    free_at_run g h3 (listed h3 b i) b u i head run (put_back_lem h3 b i less loose)

-- What the call of `kmalloc` and that of `kfree` leave: the lists, the pages and the lock.
pub record IsBack (h h' : Heap) : Type 0 where
  pub lists : (t : ℕ) → h'.lists t ≡ h.lists t
  pub pages : h'.pages ≡ h.pages
  pub unlocked : h'.locked ≡ false

-- What the two calls give.
abbrev pub GivesBack : Heap → ℕ → ℕ → ℕ → Type 0
GivesBack h size u b =
    (h1 : Heap) × (h2 : Heap) × (kmalloc size h ≡ some (some (b + 4), h1))
    × (h1.headers b ≡ record { sizeno = u; flag = used })
    × (size ≤ block_size u - 4)
    × (kfree (b + 4) h1 ≡ some (tt, h2))
    × IsBack h h2

module _ (h : Heap) (size u k b : ℕ) (bs : List ℕ) (c : IsFirst h size u (up k u) b bs)
    (at : h.lists (up k u) ≡ b ∷ bs) (high : up k u < 7)
    (before : (j : ℕ) → u ≤ j → j < up k u → h.lists j ≡ []) where
  abbrev start : Heap
  start = taken h (up k u) b bs

  start-IsSplittable : IsSplittable start b u k
  start-IsSplittable = record {
    head = c.head;
    loose = ground arith;
    aligned = c.aligned;
    empty = λ j low less. ground (arith, before j low less, less);
    full = c.full;
  }

  rounds : 7 - u ≡ up k (7 - up k u)
  rounds = omega (arith, up_add k u, up_add k (7 - up k u), high)

  stops : (h3 : Heap) → Like start h3 b (block_size (up k u)) → can_merge h3 b (up k u) ≡ false
  stops h3 like =
      let out = outside_pair b (up k u) in
      ap (λ v. is_free v.flag && v.sizeno == up k u) (like.headers (pair b (up k u)) out) ∙ c.apart

  back : (h3 : Heap) → Like start h3 b (block_size (up k u)) → IsBack h (listed h3 b (up k u))
  back h3 like = record {
    lists = λ t. let e = like.lists t in let e2 = like.lists (up k u) in ground (arith, e, e2, at);
    pages = like.pages;
    unlocked = refl;
  }

  round_trip : GivesBack h size u b
  unfolding kfree
  round_trip =
      let (room, low) = first_fit_lem 7 0 size u c.fit in
      let (h1, d) = undone k u b start start-IsSplittable in
      let g = record (used_at h1 b u) { locked = true } in
      let (h3, run, like, head3, loose3) =
        d.undo (free_again g b u) (7 - up k u) (Freed-free_again h1 b u d.loose d.locked) in
      let merged : merge_up (7 - u) u b (free_again g b u) ≡ some ((b, up k u), h3) =
        ap (λ n. merge_up n u b (free_again g b u)) rounds
        ∙ run
        ∙ merge_up_stops (7 - up k u) (up k u) b h3 (stops h3 like) in
      let block : b + 4 - 4 ≡ b = omega arith in
      (
        record (used_at h1 b u) { locked = false },
        listed h3 b (up k u),
        kmalloc_lem h h1 size u (up k u) b k bs c refl d,
        ground arith,
        room,
        ap (λ v. free_at v g) block
            ∙ free_at_lem g h3 b u (up k u) high (ground arith) merged loose3,
        back h3 like,
      )

-- Where the first list with a block that has room has one that is whole and free and whose pair is not a
-- free block of its size, `kmalloc` returns the address behind the header of a block in use that has
-- room for `size` bytes, whatever the number of splits it takes. `kfree` of that address then merges
-- the block with all the halves that were split off, and no further: every list of free blocks, in
-- its order, and the pages are as before, and the lock is free.
pub kmalloc-kfree :
    (h : Heap) (size u i b : ℕ) (bs : List ℕ)
    → IsFirst h size u i b bs
    → (h1 : Heap) × (h2 : Heap) × (kmalloc size h ≡ some (some (b + 4), h1))
      × (h1.headers b ≡ record { sizeno = u; flag = used })
      × (size ≤ block_size u - 4)
      × (kfree (b + 4) h1 ≡ some (tt, h2))
      × IsBack h h2
kmalloc-kfree h size u i b bs c =
    let (room, low) = first_fit_lem 7 0 size u c.fit in
    let (k, level, at, high, before) = first_list_lem (7 - u) u i b bs h.lists c.found in
    round_trip h size u k b bs (subst (λ j. IsFirst h size u j b bs) level c)
      (subst (λ j. h.lists j ≡ b ∷ bs) level at) (omega (arith, high, level, low))
      (λ j a less. before j a (omega (arith, level, less)))
