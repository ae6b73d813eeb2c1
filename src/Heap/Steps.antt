-- ===== src/Heap/Steps.antt =====
-- The steps of `kmalloc` and `kfree` of kernel/memory/kmalloc.cpp.
use makarna_x.Base.{
  ℕ, zero, suc, ◌+◌, ◌-◌, ◌<◌, ◌≤◌, ◌≡◌, refl, sym, ap, ◌∙◌, inl, inr, true, false, none, some,
  List, [], ◌∷◌, ◌==◌, leb, if◌then◌else◌, arith, List-cases, Bool-cases, subst,
}
use makarna_x.Heap.State.{
  used, Heap, ◌>>◌, block_size, page_of, add, sub, put_header, put_owner, put_page,
}
use makarna_x.Heap.Kmalloc.{
  set_used, set_free, merge_up, can_merge, first_fit, first_list, merge, lower,
}
use makarna_x.Heap.Halves.{free_block}
use makarna_x.Heap.Undo.{up, up-suc, Freed}

pub first_list_next :
    (n u : ℕ) (lists : ℕ → List ℕ)
    → lists u ≡ []
    → first_list (suc n) u lists ≡ first_list n (suc u) lists
first_list_next n u lists e = rw (first_list, e) refl

pub first_list_here :
    (n u x : ℕ) (xs : List ℕ) (lists : ℕ → List ℕ)
    → lists u ≡ x ∷ xs
    → first_list (suc n) u lists ≡ some (u, x, xs)
first_list_here n u x xs lists e = rw (first_list, e) refl

-- The list that is found is the first one that is not empty.
pub first_list_lem :
    (n u i b : ℕ) (bs : List ℕ) (lists : ℕ → List ℕ)
    → first_list n u lists ≡ some (i, b, bs)
    → (k : ℕ) × (i ≡ up k u)
      × (lists i ≡ b ∷ bs)
      × (i < u + n)
      × ((j : ℕ) → u ≤ j → j < i → lists j ≡ [])
first_list_lem zero u i b bs lists h = absurd (ground arith)
first_list_lem (suc n) u i b bs lists h = elim (List-cases (lists u)) [
  | inl empty ↦
      let (k, level, at, high, before) =
        first_list_lem n (suc u) i b bs lists (sym (first_list_next n u lists empty) ∙ h) in
      (
        suc k,
        level ∙ up-suc k u,
        at,
        omega (arith, high),
        λ j low less. elim (Bool-cases (j == u)) [
          | inl same ↦ ground (arith, empty, same)
          | inr apart ↦ before j (ground (arith, low, apart)) less
        ],
      )
  | inr (x, xs, at) ↦
      let here : some (u, x, xs) ≡ some (i, b, bs) = sym (first_list_here n u x xs lists at) ∙ h in
      (
        0,
        ground (arith, here),
        ground (arith, here, at),
        ground (arith, here),
        λ j low less. absurd (ground (arith, here, low, less)),
      )
]

-- The state after `set_used` and `set_free` of the block `b` of size `s`.
abbrev pub used_at : Heap → ℕ → ℕ → Heap
used_at h b s =
    let v = h.page_headers (page_of b) in
    put_page (put_header h b (record { sizeno = s; flag = used })) (page_of b)
      (record { count = v.count; count_used = add v.count_used s 1 })

abbrev pub free_again : Heap → ℕ → ℕ → Heap
free_again h b s =
    let v = h.page_headers (page_of b) in
    put_owner
      (put_page (put_header h b (free_block s)) (page_of b)
        (record { count = v.count; count_used = sub v.count_used s 1 }))
      b none

pub set_used_lem :
    (h : Heap) (b s : ℕ)
    → h.headers b ≡ free_block s
    → h.owner b ≡ none
    → set_used b h ≡ some (tt, used_at h b s)
unfolding set_used
set_used_lem h b s head loose = ground (arith, head, loose)

pub set_free_lem :
    (h : Heap) (b s : ℕ)
    → h.headers b ≡ record { sizeno = s; flag = used }
    → set_free b h ≡ some (tt, free_again h b s)
unfolding set_free
set_free_lem h b s head = ground (arith, head)

pub Freed-free_again :
    (h : Heap) (b s : ℕ)
    → h.owner b ≡ none
    → h.locked ≡ true
    → Freed h (free_again (record (used_at h b s) { locked = true }) b s) b s
Freed-free_again h b s loose held = record {
  lists = λ t. refl;
  headers = λ a apart. ground (arith, apart);
  head = ground arith;
  owner = λ a. ground (arith, loose);
  pages = refl;
  locked = sym held;
}

pub merge_up_stops :
    (f s b : ℕ) (h : Heap) → can_merge h b s ≡ false → merge_up f s b h ≡ some ((b, s), h)
unfolding merge_up
merge_up_stops zero s b h e = refl
merge_up_stops (suc f) s b h e =
    ap (λ q. if q then (merge b s >> merge_up f (suc s) (lower b s)) h else some ((b, s), h)) e

pub first_fit_lem :
    (n i size u : ℕ) → first_fit n i size ≡ some u → (size ≤ block_size u - 4) × (u < i + n)
first_fit_lem zero i size u h = absurd (ground arith)
first_fit_lem (suc n) i size u h = elim (Bool-cases (leb size (block_size i - 4))) [
  | inl fits ↦
      let here : i ≡ u = ground (arith, h, fits) in
      subst (λ v. (size ≤ block_size v - 4) × (v < i + suc n)) here
        (ground (arith, fits), omega arith)
  | inr small ↦
      let (a, b) = first_fit_lem n (suc i) size u (ground (arith, h, small)) in
      (a, omega (arith, b))
]
