-- ===== src/Heap/FromPage.antt =====
-- `kmalloc` from a new page and then `kfree` of kernel/memory/kmalloc.cpp.
use makarna_x.Base.{
  ℕ, zero, suc, ◌+◌, ◌-◌, ◌*◌, ◌/◌, ◌%◌, ◌<◌, ◌≤◌, ◌≡◌, ◌≢◌, refl, sym, ap, ◌∙◌, inl, inr, true,
  false, none, some, List, [], ◌∷◌, ◌++◌, ◌==◌, ltb, if◌then◌else◌, arith, Bool-cases, List-cases,
  subst,
}
use makarna_x.Heap.State.{
  used, Heap, pure, continue, ◌>>◌, block_size, page_of, put_header, put_owner, put_list, put_page,
  erase, unlist, push_back,
}
use makarna_x.Heap.Kmalloc.{
  merge_up, init_page, put_back, first_fit, first_list, give, from_page, search, acquire, kmalloc,
  free_at, kfree,
}
use makarna_x.Heap.Buddy.{IsAligned}
use makarna_x.Heap.Halves.{free_block, Halved, halved, Halved-halve, split_lem, unlist_lem}
use makarna_x.Heap.Undo.{
  up, up_add, IsSplittable, Undone, undone, undo-next, after-IsSplittable, half,
}
use makarna_x.Heap.Steps.{
  first_list_next, first_list_here, used_at, free_again, Freed-free_again, first_fit_lem,
}
use makarna_x.Heap.RoundTrip.{IsBack, acquire_lem, give_lem, unlock, free_at_run}
use makarna_x.Heap.Sizes.{from_lists_empty}

-- The page as one block of its own size, with the lock held.
abbrev fresh_page : Heap → ℕ → List ℕ → Heap
fresh_page h p ps =
    put_owner
      (put_page (put_header (record h { locked = true; pages = ps }) p (free_block 7)) (page_of p)
        (record { count = λ s. 0; count_used = λ s. 0 }))
      p none

abbrev half_of : ℕ → ℕ
half_of p = p + block_size 6

-- The state after `init_page`, and after the page's first half has left the list again.
abbrev in_list : Heap → ℕ → List ℕ → Heap
in_list h p ps =
    let a = halved (fresh_page h p ps) p (half_of p) 6 in
    put_owner (put_list a 6 (a.lists 6 ++ p ∷ [])) p (some 6)

abbrev out_of_list : Heap → ℕ → List ℕ → Heap
out_of_list h p ps = let a = in_list h p ps in put_owner (put_list a 6 (erase p (a.lists 6))) p none

init_page_lem :
    (h : Heap) (p : ℕ) (ps : List ℕ)
    → IsAligned p 7
    → init_page p (record h { locked = true; pages = ps }) ≡ some (tt, in_list h p ps)
unfolding init_page push_back
init_page_lem h p ps at =
    ap (continue (λ u. push_back 6 p))
      (split_lem (fresh_page h p ps) p 6 (ground arith) (ground arith) (ground arith) at)

Halved-out_of_list :
    (h : Heap) (p : ℕ) (ps : List ℕ)
    → h.lists 6 ≡ []
    → Halved (fresh_page h p ps) (out_of_list h p ps) p (half_of p) 6
Halved-out_of_list h p ps empty =
    let apart : p ≢ half_of p = λ e. absurd (omega (arith, e)) in
    let d = Halved-halve (fresh_page h p ps) p (half_of p) 6 (ground arith) apart in
    record {
      lists = λ t. ground (arith, empty, apart);
      headers = d.headers;
      owner = λ a. ground (arith, apart);
      pages = refl;
      locked = refl;
      counts = d.counts;
    }

first_list-none :
    (n u : ℕ) (lists : ℕ → List ℕ)
    → first_list n u lists ≡ none
    → (j : ℕ) → u ≤ j
    → j < u + n
    → lists j ≡ []
first_list-none zero u lists h j low high = absurd (omega (arith, low, high))
first_list-none (suc n) u lists h j low high = elim (List-cases (lists u)) [
  | inr (x, xs, at) ↦ absurd (ground (arith, sym (first_list_here n u x xs lists at) ∙ h))
  | inl nil ↦ elim (Bool-cases (j == u)) [
    | inl same ↦ ground (arith, nil, same)
    | inr apart ↦
        first_list-none n (suc u) lists (sym (first_list_next n u lists nil) ∙ h) j
          (ground (arith, low, apart)) (omega (arith, high))
  ]
]

-- No list has a block for `size` bytes, which want one of size `u`, and `p` is the next page.
pub record IsNewPage (h : Heap) (size u p : ℕ) (ps : List ℕ) : Type 0 where
  pub small : size ≤ 2044
  pub unlocked : h.locked ≡ false
  pub fit : first_fit 7 0 size ≡ some u
  pub nothing : first_list (7 - u) u h.lists ≡ none
  pub pages : h.pages ≡ p ∷ ps
  pub aligned : p % 4096 ≡ 0

module _ (h : Heap) (size u k p : ℕ) (ps : List ℕ) (c : IsNewPage h size u p ps)
    (level : up k u ≡ 6) where
  empty : (j : ℕ) → u ≤ j → j < 7 → h.lists j ≡ []
  empty j low high = first_list-none (7 - u) u h.lists c.nothing j low (omega (arith, low, high))

  whole : IsAligned p 7
  whole = (p / 4096, let e = c.aligned in omega (arith, e))

  abbrev start : Heap
  start = fresh_page h p ps

  start-IsSplittable : IsSplittable start p u (suc k)
  start-IsSplittable = record {
    head = ground (arith, level);
    loose = ground arith;
    aligned = subst (λ m. IsAligned p (suc m)) (sym level) whole;
    empty = λ j low less. empty j low (omega (arith, less, level));
    full = λ j low less. ground arith;
  }

  last : h.lists 6 ≡ []
  last = empty 6 (omega (arith, level, up_add k u)) (omega arith)

  out : Halved start (out_of_list h p ps) p (half start p u k start-IsSplittable) (up k u)
  out =
      subst (λ m. Halved start (out_of_list h p ps) p (p + block_size m) m) (sym level)
        (Halved-out_of_list h p ps last)

  rounds : 7 - u ≡ up (suc k) 0
  rounds = omega (arith, level, up_add k u, up_add k 0)

  kmalloc_page :
      (h1 : Heap)
      → Undone (out_of_list h p ps) h1 p u k
      → kmalloc size h ≡ some (some (p + 4), record (used_at h1 p u) { locked = false })
  unfolding kmalloc
  kmalloc_page h1 d =
      let w = record h { locked = true } in
      let small : ltb 2044 size ≡ false = ground (arith, c.small) in
      let less : 6 - u ≡ k = omega (arith, level, up_add k u) in
      ap (λ q. (if q then pure none else (acquire >> search (first_fit 7 0 size))) h) small
      ∙ ap (continue (λ v. search (first_fit 7 0 size))) (acquire_lem h)
      ∙ ap (λ o. search o w) c.fit
      ∙ from_lists_empty w u c.nothing
      ∙ ap (λ qs. from_page u qs w) c.pages
      ∙ ap (continue (λ v. unlist p >> give (6 - u) u p)) (init_page_lem h p ps whole)
      ∙ ap (continue (λ v. give (6 - u) u p)) (unlist_lem (in_list h p ps) p 6 (ground arith))
      ∙ ap (λ n. give n u p (out_of_list h p ps)) less
      ∙ give_lem k u p (out_of_list h p ps) h1 (ground arith) d

  -- The end of `kfree` with the whole page.
  given_back :
      (h3 : Heap)
      → h3.owner p ≡ none
      → (put_back (p, 7) >> unlock) h3
        ≡ some (tt, record h3 { pages = p ∷ h3.pages; locked = false })
  given_back h3 loose =
      let number : page_of p * 4096 ≡ p = let e = c.aligned in omega (arith, e) in
      ground (arith, loose, number)

  page_trip :
      (h1 : Heap) × (h2 : Heap) × (kmalloc size h ≡ some (some (p + 4), h1))
      × (h1.headers p ≡ record { sizeno = u; flag = used })
      × (size ≤ block_size u - 4)
      × (kfree (p + 4) h1 ≡ some (tt, h2))
      × IsBack h h2
  unfolding kfree merge_up
  page_trip =
      let (room, low) = first_fit_lem 7 0 size u c.fit in
      let s2 = out_of_list h p ps in
      let (h1, d) = undone k u p s2 (after-IsSplittable start s2 p u k start-IsSplittable out) in
      let g = record (used_at h1 p u) { locked = true } in
      let (h3, run, like, head3, loose3) =
        undo-next start s2 p u k start-IsSplittable out h1 (free_again g p u) 0 d
          (Freed-free_again h1 p u d.loose d.locked) in
      let merged : merge_up (7 - u) u p (free_again g p u) ≡ some ((p, 7), h3) =
        ap (λ n. merge_up n u p (free_again g p u)) rounds
        ∙ run
        ∙ ap (λ m. some ((p, suc m), h3)) level in
      let block : p + 4 - 4 ≡ p = omega arith in
      (
        record (used_at h1 p u) { locked = false },
        record h3 { pages = p ∷ h3.pages; locked = false },
        kmalloc_page h1 d,
        ground arith,
        room,
        ap (λ v. free_at v g) block
            ∙ free_at_run g h3 (record h3 { pages = p ∷ h3.pages; locked = false }) p u 7
                (ground arith) merged (given_back h3 loose3),
        record {
          lists = like.lists;
          pages = ap (λ qs. p ∷ qs) like.pages ∙ sym c.pages;
          unlocked = refl;
        },
      )

-- Where no list has a block for the bytes and a page is left, `kmalloc` takes the page and returns the
-- address behind the header of a block in use that has room for `size` bytes, whatever the number of
-- splits it takes. `kfree` of that address then merges all of them back into the page and gives the
-- page back: every list of free blocks and the pages are as before, and the lock is free.
pub kmalloc-kfree_page :
    (h : Heap) (size u p : ℕ) (ps : List ℕ)
    → IsNewPage h size u p ps
    → (h1 : Heap) × (h2 : Heap) × (kmalloc size h ≡ some (some (p + 4), h1))
      × (h1.headers p ≡ record { sizeno = u; flag = used })
      × (size ≤ block_size u - 4)
      × (kfree (p + 4) h1 ≡ some (tt, h2))
      × IsBack h h2
kmalloc-kfree_page h size u p ps c =
    let (room, low) = first_fit_lem 7 0 size u c.fit in
    page_trip h size u (6 - u) p ps c (omega (arith, up_add (6 - u) u, low))
