-- ===== src/Heap/Halves.antt =====
-- What `split` and `merge` of kernel/memory/kmalloc.cpp do to a block and its right half.
use makarna_x.Base.{
  ℕ, suc, ◌+◌, ◌<◌, ◌≡◌, ◌≢◌, refl, ap, ◌∙◌, true, none, some, [], ◌∷◌, ◌++◌, ◌==◌, if◌then◌else◌,
  arith,
}
use makarna_x.Heap.State.{
  free, Header, Heap, continue, ◌>>◌, block_size, pair, page_of, add, sub, put_header, put_owner,
  put_list, put_page, erase, unlist, push_back,
}
use makarna_x.Heap.Kmalloc.{halve, split, split_at, merge, merge_pair, merge_up, can_merge, lower}
use makarna_x.Heap.Buddy.{IsAligned, left_half, block_size_pos}

-- The header of a free block.
abbrev pub free_block : ℕ → Header
free_block s = record { sizeno = s; flag = free }

-- The page of the block has no free block of size `s` in its counts.
abbrev pub HasNone : Heap → ℕ → ℕ → Type 0
HasNone h b s = (h.page_headers (page_of b)).count s ≡ (h.page_headers (page_of b)).count_used s

-- What `split` of the block `b` does, whose right half is `r`, of size `s`.
pub record Halved (h h' : Heap) (b r s : ℕ) : Type 0 where
  pub lists : (t : ℕ) → h'.lists t ≡ (if s == t then h.lists s ++ r ∷ [] else h.lists t)
  pub headers :
      (a : ℕ)
      → h'.headers a
        ≡ (if r == a then free_block s else (if b == a then free_block s else h.headers a))
  pub owner : (a : ℕ) → h'.owner a ≡ (if r == a then some s else h.owner a)
  pub pages : h'.pages ≡ h.pages
  pub locked : h'.locked ≡ h.locked
  pub counts : (j : ℕ) → j < s → HasNone h b j → HasNone h' b j

count_below : (c : ℕ → ℕ) (s j : ℕ) → j < s → add (sub c (suc s) 1) s 2 j ≡ c j
unfolding add sub
count_below c s j less = ground (arith, less)

-- The state after `halve`, with the right half `r`.
abbrev pub halved : Heap → ℕ → ℕ → ℕ → Heap
halved h b r s =
    let v = h.page_headers (page_of b) in
    let w = put_header h b (record (h.headers b) { sizeno = s }) in
    let w1 =
      put_page w (page_of b)
        (record { count = add (sub v.count (suc s) 1) s 2; count_used = v.count_used }) in
    let w2 = put_owner (put_header w1 r (w1.headers b)) r none in
    put_owner (put_list w2 s (w2.lists s ++ r ∷ [])) r (some s)

halve_lem :
    (h : Heap) (b s : ℕ)
    → pair b s ≡ b + block_size s
    → halve b s h ≡ some (tt, halved h b (b + block_size s) s)
unfolding halve push_back
halve_lem h b s e =
    let ok : (pair b s == b + block_size s) ≡ true = ground (arith, e) in rw (halve, ok) refl

pub Halved-halve :
    (h : Heap) (b r s : ℕ)
    → h.headers b ≡ free_block (suc s)
    → b ≢ r
    → Halved h (halved h b r s) b r s
Halved-halve h b r s head apart = record {
  lists = λ t. refl;
  headers = λ a. ground (arith, head, apart);
  owner = λ a. ground arith;
  pages = refl;
  locked = refl;
  counts =
      λ j less same. ground (arith, same, count_below (h.page_headers (page_of b)).count s j less);
}

pair_right : (b s : ℕ) → IsAligned b (suc s) → pair b s ≡ b + block_size s
pair_right b s at = rw (left_half b s at) refl

split_at_lem :
    (h : Heap) (b s : ℕ)
    → h.owner b ≡ none
    → HasNone h b s
    → IsAligned b (suc s)
    → split_at b (suc s) h ≡ some (tt, halved h b (b + block_size s) s)
split_at_lem h b s loose full at =
    let ok : ((h.page_headers (page_of b)).count s == (h.page_headers (page_of b)).count_used s)
        ≡ true =
      ground (arith, full) in
    rw ok rw loose (halve_lem h b s (pair_right b s at))

pub split_lem :
    (h : Heap) (b s : ℕ)
    → h.headers b ≡ free_block (suc s)
    → h.owner b ≡ none
    → HasNone h b s
    → IsAligned b (suc s)
    → split b h ≡ some (tt, halved h b (b + block_size s) s)
unfolding split
split_lem h b s head loose full at =
    ap (λ v. split_at b v.sizeno h) head ∙ split_at_lem h b s loose full at

-- What `merge` of the left half `b` with its free pair `r` of size `s` does.
pub record Merged (h h' : Heap) (b r s : ℕ) : Type 0 where
  pub lists : (t : ℕ) → h'.lists t ≡ (if s == t then [] else h.lists t)
  pub headers : (a : ℕ) → h'.headers a ≡ (if b == a then free_block (suc s) else h.headers a)
  pub owner : (a : ℕ) → h'.owner a ≡ (if r == a then none else h.owner a)
  pub pages : h'.pages ≡ h.pages
  pub locked : h'.locked ≡ h.locked

abbrev pub merged : Heap → ℕ → ℕ → ℕ → Heap
merged h b r s =
    let w = put_owner (put_list h s (erase r (h.lists s))) r none in
    let v = w.page_headers (page_of b) in
    let w1 =
      put_page w (page_of b)
        (record { count = add (sub v.count s 2) (suc s) 1; count_used = v.count_used }) in
    put_header w1 b (record (w1.headers b) { sizeno = suc s })

pub Merged-merged :
    (h : Heap) (b r s : ℕ)
    → h.headers b ≡ free_block s
    → h.lists s ≡ r ∷ []
    → Merged h (merged h b r s) b r s
Merged-merged h b r s head only = record {
  lists = λ t. ground (arith, only);
  headers = λ a. ground (arith, head);
  owner = λ a. refl;
  pages = refl;
  locked = refl;
}

pub unlist_lem :
    (h : Heap) (r s : ℕ)
    → h.owner r ≡ some s
    → unlist r h ≡ some (tt, put_owner (put_list h s (erase r (h.lists s))) r none)
unfolding unlist
unlist_lem h r s e = rw (unlist, e) refl

can_merge_lem : (h : Heap) (b s : ℕ) → h.headers (pair b s) ≡ free_block s → can_merge h b s ≡ true
can_merge_lem h b s e = rw e ground arith

merge_pair_lem :
    (h : Heap) (b r s : ℕ)
    → b ≢ r
    → h.headers b ≡ free_block s
    → h.headers r ≡ free_block s
    → h.owner b ≡ none
    → h.owner r ≡ some s
    → merge_pair r b b s h ≡ some (tt, merged h b r s)
unfolding merge_pair unlist
merge_pair_lem h b r s apart head right loose at = ground (arith, head, right, loose, at, apart)

merge_lem :
    (h : Heap) (b s : ℕ)
    → IsAligned b (suc s)
    → h.headers b ≡ free_block s
    → h.headers (b + block_size s) ≡ free_block s
    → h.owner b ≡ none
    → h.owner (b + block_size s) ≡ some s
    → merge b s h ≡ some (tt, merged h b (b + block_size s) s)
unfolding merge
merge_lem h b s at head right loose listed =
    let pos = block_size_pos s in
    ap (λ p. merge_pair p (lower b s) b s h) (pair_right b s at)
    ∙ ap (λ q. merge_pair (b + block_size s) (if q then b else pair b s) b s h) (left_half b s at)
    ∙ merge_pair_lem h b (b + block_size s) s (λ e. absurd (omega (arith, e, pos))) head right loose
        listed

pub merge_up_step :
    (k : ℕ) (h : Heap) (b s : ℕ)
    → IsAligned b (suc s)
    → h.headers b ≡ free_block s
    → h.headers (b + block_size s) ≡ free_block s
    → h.owner b ≡ none
    → h.owner (b + block_size s) ≡ some s
    → merge_up (suc k) s b h ≡ merge_up k (suc s) b (merged h b (b + block_size s) s)
unfolding merge_up
merge_up_step k h b s at head right loose listed =
    let go : can_merge h b s ≡ true =
      can_merge_lem h b s (ap h.headers (pair_right b s at) ∙ right) in
    ap (λ q. if q then (merge b s >> merge_up k (suc s) (lower b s)) h else some ((b, s), h)) go
    ∙ ap (λ q. (merge b s >> merge_up k (suc s) (if q then b else pair b s)) h) (left_half b s at)
    ∙ ap (continue (λ u. merge_up k (suc s) b)) (merge_lem h b s at head right loose listed)
