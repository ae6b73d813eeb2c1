-- ===== src/Heap/Tests.antt =====
-- Runs of `kmalloc` and `kfree`, and the theorems at them.
use makarna_x.Base.{
  ℕ, ◌≡◌, refl, false, Option, none, some, List, [], ◌∷◌, ◌==◌, ◌≤◌, leb, arith, if◌then◌else◌,
}
use makarna_x.Heap.State.{
  free, used, other, Heap, H, get, pure, ◌>>=◌, ◌>>◌, add, sub, unlist, push_back, push_front,
}
use makarna_x.Heap.FromPage.{IsNewPage, kmalloc-kfree_page}
use makarna_x.Heap.RoundTrip.{IsFirst, IsBack, kmalloc-kfree}
use makarna_x.Heap.Sizes.{kmalloc_size-first_fit}
use makarna_x.Heap.Kmalloc.{
  kmalloc_size, kmalloc, kfree, free_at, halve, split, split_down, set_used, init_page, set_free,
  merge, merge_pair, merge_up,
}

-- Two pages and no block.
abbrev fresh : Heap
fresh = record {
  lists = λ s. [];
  headers = λ b. record { sizeno = 0; flag = other };
  owner = λ b. none;
  page_headers = λ p. record { count = λ s. 0; count_used = λ s. 0 };
  pages = 4096 ∷ 8192 ∷ [];
  locked = false;
}

abbrev address : Option ℕ → ℕ
address none = 0
address (some v) = v

-- The addresses of two blocks, the free blocks of 32 and of 2048 bytes then, and the pages after both
-- are given back, the first one first.
abbrev two_blocks : H (Option ℕ × Option ℕ × List ℕ × List ℕ × List ℕ)
two_blocks = do
  a ← kmalloc 20
  b ← kmalloc 100
  h ← get
  kfree (address a)
  kfree (address b)
  g ← get
  pure (a, b, h.lists 0, h.lists 6, g.pages)

abbrev result : {A : Type 0} → Option (A × Heap) → Option A
result none = none
result (some (a, h)) = some a

two_blocks_run :
    result (two_blocks fresh) ≡ some (some 4100, some 4228, 4128 ∷ [], 6144 ∷ [], 4096 ∷ 8192 ∷ [])
unfolding kmalloc kfree free_at halve split split_down set_used init_page set_free merge merge_pair
    merge_up add sub unlist push_back push_front
two_blocks_run = refl

-- The first half of a page is free, the second is in use.
abbrev half_page : Heap
half_page = record {
  lists = λ s. if s == 6 then 4096 ∷ [] else [];
  headers = λ b.
      if b == 4096 then record { sizeno = 6; flag = free } else record { sizeno = 6; flag = used };
  owner = λ b. if b == 4096 then some 6 else none;
  page_headers = λ p. record {
    count = λ s. if s == 6 then 2 else 0;
    count_used = λ s. if s == 6 then 1 else 0;
  };
  pages = [];
  locked = false;
}

half_page-IsFirst : IsFirst half_page 20 0 6 4096 []
half_page-IsFirst = record {
  small = omega arith;
  unlocked = refl;
  fit = refl;
  found = refl;
  head = refl;
  aligned = (2, refl);
  full = λ j low less. ground (arith, less);
  apart = refl;
}

kmalloc-kfree_example :
    (h1 : Heap) × (h2 : Heap) × (kmalloc 20 half_page ≡ some (some 4100, h1))
    × (h1.headers 4096 ≡ record { sizeno = 0; flag = used })
    × (20 ≤ 28)
    × (kfree 4100 h1 ≡ some (tt, h2))
    × IsBack half_page h2
kmalloc-kfree_example = kmalloc-kfree half_page 20 0 6 4096 [] half_page-IsFirst

-- No block and no page.
abbrev empty : Heap
empty = record fresh { pages = [] }

fresh-IsNewPage : IsNewPage fresh 100 2 4096 (8192 ∷ [])
fresh-IsNewPage = record {
  small = omega arith;
  unlocked = refl;
  fit = refl;
  nothing = refl;
  pages = refl;
  aligned = refl;
}

kmalloc-kfree_page_example :
    (h1 : Heap) × (h2 : Heap) × (kmalloc 100 fresh ≡ some (some 4100, h1))
    × (h1.headers 4096 ≡ record { sizeno = 2; flag = used })
    × (100 ≤ 124)
    × (kfree 4100 h1 ≡ some (tt, h2))
    × IsBack fresh h2
kmalloc-kfree_page_example = kmalloc-kfree_page fresh 100 2 4096 (8192 ∷ []) fresh-IsNewPage

kmalloc_size-first_fit_example : (kmalloc_size 100 ≡ some 128) × ((2 == 0) ≡ leb 100 28)
kmalloc_size-first_fit_example = kmalloc_size-first_fit 100 2 refl
