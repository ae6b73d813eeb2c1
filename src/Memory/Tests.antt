-- ===== src/Memory/Tests.antt =====
-- Runs of kernel/memory/physical.h on three pages, and the theorems at them.
use makarna_x.Base.{◌≡◌, refl, true, false, none, some, [], ◌∷◌, ◌==◌, if◌then◌else◌, arith}
use makarna_x.Base.{◌⊎◌, ℕ, List}
use makarna_x.Memory.Pages.{Pages, Memory, type_available, page_free, page_alloc}
use makarna_x.Memory.FreeList.{IsFreeList}
use makarna_x.Memory.Queue.{page_free-push, page_alloc_lem}

-- Page 1 is free and its link is 2, page 2 is free and the last one, page 3 is in use with one
-- reference, and every other page is in use with none.
abbrev three_pages : Pages
three_pages i =
    if i == 1
    then record { next_or_ref = 2; free = true; type = type_available }
    else (if i == 2
        then record { next_or_ref = 0; free = true; type = type_available }
        else (if i == 3
            then record { next_or_ref = 1; free = false; type = type_available }
            else record { next_or_ref = 0; free = false; type = type_available }))

abbrev two_free : Memory
two_free = record { pages = three_pages; begin = some 1; end = some 2; count = 2 }

two_free-IsFreeList : IsFreeList two_free (1 ∷ 2 ∷ [])
two_free-IsFreeList = record {
  begin = refl;
  end = refl;
  count = omega arith;
  chain = (
    record { free = refl; ne_zero = omega arith; small = omega arith },
    refl,
    (record { free = refl; ne_zero = omega arith; small = omega arith }, refl, tt),
  );
  distinct = (refl, (refl, tt));
  all_free = λ i h. ground arith;
}

page_free-push_example :
    (m' : Memory) × (page_free two_free 5 ≡ some m') × IsFreeList m' (1 ∷ 2 ∷ 5 ∷ [])
page_free-push_example =
    page_free-push two_free (1 ∷ 2 ∷ []) 5 two_free-IsFreeList
      (record {
        available = refl;
        used = refl;
        no_ref = refl;
        ne_zero = omega arith;
        small = omega arith;
      })
      (omega arith)

abbrev one_and_two : List ℕ
one_and_two = 1 ∷ 2 ∷ []

page_alloc_lem_example :
    ((one_and_two ≡ []) × (page_alloc two_free ≡ some (none, two_free)))
    ⊎ ((x : ℕ) × (ys : List ℕ) × (m' : Memory) × (one_and_two ≡ x ∷ ys)
        × (page_alloc two_free ≡ some (some x, m'))
        × IsFreeList m' ys
        × (m'.pages x ≡ record { next_or_ref = 0; free = false; type = type_available }))
page_alloc_lem_example = page_alloc_lem two_free one_and_two two_free-IsFreeList (omega arith)
