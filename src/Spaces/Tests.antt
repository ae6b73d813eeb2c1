-- ===== src/Spaces/Tests.antt =====
-- A machine with five free pages and one task, and the theorems on the address spaces at it.
use makarna_x.Base.{
  ℕ, ◌+◌, ◌*◌, ◌<◌, ◌≡◌, refl, true, false, ◌&&◌, Option, none, some, [], ◌∷◌, ◌==◌, leb,
  if◌then◌else◌, arith,
}
use makarna_x.Memory.Pages.{Pages, Memory}
use makarna_x.Memory.FreeList.{IsFreeList}
use makarna_x.Memory.Virtual.{Layout, Pte, no_pte, page_get, pdx}
use makarna_x.Spaces.State.{Areas, Vm, bitmap_find_first_zero, bit_find_first_zero, Word}
use makarna_x.Spaces.Bitmap.{FirstZero, bitmap_find_first_zero_lem}
use makarna_x.Spaces.Ready.{BitAgrees, IsReady}
use makarna_x.Spaces.TmpRound.{TmpResult, tmp_page_alloc_map_lem}

abbrev pub off_layout : Layout
off_layout = record {
  user_base = 16777216;
  user_top = 4026531840;
  kernel_base = 0;
  kernel_top = 16777216;
  seg_user_base = 0;
}

abbrev pub off_areas : Areas
off_areas = record {
  tmp_base = 8388608;
  stack_base = 16769024;
  stack_size = 8192;
  shared_base = 1627389952;
  shared_top = 1895825408;
}

abbrev pub five_pages : Pages
five_pages i =
    if leb 1 i && leb i 5
    then record { next_or_ref = if i == 5 then 0 else i + 1; free = true; type = 1 }
    else record { next_or_ref = 1; free = false; type = 1 }

abbrev pub five_free : Memory
five_free = record { pages = five_pages; begin = some 1; end = some 5; count = 5 }

pub five_free-IsFreeList : IsFreeList five_free (1 ∷ 2 ∷ 3 ∷ 4 ∷ 5 ∷ [])
five_free-IsFreeList = record {
  begin = refl;
  end = refl;
  count = omega arith;
  chain = (
    record { free = refl; ne_zero = omega arith; small = omega arith },
    refl,
    (
      record { free = refl; ne_zero = omega arith; small = omega arith },
      refl,
      (
        record { free = refl; ne_zero = omega arith; small = omega arith },
        refl,
        (
          record { free = refl; ne_zero = omega arith; small = omega arith },
          refl,
          (record { free = refl; ne_zero = omega arith; small = omega arith }, refl, tt),
        ),
      ),
    ),
  );
  distinct = (refl, (refl, (refl, (refl, (refl, tt)))));
  all_free = λ i h. ground arith;
}

abbrev empty_table : ℕ → Pte
empty_table j = no_pte

-- The page 9 at the start of the user's area.
abbrev task_table : ℕ → Pte
task_table j = if j == 0 then record { present = true; perm = 7; page = 9 } else no_pte

abbrev pub tables_of : ℕ → ℕ → Option (ℕ → Pte)
tables_of k i =
    if k == 0
    then (if i == 2 then some empty_table else none)
    else (if i == 4 then some task_table else none)

abbrev pub one_task : Vm
one_task = record {
  areas = off_areas;
  memory = five_free;
  bytes = λ p x. p;
  tmp_pages = λ i j. false;
  spaces = λ k. record {
    info = record {
      layout = off_layout;
      pgtables = tables_of k;
      count_user = 1;
      count_kernel = 1;
      memory = five_free;
    };
    table_va = λ i. 0;
    pgdir = none;
    pgtables = none;
    count_stack = 1;
    count_program = 0;
    count_shared = 0;
    start_brk = 0;
    end_brk = 0;
  };
  cr3 = 7;
}

one_task-bits : (r : ℕ) → r < 1024 → BitAgrees one_task r
unfolding page_get
one_task-bits r less =
    let second : (pdx (8388608 + r * 4096) == 2) ≡ true = bit_table r less in
    (no_pte, ground (arith, second), refl)
  where
    bit_table : (r : ℕ) → r < 1024 → (pdx (8388608 + r * 4096) == 2) ≡ true
    bit_table r less =
        let e : pdx (8388608 + r * 4096) ≡ 2 = omega (arith, less) in ground (arith, e)

pub one_task-IsReady : IsReady one_task
one_task-IsReady = record {
  area = record { whole = omega arith; room = omega arith; low = omega arith; high = omega arith };
  bits = one_task-bits;
  pages = (1 ∷ 2 ∷ 3 ∷ 4 ∷ 5 ∷ [], five_free-IsFreeList, omega arith);
}

tmp_page_alloc_map_lem_example : TmpResult one_task
tmp_page_alloc_map_lem_example = tmp_page_alloc_map_lem one_task one_task-IsReady

-- Bits 0 to 32 are set.
abbrev some_set : ℕ → Word
some_set i j = leb (32 * i + j) 32

bitmap_find_first_zero_lem_example : FirstZero 32 0 some_set (bitmap_find_first_zero 32 0 some_set)
bitmap_find_first_zero_lem_example = bitmap_find_first_zero_lem 32 0 some_set

bit_33 : bitmap_find_first_zero 32 0 some_set ≡ some 33
unfolding bitmap_find_first_zero bit_find_first_zero
bit_33 = refl
