-- ===== src/Spaces/State.antt =====
-- The address spaces of all tasks: the directories (kernel/memory/virtual.h), the bitmap `tmp_pages`
-- (kernel/memory/virtual.cpp, include/data_structures/bitmap.h), and the bytes of physical pages.
-- Directory 0 is `kernel_dir`. A directory has its tables by contents, with the address of each, and
-- its own page and the page of `pgtables` by address. An entry of the page directory is present where
-- `pgtables` has a table: every function writes both. The tables of the kernel, which `link_pgtables`
-- shares, are read through `kernel_dir` alone. Addresses are in virtual memory: `va2kaddr` and
-- `kaddr2va` cancel out.
use makarna_x.Base.{
  ℕ, zero, suc, ◌+◌, ◌*◌, ◌/◌, ◌%◌, ◌≡◌, ap, Bool, true, false, Option, none, some, ◌==◌,
  if◌then◌else◌,
}
use makarna_x.DenemeFs.Store.{Outcome, done, stop}
use makarna_x.Memory.Pages.{Memory}
use makarna_x.Memory.Virtual.{PageDirInfo}
use makarna_x.Flow.{Call}

-- A `PageDirInfo` with the fields beside those of Memory/Virtual.antt. The memory in `info` is
-- set at each use from that of the machine.
pub record Space : Type 0 where
  pub info : PageDirInfo
  pub table_va : ℕ → ℕ
  pub pgdir : Option ℕ
  pub pgtables : Option ℕ
  pub count_stack : ℕ
  pub count_program : ℕ
  pub count_shared : ℕ
  pub start_brk : ℕ
  pub end_brk : ℕ

-- The other macros MMAP_*.
pub record Areas : Type 0 where
  pub tmp_base : ℕ
  pub stack_base : ℕ
  pub stack_size : ℕ
  pub shared_base : ℕ
  pub shared_top : ℕ

-- The 32 bits of a word.
abbrev pub Word : Type 0
Word = ℕ → Bool

-- `cr3` is the directory that is loaded: that of `task_curr`.
pub record Vm : Type 0 where
  pub areas : Areas
  pub memory : Memory
  pub bytes : ℕ → ℕ → ℕ
  pub tmp_pages : ℕ → Word
  pub spaces : ℕ → Space
  pub cr3 : ℕ

abbrev pub info_of : Vm → ℕ → PageDirInfo
info_of v k = record (v.spaces k).info { memory = v.memory }

abbrev pub put_space : Vm → ℕ → Space → Vm
put_space v k s = record v { spaces = λ j. if k == j then s else v.spaces j }

abbrev pub put_info : Vm → ℕ → PageDirInfo → Vm
put_info v k d = record (put_space v k (record (v.spaces k) { info = d })) { memory = d.memory }

-- A function of `PageDirInfo`, on the directory `k`.
abbrev pub on : {A : Type 0} → ℕ → Call PageDirInfo A → Call Vm A
on k f v = ((f (info_of v k)).0, put_info v k (f (info_of v k)).1)

-- A function of physical.h, where `none` is a failed ASSERT.
abbrev pub on_memory_end : {A : Type 0} → Vm → Option (A × Memory) → Outcome A × Vm
on_memory_end v none = (stop, v)
on_memory_end v (some (a, m)) = (done a, record v { memory = m })

abbrev pub on_memory : {A : Type 0} → (Memory → Option (A × Memory)) → Call Vm A
on_memory f v = on_memory_end v (f v.memory)

-- `bit_find_first_zero` from bit `i` on, with the bits left: 32 where every bit is set.
unfoldable pub bit_find_first_zero : ℕ → ℕ → Word → ℕ
bit_find_first_zero zero i w = i
bit_find_first_zero (suc k) i w =
    let rest = bit_find_first_zero k (suc i) w in if w i then rest else i

-- w == 0xffffffff
abbrev pub is_full : ℕ → Word → Bool
is_full zero w = true
is_full (suc k) w = if w k then is_full k w else false

-- The loop of `bitmap_find_first_zero` from word `i` on, with the words left.
unfoldable pub bitmap_find_first_zero : ℕ → ℕ → (ℕ → Word) → Option ℕ
unfolding bit_find_first_zero
bitmap_find_first_zero zero i bitmap = none
bitmap_find_first_zero (suc k) i bitmap =
    let rest = bitmap_find_first_zero k (suc i) bitmap in
    if is_full 32 (bitmap i) then rest else some (32 * i + bit_find_first_zero 32 0 (bitmap i))

abbrev pub write_bit : (ℕ → Word) → ℕ → Bool → ℕ → Word
write_bit bitmap pos b i j =
    if pos / 32 == i then (if pos % 32 == j then b else bitmap i j) else bitmap i j

abbrev pub bitmap_set : (ℕ → Word) → ℕ → ℕ → Word
bitmap_set bitmap pos = write_bit bitmap pos true

abbrev pub bitmap_reset : (ℕ → Word) → ℕ → ℕ → Word
bitmap_reset bitmap pos = write_bit bitmap pos false

abbrev pub bitmap_test : (ℕ → Word) → ℕ → Bool
bitmap_test bitmap pos = bitmap (pos / 32) (pos % 32)

pub on_run :
    {A : Type 0} (k : ℕ) (f : Call PageDirInfo A) (v : Vm) (o : Outcome A) (d : PageDirInfo)
    → f (info_of v k) ≡ (o, d)
    → on k f v ≡ (o, put_info v k d)
on_run {A} k f v o d e = ap (λ (r : Outcome A × PageDirInfo). (r.0, put_info v k r.1)) e
