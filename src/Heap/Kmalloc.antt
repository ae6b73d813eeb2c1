-- ===== src/Heap/Kmalloc.antt =====
-- The functions of kernel/memory/kmalloc.h and kmalloc.cpp over Heap/State.antt. The pages that
-- `tmp_page_alloc_map` gives are the list `pages`, to which `tmp_page_free` returns one.
use makarna_x.Base.{
  ℕ, zero, suc, ◌+◌, ◌-◌, ◌*◌, ◌/◌, ◌%◌, Bool, true, false, not, ◌&&◌, Option, none, some, List, [],
  ◌∷◌, ◌==◌, ltb, leb, if◌then◌else◌, is_some,
}
use makarna_x.Heap.State.{
  free, used, Heap, H, pure, halt, ◌>>=◌, ◌>>◌, get, assert, is_free, is_used, last_sizeno,
  block_size, pair, page_of, add, sub, put_header, put_owner, put_list, put_page, unlist, push_back,
  push_front,
}

-- The loop of `kmalloc_size`, with the rounds left: the size grows before the test.
abbrev pub grow : ℕ → ℕ → ℕ → ℕ
grow zero s size = s
grow (suc k) s size =
    let rest = grow k (s * 2) size in if ltb (s * 2) (size + 4) then rest else s * 2

-- ASSERT(s < 0x1000)
unfoldable pub kmalloc_size : ℕ → Option ℕ
kmalloc_size size = let s = grow 32 32 size in if ltb s 4096 then some s else none

-- The change of the counts of the page of a block.
abbrev pub count_by : ℕ → ((ℕ → ℕ) → ℕ → ℕ) → ((ℕ → ℕ) → ℕ → ℕ) → H (Unit {0})
count_by b f g h =
    let v = h.page_headers (page_of b) in
    some (tt, put_page h (page_of b) (record { count = f v.count; count_used = g v.count_used }))

abbrev pub same_counts : (ℕ → ℕ) → ℕ → ℕ
same_counts c = c

-- if (list_node.__list) list_node.__list->erase(&list_node)
abbrev pub unlist_if : ℕ → H (Unit {0})
unlist_if b h = if is_some (h.owner b) then unlist b h else some (tt, h)

-- The part of `FreeBlock::split` from `header.sizeno--` on: the left half keeps the address.
unfoldable pub halve : ℕ → ℕ → H (Unit {0})
halve b s h =
    (do
      count_by b (λ c. add (sub c (suc s) 1) s 2) same_counts
      assert (pair b s == b + block_size s)
      λ u.
          some
            (tt, put_owner (put_header u (b + block_size s) (u.headers b)) (b + block_size s) none)
      push_back s (b + block_size s))
      (put_header h b (record (h.headers b) { sizeno = s }))

-- `FreeBlock::split`: a block of the least size has no half.
abbrev pub split_at : ℕ → ℕ → H (Unit {0})
split_at b zero = halt
split_at b (suc s) = do
  h ← get
  assert ((h.page_headers (page_of b)).count s == (h.page_headers (page_of b)).count_used s)
  unlist_if b
  halve b s

unfoldable pub split : ℕ → H (Unit {0})
split b h = split_at b (h.headers b).sizeno h

-- The loop of `kmalloc` that splits, with the rounds left: from size `uygun + k` to `uygun`.
unfoldable pub split_down : ℕ → ℕ → ℕ → H (Unit {0})
split_down zero uygun b h = some (tt, h)
split_down (suc k) uygun b h =
    (do assert ((h.headers b).sizeno == uygun + suc k); split b; split_down k uygun b) h

-- `FreeBlock::set_used`
unfoldable pub set_used : ℕ → H (Unit {0})
set_used b h =
    (do
      assert (not (is_some (h.owner b)))
      count_by b same_counts (λ c. add c (h.headers b).sizeno 1))
      (put_header h b (record (h.headers b) { flag = used }))

-- `FreeBlock::init`: a page becomes two blocks of 2048 bytes in the list of free blocks.
unfoldable pub init_page : ℕ → H (Unit {0})
init_page b h =
    (do split b; push_back last_sizeno b)
      (put_owner
        (put_page (put_header h b (record { sizeno = suc last_sizeno; flag = free })) (page_of b)
          (record { count = λ s. 0; count_used = λ s. 0 }))
        b none)

-- The first size from `i` on, with the rounds left, whose blocks have room for the bytes.
abbrev pub first_fit : ℕ → ℕ → ℕ → Option ℕ
first_fit zero i size = none
first_fit (suc k) i size =
    let rest = first_fit k (suc i) size in if leb size (block_size i - 4) then some i else rest

-- The first list from `i` on, with the rounds left, that has a block.
abbrev pub first_list : ℕ → ℕ → (ℕ → List ℕ) → Option (ℕ × ℕ × List ℕ)
first_list zero i lists = none
first_list (suc k) i lists = elim (lists i) [
  | [] ↦ first_list k (suc i) lists
  | b ∷ bs ↦ some (i, b, bs)
]

-- A block off the front of the list `i`.
abbrev pub take_front : ℕ → ℕ → List ℕ → H (Unit {0})
take_front i b bs h =
    (do assert ((h.headers b).sizeno == i); λ u. some (tt, put_owner (put_list u i bs) b none)) h

-- The end of `kmalloc`, with a block of size `uygun + k`.
abbrev pub give : ℕ → ℕ → ℕ → H (Option ℕ)
give k uygun b = do
  h ← get
  assert (not (is_some (h.owner b)))
  split_down k uygun b
  set_used b
  λ u. some (some (b + 4), record u { locked = false })

-- With no page left `kmalloc` returns NULL and keeps the lock.
abbrev pub from_page : ℕ → List ℕ → H (Option ℕ)
from_page uygun [] h = some (none, h)
from_page uygun (p ∷ ps) h =
    (do init_page p; unlist p; give (last_sizeno - uygun) uygun p) (record h { pages = ps })

abbrev pub from_lists : ℕ → H (Option ℕ)
from_lists uygun h = elim (first_list (7 - uygun) uygun h.lists) [
  | none ↦ from_page uygun h.pages h
  | some (i, b, bs) ↦ (do take_front i b bs; give (i - uygun) uygun b) h
]

-- `spinlock_acquire`, which returns at once whether the lock is held or not (Locks/Nesting).
abbrev pub acquire : H (Unit {0})
acquire h = some (tt, record h { locked = true })

abbrev pub search : Option ℕ → H (Option ℕ)
search none = halt
search (some uygun) = from_lists uygun

-- `kmalloc`: the address behind the header, or NULL.
unfoldable pub kmalloc : ℕ → H (Option ℕ)
kmalloc size = if ltb 2044 size then pure none else (acquire >> search (first_fit 7 0 size))

-- `FreeBlock::set_free`
unfoldable pub set_free : ℕ → H (Unit {0})
set_free b h =
    (do
      assert (not (is_free (h.headers b).flag))
      count_by b same_counts (λ c. sub c (h.headers b).sizeno 1))
      (put_owner (put_header h b (record (h.headers b) { flag = free })) b none)

-- The block that is the lower of the two.
abbrev pub lower : ℕ → ℕ → ℕ
lower b s = if b / block_size s % 2 == 0 then b else pair b s

-- `FreeBlock::merge` of a block of size `s` with its pair `p`: the lower one, `r`, remains.
unfoldable pub merge_pair : ℕ → ℕ → ℕ → ℕ → H (Unit {0})
merge_pair p r b s h =
    (do
      assert (is_free (h.headers p).flag && is_free (h.headers b).flag)
      assert ((h.headers p).sizeno == s && not (is_some (h.owner b)))
      unlist p
      count_by b (λ c. add (sub c s 2) (suc s) 1) same_counts
      λ u. some (tt, put_header u r (record (u.headers r) { sizeno = suc s }))
      λ u. assert (not (is_some (u.owner r))) u)
      h

unfoldable pub merge : ℕ → ℕ → H (Unit {0})
merge b s = merge_pair (pair b s) (lower b s) b s

-- The condition of the loop of `kfree`.
abbrev pub can_merge : Heap → ℕ → ℕ → Bool
can_merge h b s = is_free (h.headers (pair b s)).flag && (h.headers (pair b s)).sizeno == s

-- The loop of `kfree`, with the rounds left, from the size `s` on: the block and its size at the end. The
-- rounds are those to the size of a page.
unfoldable pub merge_up : ℕ → ℕ → ℕ → H (ℕ × ℕ)
merge_up zero s b h = some ((b, s), h)
merge_up (suc k) s b h =
    if can_merge h b s then (do merge b s; merge_up k (suc s) (lower b s)) h else some ((b, s), h)

-- The end of `kfree`: a whole page is given back.
abbrev pub put_back : ℕ × ℕ → H (Unit {0})
put_back (b, s) = do
  h ← get
  assert (not (is_some (h.owner b)))
  if leb s last_sizeno
      then push_front s b
      else (λ u. some (tt, record u { pages = page_of b * 4096 ∷ u.pages }))

-- The part of `kfree` behind the lock, with the block.
unfoldable pub free_at : ℕ → H (Unit {0})
free_at b h =
    (do
      assert (is_used (h.headers b).flag)
      set_free b
      r ← merge_up (7 - (h.headers b).sizeno) (h.headers b).sizeno b
      put_back r
      λ u. some (tt, record u { locked = false }))
      h

unfoldable pub kfree : ℕ → H (Unit {0})
kfree v = acquire >> free_at (v - 4)
