-- ===== src/Memory/VirtualTests.antt =====
-- Runs of kernel/memory/virtual.cpp, and the theorems at them.
use makarna_x.Base.{◌<◌, ◌≤◌, ◌≡◌, refl, true, false, none, some, ◌==◌, if◌then◌else◌, arith}
use makarna_x.Memory.Virtual.{
  PageDirInfo, page_get, lacks, verify_loop, verify_user_addr, segment_free,
}
use makarna_x.Memory.UserAddr.{segment_free-KeepsOthers}
use makarna_x.Memory.UserRange.{IsMapped, verify_user_addr-IsMapped, verify_user_addr-wraps}

-- The kernel below 1 GB, and the two pages from 0x40000000 on.
abbrev two_pages : PageDirInfo
two_pages = record {
  layout = record {
    user_base = 1073741824;
    user_top = 4026531840;
    kernel_base = 0;
    kernel_top = 1073741824;
    seg_user_base = 1073741824;
  };
  pgtables = λ i.
      if i == 256
      then some (λ j.
        if j == 0
        then record { present = true; perm = 7; page = 5 }
        else (if j == 1
            then record { present = true; perm = 3; page = 6 }
            else record { present = false; perm = 0; page = 0 }))
      else none;
  count_user = 2;
  count_kernel = 0;
  memory = record {
    pages = λ i. record { next_or_ref = 1; free = false; type = 1 };
    begin = none;
    end = none;
    count = 0;
  };
}

verify_user_addr-IsMapped_example :
    (1073741824 ≤ 1073745920) × (1073745920 < 4026531840) × IsMapped two_pages 1073745920
unfolding verify_user_addr verify_loop page_get lacks
verify_user_addr-IsMapped_example =
    verify_user_addr-IsMapped 4000 200 4 1073745920 two_pages (omega arith) (omega arith) refl
      (omega arith) (omega arith)

-- 0x50000000 + 0xF8000000 is 0x48000000 in 32 bits.
verify_user_addr-wraps_example : verify_user_addr 268435456 4160749568 4 two_pages ≡ true
verify_user_addr-wraps_example =
    verify_user_addr-wraps 268435456 4160749568 4 two_pages (omega arith) (omega arith)
      (omega arith)

segment_free-KeepsOthers_example :
    page_get (segment_free 1073741824 8192 two_pages).1 1073745920 ≡ page_get two_pages 1073745920
segment_free-KeepsOthers_example =
    segment_free-KeepsOthers 1073741824 8192 1073745920 two_pages (λ e. absurd (omega (arith, e)))
