-- ===== src/Pages/Heap.antt =====
-- helper/core/memory/kernel.c: the blocks of `kmalloc`.
use windoge_os.Common.{ℕ, ◌+◌, ◌%◌, ◌^◌, ◌≤◌, ◌<◌, ◌≡◌, ◌≢◌, arith}
use windoge_os.Pages.{Boot, heap_start, kmalloc}

-- Two blocks that `kmalloc` hands out one after the other: both stand at multiples of 16, and the
-- second begins at or behind the end of the first. The heap has been set up and does not reach the end of the address
-- space.
pub kmalloc-apart :
    (boot : Boot) (endkernel size size' current : ℕ)
    → current ≢ 0
    → current + size + size' + 64 < 2 ^ 64
    → let (block, current') = kmalloc boot endkernel size current in
      let (block', current'') = kmalloc boot endkernel size' current' in
      (block % 16 ≡ 0)
      × (block' % 16 ≡ 0)
      × (current ≤ block)
      × (block + size ≤ block')
      × (block' + size' ≡ current'')
unfolding kmalloc heap_start
kmalloc-apart boot endkernel size size' current nz room = ground arith
