-- ===== src/Tests/Storage.antt =====
-- helper/core/memory: the theorems on a small memory map, with the direct map at 0x10000000.
use windoge_os.Common.{◌+◌, ◌%◌, ◌^◌, ℕ, ◌+◌, ◌%◌, ◌≤◌, ◌≡◌, refl, inl, arith, some, List, [], ◌∷◌}
use windoge_os.Pages.{
  Entry, Boot, Pmm, pmm_free_page, pmm_alloc_zeroed_page, pmm_get_free_page_count, alloc_loop,
  kmalloc,
}
use windoge_os.Pages.FreeList.{
  FreeList, Taken, free_page-FreeList, alloc_page-Taken, usable_pages, free_page_count_lem,
}
use windoge_os.Pages.Fresh.{TakenFrom, alloc_loop-TakenFrom}
use windoge_os.Pages.Heap.{kmalloc-apart}

abbrev direct : ℕ
direct = 268435456

-- A reserved entry, and a usable one of three pages.
abbrev low_memory : Entry
low_memory = record { base = 0; size = 4096; kind = 1 }

abbrev main_memory : Entry
main_memory = record { base = 4096; size = 12288; kind = 0 }

abbrev map : List Entry
map = low_memory ∷ main_memory ∷ []

abbrev machine : Boot
machine = record { memmap = some map; hhdm = some direct; cr3 = 0 }

-- The page at 8192 is free and is the last one.
abbrev one_free : Pmm
one_free = record { free_page_head = 8192; alloc_index = 1; alloc_offset = 12288; words = λ q. 0 }

one_free-FreeList : FreeList direct one_free (8192 ∷ [])
one_free-FreeList = record { chain = (refl, ground arith, refl); apart = (tt, tt) }

free_page-FreeList_example : FreeList direct (pmm_free_page 4096 direct one_free) (4096 ∷ 8192 ∷ [])
free_page-FreeList_example =
    free_page-FreeList direct 4096 one_free (8192 ∷ []) (omega arith) refl (inl (omega arith), tt)
      one_free-FreeList

alloc_page-Taken_example :
    (s' : Pmm) × (pmm_alloc_zeroed_page machine one_free ≡ some (8192, s'))
    × Taken direct 8192 [] one_free s'
alloc_page-Taken_example =
    alloc_page-Taken machine map direct 8192 [] one_free refl refl one_free-FreeList

free_page_count_lem_example :
    pmm_get_free_page_count 2 machine one_free ≡ some ((1 + usable_pages map) % 2 ^ 64)
free_page_count_lem_example =
    free_page_count_lem machine map direct 2 (8192 ∷ []) one_free refl refl (omega arith)
      (omega arith) (omega arith) one_free-FreeList

found : (alloc_loop map 0 0).0 ≡ some 4096
unfolding alloc_loop
found = refl

alloc_loop-TakenFrom_example : TakenFrom map 0 0 4096 (alloc_loop map 0 0).1 (alloc_loop map 0 0).2
alloc_loop-TakenFrom_example =
    alloc_loop-TakenFrom map 0 0 4096 (omega arith, (omega arith, tt)) (omega arith) found

kmalloc-apart_example :
    let (block, current') = kmalloc machine 1048576 100 4096 in
    let (block', current'') = kmalloc machine 1048576 7 current' in
    (block % 16 ≡ 0)
    × (block' % 16 ≡ 0)
    × (4096 ≤ block)
    × (block + 100 ≤ block')
    × (block' + 7 ≡ current'')
kmalloc-apart_example = kmalloc-apart machine 1048576 100 7 4096 (omega arith) (omega arith)
