-- ===== src/Pages.antt =====
-- helper/core/memory/mmu.c, its page allocator, and helper/core/memory/kernel.c. The memory is read
-- and written in aligned 64-bit words, by virtual address.
pub mod FreeList
pub mod Fresh
pub mod Heap
use windoge_os.Common.{
  ℕ, zero, suc, ◌+◌, ◌-◌, ◌*◌, ◌/◌, ◌%◌, ◌^◌, Bool, true, false, not, ◌&&◌, ◌||◌, Option, none,
  some, List, [], ◌∷◌, ltb, leb, ◌==◌, if◌then◌else◌, drop,
}
use windoge_os.Common.Mem.{Mem, write}

-- What the boot loader tells: an entry of the memory map, whose type 0 is usable memory.
pub record Entry : Type 0 where
  pub base : ℕ
  pub size : ℕ
  pub kind : ℕ

-- The two responses, and what `read_cr3()` gives.
pub record Boot : Type 0 where
  pub memmap : Option (List Entry)
  pub hhdm : Option ℕ
  pub cr3 : ℕ

-- The static variables of the allocator, and the memory.
pub record Pmm : Type 0 where
  pub free_page_head : ℕ
  pub alloc_index : ℕ
  pub alloc_offset : ℕ
  pub words : Mem

-- `phys_addr + hhdm_offset`
abbrev pub virt : ℕ → ℕ → ℕ
virt hhdm phys = (phys + hhdm) % 2 ^ 64

-- `memset(page, 0, 4096)`
unfoldable pub zero_page : ℕ → Mem → Mem
zero_page page m q = if leb page q && ltb q (page + 4096) then 0 else m q

-- `entry & ~0xFFFULL`
abbrev pub page_base : ℕ → ℕ
page_base entry = entry - entry % 4096

-- `entry & PAGE_ADDRESS_MASK`: bits 12 to 51.
abbrev pub address_of : ℕ → ℕ
address_of entry = page_base (entry % 2 ^ 52)

abbrev pub is_present : ℕ → Bool
is_present entry = entry % 2 == 1

abbrev pub is_user : ℕ → Bool
is_user entry = entry / 4 % 2 == 1

unfoldable pub pmm_free_page : ℕ → ℕ → Pmm → Pmm
pmm_free_page phys hhdm s =
    if (phys == 0) || not (phys % 4096 == 0)
    then s
    else record s { words = write s.words (virt hhdm phys) s.free_page_head; free_page_head = phys }

-- The entries left, the address of the entry, and what is done to a table one level down.
unfoldable pub free_entries : (ℕ → Pmm → Pmm) → Bool → ℕ → ℕ → ℕ → Pmm → Pmm
free_entries down leaf hhdm zero at s = s
free_entries down leaf hhdm (suc n) at s =
    let entry : ℕ = s.words at in
    let page : Pmm = if address_of entry == 0 then s else pmm_free_page (address_of entry) hhdm s in
    let table : Pmm = if is_present entry then down (page_base entry) s else s in
    free_entries down leaf hhdm n ((at + 8) % 2 ^ 64)
      (if not (is_user entry) then s else if leaf then page else table)

-- The level counts down to 1.
unfoldable pub free_user_table : ℕ → ℕ → ℕ → Pmm → Pmm
free_user_table zero hhdm phys s = s
free_user_table (suc level) hhdm phys s =
    pmm_free_page phys hhdm
      (free_entries (λ p. free_user_table level hhdm p) (level == 0) hhdm 512 (virt hhdm phys) s)

-- The entries of the top table left, the address of the entry, and the tables taken out so far.
unfoldable pub take_tables : ℕ → ℕ → Mem → Mem × List ℕ
take_tables zero at m = (m, [])
take_tables (suc n) at m =
    let user : Bool = is_present (m at) && is_user (m at) in
    let (m', tables) = take_tables n ((at + 8) % 2 ^ 64) (if user then write m at 0 else m) in
    (m', (if user then page_base (m at) else 0) ∷ tables)

unfoldable pub free_tables : ℕ → List ℕ → Pmm → Pmm
free_tables hhdm [] s = s
free_tables hhdm (t ∷ ts) s = free_tables hhdm ts (if t == 0 then s else free_user_table 3 hhdm t s)

-- `write_cr3(read_cr3())` empties the processor's cache of the tables, which is not modelled.
unfoldable pub cleanup_user_pages : Boot → Pmm → Pmm
cleanup_user_pages boot s = elim boot.hhdm [
  | none ↦ s
  | some hhdm ↦
      let (m, tables) = take_tables 256 (virt hhdm (page_base boot.cr3)) s.words in
      free_tables hhdm tables (record s { words = m })
]

-- `for (; alloc_index < memmap->entry_count; alloc_index++)` over the entries from the index on: the
-- page, if there is one, and the new index and offset.
unfoldable pub alloc_loop : List Entry → ℕ → ℕ → Option ℕ × ℕ × ℕ
alloc_loop [] index offset = (none, index, offset)
alloc_loop (e ∷ es) index offset =
    let rest : Option ℕ × ℕ × ℕ = alloc_loop es (suc index) 0 in
    if not (e.kind == 0)
    then rest
    else if leb ((offset + 4096) % 2 ^ 64) e.size
    then (some ((e.base + offset) % 2 ^ 64), index, (offset + 4096) % 2 ^ 64)
    else rest

unfoldable pub take_fresh : ℕ → Boot → Option ℕ × ℕ × ℕ → Pmm → ℕ × Pmm
take_fresh hhdm boot (none, index, offset) s =
    (0, cleanup_user_pages boot (record s { alloc_index = index; alloc_offset = offset }))
take_fresh hhdm boot (some phys, index, offset) s = (
  phys,
  record s {
    alloc_index = index;
    alloc_offset = offset;
    words = zero_page (virt hhdm phys) s.words;
  },
)

-- `none`: without the boot loader's responses the processor halts.
unfoldable pub pmm_alloc_zeroed_page : Boot → Pmm → Option (ℕ × Pmm)
pmm_alloc_zeroed_page boot s = elim boot.memmap [
  | none ↦ none
  | some memmap ↦ elim boot.hhdm [
    | none ↦ none
    | some hhdm ↦
        if not (s.free_page_head == 0)
        then some (
          s.free_page_head,
          record s {
            free_page_head = s.words (virt hhdm s.free_page_head);
            words = zero_page (virt hhdm s.free_page_head) s.words;
          },
        )
        else some (
            take_fresh hhdm boot
              (alloc_loop (drop s.alloc_index memmap) s.alloc_index s.alloc_offset) s)
  ]
]

-- `while (current_free != 0)` with fuel: `none` when it runs out.
unfoldable pub count_free : ℕ → ℕ → Mem → ℕ → ℕ → Option ℕ
count_free zero hhdm m current count = none
count_free (suc f) hhdm m current count =
    let rest : Option ℕ = count_free f hhdm m (m (virt hhdm current)) (suc count) in
    if current == 0 then some count else if hhdm == 0 then some (suc count) else rest

unfoldable pub count_entries : List Entry → ℕ → ℕ
count_entries [] count = count
count_entries (e ∷ es) count =
    count_entries es (if e.kind == 0 then (count + e.size / 4096) % 2 ^ 64 else count)

abbrev pub offset_or_zero : Option ℕ → ℕ
offset_or_zero none = 0
offset_or_zero (some hhdm) = hhdm

unfoldable pub pmm_get_free_page_count : ℕ → Boot → Pmm → Option ℕ
pmm_get_free_page_count fuel boot s = elim boot.memmap [
  | none ↦ some 0
  | some memmap ↦ elim (count_free fuel (offset_or_zero boot.hhdm) s.words s.free_page_head 0) [
    | none ↦ none
    | some count ↦ some (count_entries memmap count)
  ]
]

-- The base of the first usable entry, 0 without one.
unfoldable pub first_usable : List Entry → ℕ
first_usable [] = 0
first_usable (e ∷ es) = if e.kind == 0 then e.base else first_usable es

abbrev pub heap_base : Option (List Entry) → ℕ
heap_base none = 0
heap_base (some memmap) = first_usable memmap

-- The heap pointer that the first call sets up; `endkernel` is the address of that symbol.
unfoldable pub heap_start : Boot → ℕ → ℕ → ℕ
heap_start boot endkernel current =
    if not (current == 0)
    then current
    else if heap_base boot.memmap == 0
    then endkernel
    else heap_base boot.memmap

-- The block, and the new heap pointer.
unfoldable pub kmalloc : Boot → ℕ → ℕ → ℕ → ℕ × ℕ
kmalloc boot endkernel size current =
    let up : ℕ = (heap_start boot endkernel current + 15) % 2 ^ 64 in
    let block : ℕ = up - up % 16 in (block, (block + size) % 2 ^ 64)
