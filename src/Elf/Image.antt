-- ===== src/Elf/Image.antt =====
-- helper/core/execute/elf.c: the structures of a file, read from its bytes, and the loader's checks.
use windoge_os.Common.{
  ℕ, zero, suc, ◌+◌, ◌-◌, ◌*◌, ◌/◌, ◌%◌, ◌^◌, Bool, false, not, ◌&&◌, ◌||◌, List, [], ◌∷◌, ltb, leb,
  ◌==◌, if◌then◌else◌, take, get_or,
}

-- `n` bytes from `i` on, low byte first.
abbrev pub field : ℕ → List ℕ → ℕ → ℕ
field zero bytes i = 0
field (suc n) bytes i = get_or bytes i 0 + 256 * field n bytes (suc i)

-- `a & b` on so many bits.
unfoldable pub bit_and : ℕ → ℕ → ℕ → ℕ
bit_and zero a b = 0
bit_and (suc w) a b = a % 2 * (b % 2) + 2 * bit_and w (a / 2) (b / 2)

abbrev pub page_size : ℕ
page_size = 4096

-- USER_STACK_BASE: eight pages below 2^47.
abbrev pub user_stack_base : ℕ
user_stack_base = 2 ^ 47 - 8 * 4096

-- MAX_ELF_MEMORY_SIZE / PAGE_SIZE
abbrev pub max_pages : ℕ
max_pages = 16384

pub record Ehdr : Type 0 where
  pub e_ident : List ℕ
  pub e_type : ℕ
  pub e_machine : ℕ
  pub e_version : ℕ
  pub e_entry : ℕ
  pub e_phoff : ℕ
  pub e_shoff : ℕ
  pub e_flags : ℕ
  pub e_ehsize : ℕ
  pub e_phentsize : ℕ
  pub e_phnum : ℕ
  pub e_shentsize : ℕ
  pub e_shnum : ℕ
  pub e_shstrndx : ℕ

pub record Phdr : Type 0 where
  pub p_type : ℕ
  pub p_flags : ℕ
  pub p_offset : ℕ
  pub p_vaddr : ℕ
  pub p_paddr : ℕ
  pub p_filesz : ℕ
  pub p_memsz : ℕ
  pub p_align : ℕ

abbrev pub ehdr_of : List ℕ → Ehdr
ehdr_of bytes = record {
  e_ident = take 16 bytes;
  e_type = field 2 bytes 16;
  e_machine = field 2 bytes 18;
  e_version = field 4 bytes 20;
  e_entry = field 8 bytes 24;
  e_phoff = field 8 bytes 32;
  e_shoff = field 8 bytes 40;
  e_flags = field 4 bytes 48;
  e_ehsize = field 2 bytes 52;
  e_phentsize = field 2 bytes 54;
  e_phnum = field 2 bytes 56;
  e_shentsize = field 2 bytes 58;
  e_shnum = field 2 bytes 60;
  e_shstrndx = field 2 bytes 62;
}

abbrev pub phdr_of : List ℕ → Phdr
phdr_of bytes = record {
  p_type = field 4 bytes 0;
  p_flags = field 4 bytes 4;
  p_offset = field 8 bytes 8;
  p_vaddr = field 8 bytes 16;
  p_paddr = field 8 bytes 24;
  p_filesz = field 8 bytes 32;
  p_memsz = field 8 bytes 40;
  p_align = field 8 bytes 48;
}

-- `value & ~(PAGE_SIZE - 1)`
abbrev pub align_down_page : ℕ → ℕ
align_down_page value = value / 4096 * 4096

abbrev pub align_up_page : ℕ → ℕ
align_up_page value = (value + 4095) % 2 ^ 64 / 4096 * 4096

abbrev pub ident : Ehdr → ℕ → ℕ
ident ehdr i = get_or ehdr.e_ident i 0

-- The first test behind "Checking Headers" rejects.
unfoldable pub bad_header : Ehdr → Bool
bad_header ehdr =
    not (ident ehdr 0 == 127)
    || (not (ident ehdr 1 == b'E')
        || (not (ident ehdr 2 == b'L')
            || (not (ident ehdr 3 == b'F')
                || (not (ident ehdr 4 == 2)
                    || (not (ident ehdr 5 == 1)
                        || (not (ident ehdr 6 == 1)
                            || (not (ehdr.e_type == 2)
                                || (not (ehdr.e_machine == 62)
                                    || (not (ehdr.e_version == 1)
                                        || (not (ehdr.e_ehsize == 64)
                                            || (not (ehdr.e_phentsize == 56)
                                                || ((ehdr.e_phnum == 0)
                                                    || ltb 256 ehdr.e_phnum))))))))))))

-- The program headers do not lie within the file.
unfoldable pub bad_table : Ehdr → ℕ → Bool
bad_table ehdr size =
    ltb size ehdr.e_phoff || ltb (size - ehdr.e_phoff) (ehdr.e_phnum * ehdr.e_phentsize)

-- `phdr->p_type != PT_LOAD || phdr->p_memsz == 0`
abbrev pub is_skipped : Phdr → Bool
is_skipped phdr = not (phdr.p_type == 1) || (phdr.p_memsz == 0)

unfoldable pub bad_bounds : Phdr → ℕ → Bool
bad_bounds phdr size =
    ltb phdr.p_memsz phdr.p_filesz
    || (ltb size phdr.p_offset
        || (ltb (size - phdr.p_offset) phdr.p_filesz
            || (ltb phdr.p_vaddr page_size
                || (leb user_stack_base phdr.p_vaddr
                    || ltb (user_stack_base - phdr.p_vaddr) phdr.p_memsz))))

unfoldable pub bad_alignment : Phdr → Bool
bad_alignment phdr =
    ltb 1 phdr.p_align
    && (not (bit_and 64 phdr.p_align (phdr.p_align - 1) == 0)
        || not (
            bit_and 64 phdr.p_vaddr (phdr.p_align - 1)
            == bit_and 64 phdr.p_offset (phdr.p_align - 1)))

abbrev pub segment_end : Phdr → ℕ
segment_end phdr = (phdr.p_vaddr + phdr.p_memsz) % 2 ^ 64

abbrev pub page_start : Phdr → ℕ
page_start phdr = align_down_page phdr.p_vaddr

abbrev pub page_end : Phdr → ℕ
page_end phdr = align_up_page (segment_end phdr)

-- The entry lies in this segment, which is executable (bit 0 of its flags).
unfoldable pub holds_entry : Ehdr → Phdr → Bool
holds_entry ehdr phdr =
    (phdr.p_flags % 2 == 1)
    && (leb phdr.p_vaddr ehdr.e_entry && ltb ehdr.e_entry (segment_end phdr))

-- `for (j = 0; j < i; j++)`: a page is shared with an earlier segment.
unfoldable pub overlaps : Phdr → List Phdr → Bool
overlaps phdr [] = false
overlaps phdr (other ∷ others) =
    if is_skipped other
    then overlaps phdr others
    else (ltb (page_start phdr) (page_end other) && ltb (page_start other) (page_end phdr))
      || overlaps phdr others
