-- ===== src/Elf/Load.antt =====
-- helper/core/execute/elf.c: system_load_elf_args. Log lines and the lines printed are left out.
use windoge_os.Common.{
  ℕ, zero, suc, ◌+◌, ◌-◌, ◌*◌, ◌/◌, ◌^◌, Bool, false, not, ◌||◌, Option, none, some, List, [], ◌∷◌,
  ◌++◌, ltb, leb, ◌==◌, if◌then◌else◌, length, take,
}
use windoge_os.Common.Int.{ℤ, negsuc}
use windoge_os.Common.Mem.{Mem}
use windoge_os.Common.Step.{Outcome, done, failed, Step, ◌>>=◌, ◌>>◌, pure}
use windoge_os.Elf.Image.{
  Ehdr, Phdr, ehdr_of, phdr_of, page_size, user_stack_base, max_pages, bad_header, bad_table,
  is_skipped, bad_bounds, bad_alignment, align_up_page, segment_end, page_start, page_end,
  holds_entry, overlaps,
}
use windoge_os.Elf.Machine.{Machine}
use windoge_os.Elf.Arguments.{put_bytes, prepare_user_arguments}
use windoge_os.Elf.Notes.{is_count, elf_uses_linux_abi}

-- The local variables; `regions` are those of `*program`, and `result` is the code that is returned
-- when the loader jumps to `failure`.
pub record Loading (W : Type 0) : Type 0 where
  pub result : ℤ
  pub total_pages : ℕ
  pub highest_load_address : ℕ
  pub entry_is_executable : Bool
  pub regions : List (ℕ × ℕ)
  pub world : W

-- What the caller gets by its pointers.
pub record Loaded : Type 0 where
  pub entry : ℕ
  pub stack : ℕ
  pub user_argv : ℕ
  pub linux_abi : Bool
  pub heap_base : ℕ

abbrev pub larger : ℕ → ℕ → ℕ
larger a b = if ltb a b then b else a

abbrev pub smaller : ℕ → ℕ → ℕ
smaller a b = if ltb a b then a else b

module _ {W : Type 0} (machine : Machine W) (hhdm : ℕ) (filename : List ℕ) where
  -- `result = code; goto failure;` if the test holds.
  abbrev pub refuse_if : Bool → ℤ → Step (Loading W) (Unit {0})
  refuse_if test code s = if test then (failed, record s { result = code }) else (done tt, s)

  -- A read that has to give all of its bytes.
  unfoldable pub read_exact : ℕ → ℕ → ℤ → Step (Loading W) (List ℕ)
  read_exact offset n code s =
      let ((count, bytes), w1) = machine.read_raw_at filename offset n s.world in
      let s1 : Loading W = record s { world = w1 } in
      if not (is_count count n)
      then (failed, record s1 { result = code })
      else (done (take n bytes), s1)

  -- The program headers, by the number of those left.
  unfoldable pub read_phdrs : ℕ → ℕ → Step (Loading W) (List Phdr)
  read_phdrs zero offset = pure []
  read_phdrs (suc n) offset = do
    bytes ← read_exact offset 56 (negsuc 4)
    phdrs ← read_phdrs n (offset + 56)
    pure (phdr_of bytes ∷ phdrs)

  -- `pmm_alloc_zeroed_page`, and `map_user_page` at the address.
  unfoldable pub add_page : ℕ → Step (Loading W) ℕ
  add_page vaddr s =
      let (phys, w1) = machine.alloc_zeroed_page s.world in
      if phys == 0
      then (failed, record s { result = negsuc 2; world = w1 })
      else (done phys, record s { world = machine.map_user_page vaddr phys w1 })

  -- The bytes of the file that belong to the page.
  unfoldable pub fill_page : Phdr → ℕ → ℕ → Step (Loading W) (Unit {0})
  fill_page phdr vaddr phys s =
      let copy_start : ℕ = larger phdr.p_vaddr vaddr in
      let copy_end : ℕ = smaller (vaddr + page_size) (phdr.p_vaddr + phdr.p_filesz) in
      let copy_size : ℕ = copy_end - copy_start in
      let ((count, bytes), w1) =
        machine.read_raw_at filename (phdr.p_offset + (copy_start - phdr.p_vaddr)) copy_size
          s.world in
      let w2 : W =
        machine.put_memory
          (put_bytes (machine.memory w1) (phys + hhdm + (copy_start - vaddr)) bytes) w1 in
      if not (ltb copy_start copy_end)
      then pure tt s
      else if not (is_count count copy_size)
      then (failed, record s { result = negsuc 3; world = w2 })
      else (done tt, record s { world = w2 })

  -- The pages of a segment, by the number of those left.
  unfoldable pub map_pages : ℕ → Phdr → ℕ → Step (Loading W) (Unit {0})
  map_pages zero phdr vaddr = pure tt
  map_pages (suc n) phdr vaddr = do
    phys ← add_page vaddr
    fill_page phdr vaddr phys
    map_pages n phdr (vaddr + page_size)

  abbrev pub raise_highest : Phdr → Step (Loading W) (Unit {0})
  raise_highest phdr s =
      pure tt (record s { highest_load_address = larger s.highest_load_address (segment_end phdr) })

  unfoldable pub add_region : Phdr → Step (Loading W) (Unit {0})
  add_region phdr s =
      if ltb (length s.regions) 256
      then pure tt (record s { regions = s.regions ++ ((page_start phdr, page_end phdr) ∷ []) })
      else (failed, record s { result = negsuc 4 })

  unfoldable pub count_pages : ℕ → Step (Loading W) (Unit {0})
  count_pages n s =
      if ltb (max_pages - s.total_pages) n
      then (failed, record s { result = negsuc 4 })
      else pure tt (record s { total_pages = s.total_pages + n })

  abbrev pub note_entry : Ehdr → Phdr → Step (Loading W) (Unit {0})
  note_entry ehdr phdr s =
      pure tt (record s { entry_is_executable = s.entry_is_executable || holds_entry ehdr phdr })

  -- One segment that is not skipped; `before` are the headers in front of it.
  unfoldable pub map_segment : Ehdr → ℕ → List Phdr → Phdr → Step (Loading W) (Unit {0})
  map_segment ehdr size before phdr = do
    refuse_if (bad_bounds phdr size) (negsuc 4)
    refuse_if (bad_alignment phdr) (negsuc 4)
    raise_highest phdr
    add_region phdr
    count_pages ((page_end phdr - page_start phdr) / page_size)
    note_entry ehdr phdr
    refuse_if (overlaps phdr before) (negsuc 4)
    map_pages ((page_end phdr - page_start phdr) / page_size) phdr (page_start phdr)

  unfoldable pub map_segments : Ehdr → ℕ → List Phdr → List Phdr → Step (Loading W) (Unit {0})
  map_segments ehdr size before [] = pure tt
  map_segments ehdr size before (phdr ∷ phdrs) =
      let rest : Step (Loading W) (Unit {0}) =
        map_segments ehdr size (before ++ (phdr ∷ [])) phdrs in
      if is_skipped phdr then rest else (map_segment ehdr size before phdr >> rest)

  -- The pages of the stack from page `i` on, by the number of those left; the first one's address.
  unfoldable pub map_stack : ℕ → ℕ → Step (Loading W) ℕ
  map_stack zero i = pure 0
  map_stack (suc n) i = do
    phys ← add_page (user_stack_base + i * page_size)
    later ← map_stack n (suc i)
    pure phys

  abbrev pub take_arguments : Loading W → Option ℕ × Mem → Outcome ℕ × Loading W
  take_arguments s (none, m) =
      (failed, record s { result = negsuc 4; world = machine.put_memory m s.world })
  take_arguments s (some p, m) = (done p, record s { world = machine.put_memory m s.world })

  unfoldable pub put_arguments : ℕ → List (Option (List ℕ)) → Step (Loading W) ℕ
  put_arguments stack_phys argv s = take_arguments s (
      prepare_user_arguments (stack_phys + hhdm) user_stack_base 16384 argv
        (machine.memory s.world))

  unfoldable pub find_abi : Ehdr → List Phdr → ℕ → Step (Loading W) Bool
  find_abi ehdr phdrs size s =
      let (found, w1) = elf_uses_linux_abi machine filename ehdr phdrs size s.world in
      (found, record s { world = w1 })

  abbrev pub refuse_unless_ready : Ehdr → Step (Loading W) (Unit {0})
  refuse_unless_ready ehdr s =
      refuse_if ((s.total_pages == 0) || (not s.entry_is_executable || leb (2 ^ 47) ehdr.e_entry))
        (negsuc 4) s

  abbrev pub loaded : Ehdr → ℕ → Bool → Step (Loading W) Loaded
  loaded ehdr user_argv linux_abi s =
      pure
        (record {
          entry = ehdr.e_entry;
          stack = 2 ^ 47 - 8;
          user_argv = user_argv;
          linux_abi = linux_abi;
          heap_base = align_up_page s.highest_load_address;
        })
        s

  -- From the reading of the header on.
  unfoldable pub load_image : ℕ → List (Option (List ℕ)) → Step (Loading W) Loaded
  load_image size argv = do
    header ← read_exact 0 64 (negsuc 3)
    let ehdr = ehdr_of header
    refuse_if (bad_header ehdr) (negsuc 4)
    refuse_if (bad_table ehdr size) (negsuc 4)
    phdrs ← read_phdrs ehdr.e_phnum ehdr.e_phoff
    map_segments ehdr size [] phdrs
    refuse_unless_ready ehdr
    stack_phys ← map_stack 8 0
    user_argv ← put_arguments stack_phys argv
    linux_abi ← find_abi ehdr phdrs size
    loaded ehdr user_argv linux_abi

module _ {W : Type 0} (machine : Machine W) where
  abbrev pub no_image : ℤ → List (ℕ × ℕ) → W → (Outcome Loaded × Loading W)
  no_image code regions w = (
    failed,
    record {
      result = code;
      total_pages = 0;
      highest_load_address = 0;
      entry_is_executable = false;
      regions = regions;
      world = w;
    },
  )

  -- The result code is 0 for `done` and else `result` of the state. `argv` has `argc` entries, and the
  -- pointers for what is returned are not null.
  unfoldable pub system_load_elf_args :
      Option (List ℕ) → ℕ → List (Option (List ℕ)) → List (ℕ × ℕ) → W → Outcome Loaded × Loading W
  system_load_elf_args none size argv regions w = no_image (negsuc 0) regions w
  system_load_elf_args (some filename) size argv regions w =
      let (exists, w1) = machine.exists_file filename w in
      if (length filename == 0) || (ltb size 64 || ltb 16777216 size)
      then no_image (negsuc 0) regions w
      else if ltb 32 (length argv)
      then no_image (negsuc 0) regions w
      else if not exists
      then no_image (negsuc 0) regions w1
      else elim machine.hhdm [
        | none ↦ no_image (negsuc 1) regions w1
        | some hhdm ↦ load_image machine hhdm filename size argv (record {
          result = negsuc 2;
          total_pages = 0;
          highest_load_address = 0;
          entry_is_executable = false;
          regions = regions;
          world = w1;
        })
      ]
