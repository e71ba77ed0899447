-- ===== src/Elf/Notes.antt =====
-- helper/core/execute/elf.c: elf_uses_linux_abi, which looks for the note of the system.
use windoge_os.Common.{
  ℕ, zero, suc, ◌+◌, ◌-◌, ◌*◌, ◌/◌, ◌%◌, ◌^◌, Bool, true, false, not, ◌&&◌, ◌||◌, List, [], ◌∷◌,
  ltb, leb, ◌==◌, if◌then◌else◌, get_or,
}
use windoge_os.Common.Int.{ℤ, pos, negsuc}
use windoge_os.Common.Step.{Step, ◌>>=◌, pure, out_of_fuel}
use windoge_os.Elf.Image.{Ehdr, Phdr, field, ident}
use windoge_os.Elf.Machine.{Machine}

-- What a note says: the system is Linux, go on, or leave the segment.
pub data Note : Type 0 where
  linux other broken : Note

abbrev pub is_count : ℤ → ℕ → Bool
is_count (pos k) n = k == n
is_count (negsuc k) n = false

-- `(x + 3ULL) & ~3ULL`
abbrev pub align_four : ℕ → ℕ
align_four x = (x + 3) / 4 * 4

-- Return true, go on, or leave the loop.
abbrev pub after_note : {W : Type 0} → Note → Step W Bool → Step W Bool
after_note linux rest = pure true
after_note other rest = rest
after_note broken rest = pure false

module _ {W : Type 0} (machine : Machine W) (filename : List ℕ) where
  -- A read of this file.
  unfoldable pub read_file : ℕ → ℕ → Step W (ℤ × List ℕ)
  read_file offset n w =
      let (result, w1) = machine.read_raw_at filename (offset % 2 ^ 64) n w in pure result w1

  -- The word behind the name "GNU".
  unfoldable pub read_system : ℕ → Step W Note
  read_system offset = read_file offset 4 >>= λ (count, bytes).
      pure
        (if not (is_count count 4) then broken else if field 4 bytes 0 == 0 then linux else other)

  -- A note of type 1 with a name of four bytes.
  unfoldable pub read_name : ℕ → ℕ → Step W Note
  read_name offset name_size = read_file offset 4 >>= λ (count, bytes).
      if not (is_count count 4)
      then pure broken
      else if (get_or bytes 0 0 == b'G')
          && ((get_or bytes 1 0 == b'N') && ((get_or bytes 2 0 == b'U') && (get_or bytes 3 0 == 0)))
      then read_system (offset + name_size)
      else pure other

  -- `while (cursor <= phdr->p_filesz && ...)`; true is `return true`.
  unfoldable pub notes_loop : ℕ → Phdr → ℕ → Step W Bool
  notes_loop zero phdr cursor = out_of_fuel
  notes_loop (suc f) phdr cursor =
      let body : Step W Bool = read_file (phdr.p_offset + cursor) 12 >>= λ (count, note).
      let cursor1 : ℕ = cursor + 12 in
      let name_size : ℕ = align_four (field 4 note 0) in
      let desc_size : ℕ = align_four (field 4 note 4) in
      let rest : Step W Bool = notes_loop f phdr (cursor1 + (name_size + desc_size)) in
      let verdict : Step W Note =
        if (field 4 note 8 == 1) && ((field 4 note 0 == 4) && leb 4 (field 4 note 4))
        then read_name (phdr.p_offset + cursor1) name_size
        else pure other in
      if not (is_count count 12)
        || (ltb (phdr.p_filesz - cursor1) name_size
            || ltb (phdr.p_filesz - cursor1 - name_size) desc_size)
      then pure false
      else (verdict >>= λ v. after_note v rest) in
      if leb cursor phdr.p_filesz && leb 12 (phdr.p_filesz - cursor) then body else pure false

  -- `for (i = 0; i < ehdr->e_phnum; i++)`, with fuel for one round more than the segment has bytes.
  unfoldable pub notes_of : List Phdr → ℕ → Step W Bool
  notes_of [] file_size = pure false
  notes_of (phdr ∷ phdrs) file_size =
      let rest : Step W Bool = notes_of phdrs file_size in
      if not (phdr.p_type == 4)
        || (ltb file_size phdr.p_offset || ltb (file_size - phdr.p_offset) phdr.p_filesz)
      then rest
      else (notes_loop (suc phdr.p_filesz) phdr 0 >>= λ found. if found then pure true else rest)

  unfoldable pub elf_uses_linux_abi : Ehdr → List Phdr → ℕ → Step W Bool
  elf_uses_linux_abi ehdr phdrs file_size =
      if ident ehdr 7 == 3 then pure true else notes_of phdrs file_size
