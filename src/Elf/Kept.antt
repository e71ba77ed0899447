-- ===== src/Elf/Kept.antt =====
-- helper/core/execute/elf.c: what the loader leaves alone while it reads, maps pages and looks for notes.
use windoge_os.Common.{
  ℕ, zero, suc, ◌+◌, ◌-◌, ◌*◌, ◌%◌, ◌^◌, ◌≤◌, ◌<◌, ◌≡◌, refl, ◌∙◌, Bool, true, false, not, ◌&&◌,
  ◌||◌, List, [], ◌∷◌, ltb, leb, ◌==◌, if◌then◌else◌, get_or, arith, Bool-cases, inl, inr,
}
use windoge_os.Common.Int.{ℤ, negsuc}
use windoge_os.Common.Mem.{Mem}
use windoge_os.Common.Step.{
  Outcome, Step, Ensures, holds, rejected, Ensures-next, Ensures-choice, pure,
}
use windoge_os.Elf.Image.{Ehdr, Phdr, ident, field}
use windoge_os.Elf.Machine.{Machine}
use windoge_os.Elf.Notes.{
  Note, linux, other, broken, after_note, align_four, is_count, read_file, read_system, read_name,
  notes_loop, notes_of, elf_uses_linux_abi,
}
use windoge_os.Elf.Load.{Loading, read_exact, read_phdrs, find_abi}

-- `I` survives what the loader may do: reads within the file, new pages, and the mapping of whole
-- pages between 4096 and 2^47.
pub record Guarded {W : Type 0} (machine : Machine W) (filename : List ℕ) (size : ℕ)
    (I : W → Type 0) : Type 0 where
  pub exists_keeps : (w : W) → I w → I (machine.exists_file filename w).1
  pub read_keeps :
      (offset n : ℕ) (w : W)
      → offset + n ≤ size
      → I w
      → I (machine.read_raw_at filename offset n w).1
  pub alloc_keeps : (w : W) → I w → I (machine.alloc_zeroed_page w).1
  pub map_keeps :
      (vaddr phys : ℕ) (w : W)
      → vaddr % 4096 ≡ 0
      → 4096 ≤ vaddr
      → vaddr + 4096 ≤ 2 ^ 47
      → I w
      → I (machine.map_user_page vaddr phys w)
  pub memory_keeps : (m : Mem) (w : W) → I w → I (machine.put_memory m w)

-- The same but for the world and the code.
abbrev pub Alike : {W : Type 0} → Loading W → Loading W → Type 0
Alike s t =
    (t.regions ≡ s.regions)
    × (t.highest_load_address ≡ s.highest_load_address)
    × (t.entry_is_executable ≡ s.entry_is_executable)
    × (t.total_pages ≡ s.total_pages)

-- The action ends; it keeps `I`, and changes nothing else if it succeeds.
abbrev pub KeepsAlike : {W A : Type 0} → (W → Type 0) → Loading W → Outcome A × Loading W → Type 0
KeepsAlike I s r = Ensures (λ a t. Alike s t × I t.world) (λ t. I t.world) r

pub Alike-chain : {W : Type 0} (a b c : Loading W) → Alike a b → Alike b c → Alike a c
Alike-chain a b c (e0, e1, e2, e3) (h0, h1, h2, h3) = (h0 ∙ e0, h1 ∙ e1, h2 ∙ e2, h3 ∙ e3)

module _ {W : Type 0} (machine : Machine W) (hhdm : ℕ) (filename : List ℕ) (size : ℕ)
    (I : W → Type 0) (guarded : Guarded machine filename size I) (small : size ≤ 16777216) where
  -- The action ends, and `I` is kept.
  abbrev pub KeepsW : {A : Type 0} → Outcome A × W → Type 0
  KeepsW r = Ensures (λ a w. I w) (λ w. I w) r

  read_file-Keeps :
      (offset n : ℕ) (w : W)
      → offset + n ≤ size
      → I w
      → KeepsW (read_file machine filename offset n w)
  unfolding read_file
  read_file-Keeps offset n w fits i =
      let here : offset % 2 ^ 64 ≡ offset = omega (arith, fits, small) in
      rw here (holds (guarded.read_keeps offset n w fits i))

  read_system-Keeps :
      (offset : ℕ) (w : W)
      → offset + 4 ≤ size
      → I w
      → KeepsW (read_system machine filename offset w)
  unfolding read_system
  read_system-Keeps offset w fits i =
      Ensures-next (read_file-Keeps offset 4 w fits i) λ r w1 i1. holds i1

  read_name-Keeps :
      (offset name_size : ℕ) (w : W)
      → offset + 4 ≤ size
      → offset + name_size + 4 ≤ size
      → I w
      → KeepsW (read_name machine filename offset name_size w)
  unfolding read_name
  read_name-Keeps offset name_size w fits fits2 i =
      Ensures-next (read_file-Keeps offset 4 w fits i) λ (count, bytes) w1 i1.
        Ensures-choice (not (is_count count 4)) _ _ (λ e. holds i1)
          (λ e.
            Ensures-choice
              ((get_or bytes 0 0 == b'G')
                && ((get_or bytes 1 0 == b'N')
                    && ((get_or bytes 2 0 == b'U') && (get_or bytes 3 0 == 0))))
              _ _ (λ e2. read_system-Keeps (offset + name_size) w1 fits2 i1) (λ e2. holds i1))

  verdict-Keeps :
      (test : Bool) (offset name_size : ℕ) (w : W)
      → (test ≡ true → (offset + 4 ≤ size) × (offset + name_size + 4 ≤ size))
      → I w
      → KeepsW ((if test then read_name machine filename offset name_size else pure other) w)
  verdict-Keeps test offset name_size w fits i =
      Ensures-choice test _ _ (λ e. read_name-Keeps offset name_size w (fits e).0 (fits e).1 i)
        (λ e. holds i)

  by_verdict :
      (v : Note) (rest : Step W Bool) (w : W) → I w → KeepsW (rest w) → KeepsW (after_note v rest w)
  by_verdict linux rest w i go = holds i
  by_verdict other rest w i go = go
  by_verdict broken rest w i go = holds i

  notes_loop-Keeps :
      (f : ℕ) (phdr : Phdr) (cursor : ℕ) (w : W)
      → phdr.p_filesz - cursor < f
      → phdr.p_offset + phdr.p_filesz ≤ size
      → I w
      → KeepsW (notes_loop machine filename f phdr cursor w)
  unfolding notes_loop
  notes_loop-Keeps zero phdr cursor w fuel inside i = absurd (omega arith)
  notes_loop-Keeps (suc f) phdr cursor w fuel inside i =
      Ensures-choice (leb cursor phdr.p_filesz && leb 12 (phdr.p_filesz - cursor)) _ _
        (λ goes.
          let room : cursor + 12 ≤ phdr.p_filesz = has_room cursor phdr.p_filesz goes in
          Ensures-next (read_file-Keeps (phdr.p_offset + cursor) 12 w (omega (arith, room)) i)
            λ (count, note) w1 i1.
              let name_size : ℕ = align_four (field 4 note 0) in
              let desc_size : ℕ = align_four (field 4 note 4) in
              Ensures-choice
                (not (is_count count 12)
                  || (ltb (phdr.p_filesz - (cursor + 12)) name_size
                      || ltb (phdr.p_filesz - (cursor + 12) - name_size) desc_size))
                _ _ (λ e. holds i1)
                (λ e.
                  let fits : cursor + 12 + name_size + desc_size ≤ phdr.p_filesz =
                    has_note (is_count count 12) (cursor + 12) name_size desc_size phdr.p_filesz
                      room e in
                  Ensures-next
                    (verdict-Keeps _ (phdr.p_offset + (cursor + 12)) name_size w1
                      (λ t. named (field 4 note 0) (field 4 note 4) _ t (cursor + 12) fits) i1)
                    λ v w2 i2.
                      by_verdict v
                        (notes_loop machine filename f phdr (cursor + 12 + (name_size + desc_size)))
                        w2 i2
                        (notes_loop-Keeps f phdr (cursor + 12 + (name_size + desc_size)) w2
                          (omega (arith, fuel, room)) inside i2)))
        (λ over. holds i)
    where
      has_room : (c n : ℕ) → (leb c n && leb 12 (n - c)) ≡ true → c + 12 ≤ n
      has_room c n e = ground (arith, e)

      has_note :
          (b : Bool) (c x y n : ℕ)
          → c ≤ n
          → (not b || (ltb (n - c) x || ltb (n - c - x) y)) ≡ false
          → c + x + y ≤ n
      has_note b c x y n h e = ground (arith, e)

      named :
          (x y : ℕ) (kind : Bool)
          → (kind && ((x == 4) && leb 4 y)) ≡ true
          → (c : ℕ) → c + align_four x + align_four y ≤ phdr.p_filesz
          → (phdr.p_offset + c + 4 ≤ size) × (phdr.p_offset + c + align_four x + 4 ≤ size)
      named x y kind e c h =
          let x_is : x ≡ 4 = ground (arith, e) in
          let y_ge : 4 ≤ y = ground (arith, e) in
          (omega (arith, h, x_is, y_ge, inside), omega (arith, h, x_is, y_ge, inside))

  notes_of-Keeps :
      (phdrs : List Phdr) (w : W) → I w → KeepsW (notes_of machine filename phdrs size w)
  unfolding notes_of
  notes_of-Keeps [] w i = holds i
  notes_of-Keeps (phdr ∷ phdrs) w i =
      Ensures-choice
        (not (phdr.p_type == 4)
          || (ltb size phdr.p_offset || ltb (size - phdr.p_offset) phdr.p_filesz))
        _ _ (λ skip. notes_of-Keeps phdrs w i)
        (λ goes.
          Ensures-next
            (notes_loop-Keeps (suc phdr.p_filesz) phdr 0 w (omega arith)
              (within (phdr.p_type == 4) phdr.p_offset phdr.p_filesz goes) i)
            λ found w1 i1.
              Ensures-choice found _ _ (λ e. holds i1) (λ e. notes_of-Keeps phdrs w1 i1))
    where
      within :
          (b : Bool) (o n : ℕ) → (not b || (ltb size o || ltb (size - o) n)) ≡ false → o + n ≤ size
      within b o n e = ground (arith, e)

  abi-Keeps :
      (ehdr : Ehdr) (phdrs : List Phdr) (w : W)
      → I w
      → KeepsW (elf_uses_linux_abi machine filename ehdr phdrs size w)
  unfolding elf_uses_linux_abi
  abi-Keeps ehdr phdrs w i =
      Ensures-choice (ident ehdr 7 == 3) _ _ (λ e. holds i) (λ e. notes_of-Keeps phdrs w i)

  -- The same for the loader's own state, which stays but for its world.
  pub read_exact-KeepsAlike :
      (offset n : ℕ) (code : ℤ) (s : Loading W)
      → offset + n ≤ size
      → I s.world
      → KeepsAlike I s (read_exact machine hhdm filename offset n code s)
  unfolding read_exact
  read_exact-KeepsAlike offset n code s fits i =
      elim (Bool-cases (not (is_count (machine.read_raw_at filename offset n s.world).0.0 n))) [
        | inl short ↦ rw short (rejected (guarded.read_keeps offset n s.world fits i))
        | inr whole ↦
            rw whole (holds ((refl, refl, refl, refl), guarded.read_keeps offset n s.world fits i))
      ]

  pub read_phdrs-KeepsAlike :
      (n offset : ℕ) (s : Loading W)
      → offset + n * 56 ≤ size
      → I s.world
      → KeepsAlike I s (read_phdrs machine hhdm filename n offset s)
  unfolding read_phdrs
  read_phdrs-KeepsAlike zero offset s fits i = holds ((refl, refl, refl, refl), i)
  read_phdrs-KeepsAlike (suc n) offset s fits i =
      Ensures-next (read_exact-KeepsAlike offset 56 (negsuc 4) s (omega (arith, fits)) i)
        λ bytes s1 (a1, i1).
          Ensures-next (read_phdrs-KeepsAlike n (offset + 56) s1 (omega (arith, fits)) i1)
            λ phdrs s2 (a2, i2). holds (Alike-chain s s1 s2 a1 a2, i2)

  pub find_abi-KeepsAlike :
      (ehdr : Ehdr) (phdrs : List Phdr) (s : Loading W)
      → I s.world
      → KeepsAlike I s (find_abi machine hhdm filename ehdr phdrs size s)
  unfolding find_abi
  find_abi-KeepsAlike ehdr phdrs s i =
      found (elf_uses_linux_abi machine filename ehdr phdrs size s.world)
        (abi-Keeps ehdr phdrs s.world i)
    where
      found : (r : Outcome Bool × W) → KeepsW r → KeepsAlike I s ((r.0, record s { world = r.1 }))
      found r (holds h) = holds ((refl, refl, refl, refl), h)
      found r (rejected h) = rejected h
