-- ===== src/Elf/Paging.antt =====
-- helper/core/execute/elf.c: the pages of a segment are mapped and filled within the loader's bounds.
use windoge_os.Common.{
  ℕ, zero, suc, ◌+◌, ◌-◌, ◌*◌, ◌%◌, ◌^◌, ◌≤◌, ◌≡◌, refl, true, List, ltb, ◌==◌, arith, Bool-cases,
  inl, inr,
}
use windoge_os.Common.Int.{ℤ}
use windoge_os.Common.Step.{holds, rejected, Ensures-next, Ensures-weaken}
use windoge_os.Elf.Image.{Phdr, page_size}
use windoge_os.Elf.Machine.{Machine}
use windoge_os.Elf.Notes.{is_count}
use windoge_os.Elf.Load.{Loading, add_page, fill_page, map_pages, larger, smaller}
use windoge_os.Elf.Regions.{Fits}
use windoge_os.Elf.Kept.{Guarded, Alike-chain, KeepsAlike}

module _ {W : Type 0} (machine : Machine W) (hhdm : ℕ) (filename : List ℕ) (size : ℕ)
    (I : W → Type 0) (guarded : Guarded machine filename size I) (small : size ≤ 16777216) where
  pub add_page-KeepsAlike :
      (vaddr : ℕ) (s : Loading W)
      → vaddr % 4096 ≡ 0
      → 4096 ≤ vaddr
      → vaddr + 4096 ≤ 2 ^ 47
      → I s.world
      → KeepsAlike I s (add_page machine hhdm filename vaddr s)
  unfolding add_page
  add_page-KeepsAlike vaddr s whole lo hi i =
      elim (Bool-cases ((machine.alloc_zeroed_page s.world).0 == 0)) [
        | inl e ↦ rw e (rejected (guarded.alloc_keeps s.world i))
        | inr e ↦ rw e (
            holds (
              (refl, refl, refl, refl),
              guarded.map_keeps vaddr _ _ whole lo hi (guarded.alloc_keeps s.world i),
            ))
      ]

  fill_page-KeepsAlike :
      (phdr : Phdr) (vaddr phys : ℕ) (s : Loading W)
      → Fits phdr size
      → I s.world
      → KeepsAlike I s (fill_page machine hhdm filename phdr vaddr phys s)
  unfolding fill_page
  fill_page-KeepsAlike phdr vaddr phys s f i = elim (Bool-cases (ltb copy_start copy_end)) [
    | inr e ↦ rw e (holds ((refl, refl, refl, refl), i))
    | inl e ↦ elim (Bool-cases (is_count count copy_size)) [
      | inr short ↦ rw (e, short) (rejected (guarded.memory_keeps _ _ (read e)))
      | inl whole ↦
          rw (e, whole) (holds ((refl, refl, refl, refl), guarded.memory_keeps _ _ (read e)))
    ]
  ]
    where
      copy_start : ℕ
      copy_start = larger phdr.p_vaddr vaddr

      copy_end : ℕ
      copy_end = smaller (vaddr + page_size) (phdr.p_vaddr + phdr.p_filesz)

      copy_size : ℕ
      copy_size = copy_end - copy_start

      count : ℤ
      count =
          (machine.read_raw_at filename (phdr.p_offset + (copy_start - phdr.p_vaddr)) copy_size
            s.world).0.0

      inside :
          (a b c n : ℕ)
          → ltb (larger a b) (smaller c (a + n)) ≡ true
          → larger a b - a + (smaller c (a + n) - larger a b) ≤ n
      inside a b c n e = ground (arith, e)

      read :
          ltb copy_start copy_end ≡ true
          → I
              (machine.read_raw_at filename
                (phdr.p_offset + (copy_start - phdr.p_vaddr))
                copy_size
                s.world).1
      read e =
          guarded.read_keeps _ copy_size s.world
            (omega
              (arith, f.in_file, inside phdr.p_vaddr vaddr (vaddr + page_size) phdr.p_filesz e))
            i

  pub map_pages-KeepsAlike :
      (n : ℕ) (phdr : Phdr) (vaddr : ℕ) (s : Loading W)
      → Fits phdr size
      → vaddr % 4096 ≡ 0
      → 4096 ≤ vaddr
      → vaddr + n * 4096 ≤ 2 ^ 47
      → I s.world
      → KeepsAlike I s (map_pages machine hhdm filename n phdr vaddr s)
  unfolding map_pages
  map_pages-KeepsAlike zero phdr vaddr s f whole lo hi i = holds ((refl, refl, refl, refl), i)
  map_pages-KeepsAlike (suc n) phdr vaddr s f whole lo hi i =
      Ensures-next (add_page-KeepsAlike vaddr s whole lo (omega (arith, hi)) i) λ phys s1 (a1, i1).
        Ensures-next (fill_page-KeepsAlike phdr vaddr phys s1 f i1) λ u s2 (a2, i2).
          Ensures-weaken
            (map_pages-KeepsAlike n phdr (vaddr + page_size) s2 f (omega (arith, whole))
              (omega arith) (omega (arith, hi)) i2)
            (λ u' s3 (a3, i3). (Alike-chain s s1 s3 a1 (Alike-chain s1 s2 s3 a2 a3), i3))
