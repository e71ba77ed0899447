-- ===== src/Elf/Safe.antt =====
-- helper/core/execute/elf.c: system_load_elf_args on any file.
use windoge_os.Common.{
  ℕ, zero, suc, ◌+◌, ◌-◌, ◌*◌, ◌^◌, ◌≤◌, ◌≡◌, refl, sym, ap, ◌∙◌, Bool, true, false, not, ◌||◌,
  Option, none, some, List, [], ltb, leb, ◌==◌, length, arith, Bool-cases, Option-cases, inl, inr,
}
use mathlib.Core.Path.{subst}
use windoge_os.Common.Int.{negsuc}
use windoge_os.Common.Step.{next, Ensures, holds, rejected, Ensures-next, ◌>>=◌}
use windoge_os.Elf.Image.{
  Ehdr, Phdr, ehdr_of, page_size, user_stack_base, bad_header, bad_table, align_up_page,
}
use windoge_os.Common.Mem.{Mem}
use windoge_os.Elf.Machine.{Machine}
use windoge_os.Elf.Arguments.{prepare_user_arguments}
use windoge_os.Elf.Load.{
  Loading, Loaded, map_stack, take_arguments, put_arguments, find_abi, loaded, refuse_unless_ready,
  load_image, system_load_elf_args,
}
use windoge_os.Elf.Paging.{add_page-KeepsAlike}
use windoge_os.Elf.Kept.{
  Guarded, Alike, Alike-chain, KeepsAlike, read_exact-KeepsAlike, read_phdrs-KeepsAlike,
  find_abi-KeepsAlike,
}
use windoge_os.Elf.Regions.{Apart, Placed, Covers, pages_of}
use windoge_os.Elf.Sound.{Mapping, Mapping-Alike, refuse-next, map_segments-Mapping}

-- A program that is loaded: its ranges are whole pages of user memory, between 4096, the stack and the
-- start of the heap; no two overlap; they have at most 16384 pages; the entry lies in one of them.
pub record Sound {W : Type 0} (image : Loaded) (s : Loading W) : Type 0 where
  pub placed : Placed image.heap_base s.regions
  pub apart : Apart s.regions
  pub few : pages_of s.regions ≤ 16384
  pub entry : Covers image.entry s.regions

module _ {W : Type 0} (machine : Machine W) (size : ℕ) (I : W → Type 0)
    (small : size ≤ 16777216) where
  module _ (hhdm : ℕ) (filename : List ℕ) (guarded : Guarded machine filename size I) where
    map_stack-KeepsAlike :
        (n i : ℕ) (s : Loading W)
        → n + i ≤ 8
        → I s.world
        → KeepsAlike I s (map_stack machine hhdm filename n i s)
    unfolding map_stack
    map_stack-KeepsAlike zero i s le kept = holds ((refl, refl, refl, refl), kept)
    map_stack-KeepsAlike (suc n) i s le kept =
        Ensures-next
          (add_page-KeepsAlike machine hhdm filename size I guarded small
            (user_stack_base + i * page_size) s (omega arith) (omega arith) (omega (arith, le))
            kept)
          λ phys s1 ((h0, h1, h2, h3), i1).
            Ensures-next (map_stack-KeepsAlike n (suc i) s1 (omega (arith, le)) i1)
              λ later s2 ((e0, e1, e2, e3), i2). holds ((e0 ∙ h0, e1 ∙ h1, e2 ∙ h2, e3 ∙ h3), i2)

    put_arguments-KeepsAlike :
        (stack_phys : ℕ) (argv : List (Option (List ℕ))) (s : Loading W)
        → I s.world
        → KeepsAlike I s (put_arguments machine hhdm filename stack_phys argv s)
    unfolding put_arguments
    put_arguments-KeepsAlike stack_phys argv s kept = taken (
        prepare_user_arguments (stack_phys + hhdm) user_stack_base 16384 argv
          (machine.memory s.world))
      where
        taken : (r : Option ℕ × Mem) → KeepsAlike I s (take_arguments machine hhdm filename s r)
        taken (none, m) = rejected (guarded.memory_keeps m s.world kept)
        taken (some p, m) = holds ((refl, refl, refl, refl), guarded.memory_keeps m s.world kept)

    -- The last tests, and what stands behind them.
    ready-Sound :
        (ehdr : Ehdr) (phdrs before : List Phdr) (argv : List (Option (List ℕ))) (s : Loading W)
        → Mapping I ehdr.e_entry before s
        → Ensures
            (λ image t. Sound image t × I t.world)
            (λ t. I t.world)
            (next (refuse_unless_ready machine hhdm filename ehdr s) (λ _.
              map_stack machine hhdm filename 8 0 >>= λ stack_phys.
              put_arguments machine hhdm filename stack_phys argv >>= λ user_argv.
              find_abi machine hhdm filename ehdr phdrs size >>= λ linux_abi.
              loaded machine hhdm filename ehdr user_argv linux_abi))
    ready-Sound ehdr phdrs before argv s m =
        refuse-next machine hhdm filename size I guarded small _ (negsuc 4) _ m.kept λ ready.
          Ensures-next (map_stack-KeepsAlike 8 0 s (omega arith) m.kept) λ stack_phys s1 (a1, i1).
            let m1 = Mapping-Alike s s1 a1 i1 m in
            Ensures-next (put_arguments-KeepsAlike stack_phys argv s1 i1) λ user_argv s2 (a2, i2).
              let m2 = Mapping-Alike s1 s2 a2 i2 m1 in
              Ensures-next
                (find_abi-KeepsAlike machine hhdm filename size I guarded small ehdr phdrs s2 i2)
                λ linux_abi s3 (a3, i3).
                  let m3 = Mapping-Alike s2 s3 a3 i3 m2 in
                  holds (
                    record {
                      placed = m3.placed;
                      apart = m3.apart;
                      few = omega (arith, m3.counted, m3.few);
                      entry =
                          subst (λ rs. Covers ehdr.e_entry rs) (sym (a3.0 ∙ a2.0 ∙ a1.0))
                            (m.entry (
                              found s.total_pages s.entry_is_executable (leb (2 ^ 47) ehdr.e_entry)
                                ready));
                    },
                    i3,
                  )
      where
        found : (n : ℕ) (b c : Bool) → ((n == 0) || (not b || c)) ≡ false → b ≡ true
        found n b c e = ground (arith, e)

    table_fits :
        (ehdr : Ehdr)
        → bad_header ehdr ≡ false
        → bad_table ehdr size ≡ false
        → ehdr.e_phoff + ehdr.e_phnum * 56 ≤ size
    unfolding bad_header bad_table
    table_fits ehdr good inside =
        let entry_size : ehdr.e_phentsize ≡ 56 = ground (arith, good) in
        let room : ehdr.e_phnum * ehdr.e_phentsize ≤ size - ehdr.e_phoff = ground (arith, inside) in
        let lo : ehdr.e_phoff ≤ size = ground (arith, inside) in
        let total : ehdr.e_phnum * ehdr.e_phentsize ≡ ehdr.e_phnum * 56 =
          ap (λ k. ehdr.e_phnum * k) entry_size in
        omega (arith, room, lo, total)

    -- Before the first segment.
    start-Mapping :
        (entry_at : ℕ) (s t : Loading W)
        → s.regions ≡ []
        → s.total_pages ≡ 0
        → s.highest_load_address ≡ 0
        → s.entry_is_executable ≡ false
        → Alike s t
        → I t.world
        → Mapping I entry_at [] t
    start-Mapping entry_at s t er et eh ee (ar, ah, ae, at) i = record {
      kept = i;
      regions_are = ar ∙ er;
      apart = subst Apart (sym (ar ∙ er)) tt;
      top_small = omega (arith, ah, eh);
      placed = subst (λ rs. Placed (align_up_page t.highest_load_address) rs) (sym (ar ∙ er)) tt;
      entry = λ e. absurd (not_both t.entry_is_executable e (ae ∙ ee));
      counted = ap pages_of (ar ∙ er) ∙ sym (at ∙ et);
      few = omega (arith, at, et);
    }
      where
        not_both : (b : Bool) → b ≡ true → b ≡ false → ⊥
        not_both b e h = absurd (cc)

    load_image-Sound :
        (argv : List (Option (List ℕ))) (s : Loading W)
        → 64 ≤ size
        → I s.world
        → s.regions ≡ []
        → s.total_pages ≡ 0
        → s.highest_load_address ≡ 0
        → s.entry_is_executable ≡ false
        → Ensures
            (λ image t. Sound image t × I t.world)
            (λ t. I t.world)
            (load_image machine hhdm filename size argv s)
    unfolding load_image
    load_image-Sound argv s long kept er et eh ee =
        Ensures-next
          (read_exact-KeepsAlike machine hhdm filename size I guarded small 0 64 (negsuc 3) s
            (omega (arith, long)) kept)
          λ header s1 (a1, i1).
            let ehdr : Ehdr = ehdr_of header in
            refuse-next machine hhdm filename size I guarded small (bad_header ehdr) (negsuc 4) _ i1
              λ good.
                refuse-next machine hhdm filename size I guarded small (bad_table ehdr size)
                  (negsuc 4) _ i1
                  λ inside.
                    Ensures-next
                      (read_phdrs-KeepsAlike machine hhdm filename size I guarded small ehdr.e_phnum
                        ehdr.e_phoff s1 (table_fits ehdr good inside) i1)
                      λ phdrs s2 (a2, i2).
                        Ensures-next
                          (map_segments-Mapping machine hhdm filename size I guarded small ehdr []
                            phdrs s2
                            (start-Mapping ehdr.e_entry s s2 er et eh ee (Alike-chain s s1 s2 a1 a2)
                              i2))
                          λ u s3 m. ready-Sound ehdr phdrs phdrs argv s3 m

  -- For a size of at most 16 MB, any arguments, no regions so far, and any answers of the file system
  -- and the page allocator, `system_load_elf_args` ends. It reads the file only within its size and maps
  -- only whole pages between 4096 and 2^47: what survives these, new pages and memory writes survives
  -- the loader, also when it fails. When it succeeds, the ranges of the segments are whole pages below
  -- the stack and the heap, no two overlap, they have at most 16384 pages, and the entry lies in one.
  pub load_elf-Sound :
      (filename : List ℕ) (argv : List (Option (List ℕ))) (w : W)
      → Guarded machine filename size I
      → I w
      → Ensures
          (λ image s. Sound image s × I s.world)
          (λ s. I s.world)
          (system_load_elf_args machine (some filename) size argv [] w)
  unfolding system_load_elf_args
  load_elf-Sound filename argv w guarded i =
      elim (Bool-cases ((length filename == 0) || (ltb size 64 || ltb 16777216 size))) [
        | inl bad ↦ rw bad (rejected i)
        | inr good ↦ elim (Bool-cases (ltb 32 (length argv))) [
          | inl many ↦ rw (good, many) (rejected i)
          | inr few ↦ elim (Bool-cases (not (machine.exists_file filename w).0)) [
            | inl absent ↦ rw (good, few, absent) (rejected (guarded.exists_keeps w i))
            | inr there ↦ elim (Option-cases machine.hhdm) [
              | inl e ↦ rw (good, few, there, e) (rejected (guarded.exists_keeps w i))
              | inr (hhdm, e) ↦
                  rw (good, few, there, e)
                    (load_image-Sound hhdm filename guarded argv _
                      (long (length filename == 0) good) (guarded.exists_keeps w i) refl refl refl
                      refl)
            ]
          ]
        ]
      ]
    where
      long : (b : Bool) → (b || (ltb size 64 || ltb 16777216 size)) ≡ false → 64 ≤ size
      long b e = ground (arith, e)
