-- ===== src/Elf/Sound.antt =====
-- helper/core/execute/elf.c: the loader maps segments only where its checks allow.
use windoge_os.Common.{
  ℕ, ◌+◌, ◌-◌, ◌/◌, ◌≤◌, ◌<◌, ◌≡◌, refl, sym, ap, ◌∙◌, Bool, true, false, ◌||◌, List, [], ◌∷◌, ◌++◌,
  ltb, length, arith, Bool-cases, inl, inr, append_assoc, append-nil,
}
use mathlib.Core.Path.{subst}
use windoge_os.Common.Int.{ℤ, negsuc}
use windoge_os.Common.Step.{
  Step, next, Ensures, holds, rejected, Ensures-next, Ensures-weaken, Ensures-choice,
}
use windoge_os.Elf.Image.{
  Ehdr, Phdr, page_size, user_stack_base, max_pages, bad_bounds, bad_alignment, is_skipped,
  align_up_page, segment_end, page_start, page_end, holds_entry, overlaps,
}
use windoge_os.Elf.Machine.{Machine}
use windoge_os.Elf.Load.{
  Loading, larger, refuse_if, add_region, count_pages, map_segment, map_segments,
}
use windoge_os.Elf.Paging.{map_pages-KeepsAlike}
use windoge_os.Elf.Kept.{Guarded, Alike}
use windoge_os.Elf.Regions.{
  Apart, DisjointFrom, Placed, Covers, pages_of, region_of, regions_of, Apart-append, Placed-append,
  Covers-left, Covers-last, pages_of-append, regions_of-append, regions_of-skip, overlaps-Disjoint,
  Fits, bad_bounds-Fits, region-UserPages,
}

-- The state after the segments `before`: their ranges are pages of user memory below the stack, no two
-- overlap, the entry lies in one of them once it has been found, and they have at most 16384 pages.
pub record Mapping {W : Type 0} (I : W → Type 0) (entry_at : ℕ) (before : List Phdr) (s : Loading W)
    : Type 0 where
  pub kept : I s.world
  pub regions_are : s.regions ≡ regions_of before
  pub apart : Apart s.regions
  pub top_small : s.highest_load_address ≤ user_stack_base
  pub placed : Placed (align_up_page s.highest_load_address) s.regions
  pub entry : s.entry_is_executable ≡ true → Covers entry_at s.regions
  pub counted : pages_of s.regions ≡ s.total_pages
  pub few : s.total_pages ≤ 16384

pub Mapping-Alike :
    {W : Type 0} {I : W → Type 0} {entry_at : ℕ} {before : List Phdr} (s t : Loading W)
    → Alike s t
    → I t.world
    → Mapping I entry_at before s
    → Mapping I entry_at before t
Mapping-Alike {I = I} {entry_at = entry_at} s t (er, eh, ee, et) i m = record {
  kept = i;
  regions_are = er ∙ m.regions_are;
  apart = subst Apart (sym er) m.apart;
  top_small = omega (arith, eh, m.top_small);
  placed = rw (er, eh) m.placed;
  entry = λ e. subst (λ rs. Covers entry_at rs) (sym er) (m.entry (sym ee ∙ e));
  counted = ap pages_of er ∙ m.counted ∙ sym et;
  few = omega (arith, et, m.few);
}

Mapping-skip :
    {W : Type 0} {I : W → Type 0} (entry_at : ℕ) (before : List Phdr) (phdr : Phdr) (s : Loading W)
    → is_skipped phdr ≡ true
    → Mapping I entry_at before s
    → Mapping I entry_at (before ++ (phdr ∷ [])) s
Mapping-skip entry_at before phdr s skip m = record {
  kept = m.kept;
  regions_are = m.regions_are ∙ sym (regions_of-skip before phdr skip);
  apart = m.apart;
  top_small = m.top_small;
  placed = m.placed;
  entry = m.entry;
  counted = m.counted;
  few = m.few;
}

module _ {W : Type 0} (machine : Machine W) (hhdm : ℕ) (filename : List ℕ) (size : ℕ)
    (I : W → Type 0) (guarded : Guarded machine filename size I) (small : size ≤ 16777216) where
  module _ {A : Type 0} {P : A → Loading W → Type 0} where
    pub refuse-next :
        (b : Bool) (code : ℤ) (k : Unit {0} → Step (Loading W) A) {s : Loading W}
        → I s.world
        → (b ≡ false → Ensures P (λ t. I t.world) (k tt s))
        → Ensures P (λ t. I t.world) (next (refuse_if machine hhdm filename b code s) k)
    refuse-next true code k i go = rejected i
    refuse-next false code k i go = go refl

    add_region-next :
        (phdr : Phdr) (k : Unit {0} → Step (Loading W) A) (s : Loading W)
        → I s.world
        → Ensures P
            (λ t. I t.world)
            (k tt (record s { regions = s.regions ++ (region_of phdr ∷ []) }))
        → Ensures P (λ t. I t.world) (next (add_region machine hhdm filename phdr s) k)
    unfolding add_region
    add_region-next phdr k s i go = elim (Bool-cases (ltb (length s.regions) 256)) [
      | inl e ↦ rw e go
      | inr e ↦ rw e (rejected i)
    ]

    count_pages-next :
        (n : ℕ) (k : Unit {0} → Step (Loading W) A) (s : Loading W)
        → I s.world
        → (n ≤ max_pages - s.total_pages
            → Ensures P (λ t. I t.world) (k tt (record s { total_pages = s.total_pages + n })))
        → Ensures P (λ t. I t.world) (next (count_pages machine hhdm filename n s) k)
    unfolding count_pages
    count_pages-next n k s i go = elim (Bool-cases (ltb (max_pages - s.total_pages) n)) [
      | inl e ↦ rw e (rejected i)
      | inr e ↦ rw e (go (ground arith))
    ]

  -- One more segment, when its checks have passed.
  next-Mapping :
      (ehdr : Ehdr) (before : List Phdr) (phdr : Phdr) (s : Loading W)
      → is_skipped phdr ≡ false
      → Fits phdr size
      → overlaps phdr before ≡ false
      → (page_end phdr - page_start phdr) / 4096 ≤ max_pages - s.total_pages
      → Mapping I ehdr.e_entry before s
      → Mapping I ehdr.e_entry (before ++ (phdr ∷ [])) (record s {
        highest_load_address = larger s.highest_load_address (segment_end phdr);
        regions = s.regions ++ (region_of phdr ∷ []);
        total_pages = s.total_pages + (page_end phdr - page_start phdr) / 4096;
        entry_is_executable = s.entry_is_executable || holds_entry ehdr phdr;
      })
  unfolding holds_entry
  next-Mapping ehdr before phdr s keep f free enough m = record {
    kept = m.kept;
    regions_are =
        ap (λ x. x ++ (region_of phdr ∷ [])) m.regions_are
        ∙ sym (regions_of-append before phdr keep);
    apart = Apart-append (region_of phdr) s.regions m.apart (
        subst (λ x. DisjointFrom (region_of phdr) x) (sym m.regions_are)
          (overlaps-Disjoint phdr before free));
    top_small = top_ok;
    placed =
        Placed-append (align_up_page s.highest_load_address) (align_up_page top) (region_of phdr)
          s.regions (up_mono s.highest_load_address top (ground arith) top_ok) m.placed
          (region-UserPages phdr size top f (ground arith) top_ok);
    entry = found;
    counted =
        pages_of-append (region_of phdr) s.regions
        ∙ ap (λ x. x + (page_end phdr - page_start phdr) / 4096) m.counted;
    few = omega (arith, m.few, enough);
  }
    where
      top : ℕ
      top = larger s.highest_load_address (segment_end phdr)

      top_ok : top ≤ user_stack_base
      top_ok = ground (arith, m.top_small, f.high)

      up_mono : (a b : ℕ) → a ≤ b → b ≤ user_stack_base → align_up_page a ≤ align_up_page b
      up_mono a b h small = omega arith

      covered :
          holds_entry ehdr phdr ≡ true
          → (page_start phdr ≤ ehdr.e_entry) × (ehdr.e_entry < page_end phdr)
      covered e =
          let lo : phdr.p_vaddr ≤ ehdr.e_entry = ground (arith, e) in
          let hi : ehdr.e_entry < segment_end phdr = ground (arith, e) in
          (omega (arith, lo), omega (arith, hi, f.high))

      found :
          (s.entry_is_executable || holds_entry ehdr phdr) ≡ true
          → Covers ehdr.e_entry (s.regions ++ (region_of phdr ∷ []))
      found e = elim (Bool-cases s.entry_is_executable) [
        | inl had ↦ Covers-left ehdr.e_entry s.regions (region_of phdr ∷ []) (m.entry had)
        | inr not_yet ↦
            let (lo, hi) = covered (rw not_yet at e) in
            Covers-last ehdr.e_entry (region_of phdr) s.regions lo hi
      ]

  map_segment-Mapping :
      (ehdr : Ehdr) (before : List Phdr) (phdr : Phdr) (s : Loading W)
      → is_skipped phdr ≡ false
      → Mapping I ehdr.e_entry before s
      → Ensures
          (λ u t. Mapping I ehdr.e_entry (before ++ (phdr ∷ [])) t)
          (λ t. I t.world)
          (map_segment machine hhdm filename ehdr size before phdr s)
  unfolding map_segment
  map_segment-Mapping ehdr before phdr s keep m =
      refuse-next (bad_bounds phdr size) (negsuc 4) _ m.kept λ good.
        let f = bad_bounds-Fits phdr size keep good in
        refuse-next (bad_alignment phdr) (negsuc 4) _ m.kept λ aligned.
          add_region-next phdr _ _ m.kept (
            count_pages-next ((page_end phdr - page_start phdr) / page_size) _ _ m.kept λ enough.
              refuse-next (overlaps phdr before) (negsuc 4) _ m.kept λ free.
                let m1 = next-Mapping ehdr before phdr s keep f free enough m in
                Ensures-weaken
                  (map_pages-KeepsAlike machine hhdm filename size I guarded small
                    ((page_end phdr - page_start phdr) / page_size) phdr (page_start phdr) _ f
                    (omega arith) (omega (arith, f.low)) (omega (arith, f.high, f.some_memory))
                    m.kept)
                  (λ u t (alike, i). Mapping-Alike _ t alike i m1))

  pub map_segments-Mapping :
      (ehdr : Ehdr) (before phdrs : List Phdr) (s : Loading W)
      → Mapping I ehdr.e_entry before s
      → Ensures
          (λ u t. Mapping I ehdr.e_entry (before ++ phdrs) t)
          (λ t. I t.world)
          (map_segments machine hhdm filename ehdr size before phdrs s)
  unfolding map_segments
  map_segments-Mapping ehdr before [] s m =
      holds (subst (λ x. Mapping I ehdr.e_entry x s) (sym (append-nil before)) m)
  map_segments-Mapping ehdr before (phdr ∷ phdrs) s m =
      let whole = append_assoc before (phdr ∷ []) phdrs in
      Ensures-choice (is_skipped phdr) _ _
        (λ skip.
          Ensures-weaken
            (map_segments-Mapping ehdr (before ++ (phdr ∷ [])) phdrs s
              (Mapping-skip ehdr.e_entry before phdr s skip m))
            (λ u t m'. subst (λ x. Mapping I ehdr.e_entry x t) whole m'))
        (λ keep. Ensures-next (map_segment-Mapping ehdr before phdr s keep m) λ u t m1.
          Ensures-weaken (map_segments-Mapping ehdr (before ++ (phdr ∷ [])) phdrs t m1)
            (λ u' t' m'. subst (λ x. Mapping I ehdr.e_entry x t') whole m'))
