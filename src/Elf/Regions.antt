-- ===== src/Elf/Regions.antt =====
-- helper/core/execute/elf.c: the address ranges of segments, and what the loader's checks say of them.
use windoge_os.Common.{
  ℕ, ◌+◌, ◌-◌, ◌/◌, ◌%◌, ◌≤◌, ◌<◌, ◌≡◌, refl, ap, Bool, true, false, ◌&&◌, ◌||◌, List, [], ◌∷◌,
  ◌++◌, ltb, if◌then◌else◌, arith, Bool-cases, inl, inr, ◌⊎◌,
}
use windoge_os.Elf.Image.{
  Phdr, user_stack_base, is_skipped, bad_bounds, segment_end, page_start, page_end, align_up_page,
  overlaps,
}

-- The ranges have no address in common.
abbrev pub Disjoint : ℕ × ℕ → ℕ × ℕ → Type 0
Disjoint r q = (r.1 ≤ q.0) ⊎ (q.1 ≤ r.0)

-- Whole pages of user memory below the stack, and below `top`.
abbrev pub UserPages : ℕ → ℕ × ℕ → Type 0
UserPages top r =
    (r.0 % 4096 ≡ 0)
    × (r.1 % 4096 ≡ 0)
    × (4096 ≤ r.0)
    × (r.0 < r.1)
    × (r.1 ≤ user_stack_base)
    × (r.1 ≤ top)

abbrev pub DisjointFrom : ℕ × ℕ → List (ℕ × ℕ) → Type 0
DisjointFrom r [] = Unit
DisjointFrom r (q ∷ regions) = Disjoint q r × DisjointFrom r regions

abbrev pub Apart : List (ℕ × ℕ) → Type 0
Apart [] = Unit
Apart (r ∷ regions) = DisjointFrom r regions × Apart regions

abbrev pub Placed : ℕ → List (ℕ × ℕ) → Type 0
Placed top [] = Unit
Placed top (r ∷ regions) = UserPages top r × Placed top regions

-- One of the ranges holds the address.
abbrev pub Covers : ℕ → List (ℕ × ℕ) → Type 0
Covers address [] = ⊥
Covers address (r ∷ regions) = ((r.0 ≤ address) × (address < r.1)) ⊎ Covers address regions

-- The pages of the ranges.
abbrev pub pages_of : List (ℕ × ℕ) → ℕ
pages_of [] = 0
pages_of (r ∷ regions) = (r.1 - r.0) / 4096 + pages_of regions

abbrev pub region_of : Phdr → ℕ × ℕ
region_of phdr = (page_start phdr, page_end phdr)

abbrev pub regions_of : List Phdr → List (ℕ × ℕ)
regions_of [] = []
regions_of (phdr ∷ phdrs) =
    let rest : List (ℕ × ℕ) = regions_of phdrs in
    if is_skipped phdr then rest else region_of phdr ∷ rest

DisjointFrom-append :
    (r q : ℕ × ℕ) (regions : List (ℕ × ℕ))
    → DisjointFrom r regions
    → Disjoint q r
    → DisjointFrom r (regions ++ (q ∷ []))
DisjointFrom-append r q [] h d = (d, tt)
DisjointFrom-append r q (p ∷ regions) h d = (h.0, DisjointFrom-append r q regions h.1 d)

Disjoint-sym : (r q : ℕ × ℕ) → Disjoint r q → Disjoint q r
Disjoint-sym r q (inl h) = inr h
Disjoint-sym r q (inr h) = inl h

pub Apart-append :
    (r : ℕ × ℕ) (regions : List (ℕ × ℕ))
    → Apart regions
    → DisjointFrom r regions
    → Apart (regions ++ (r ∷ []))
Apart-append r [] h d = (tt, tt)
Apart-append r (q ∷ regions) h d =
    (DisjointFrom-append q r regions h.0 (Disjoint-sym q r d.0), Apart-append r regions h.1 d.1)

pub Placed-append :
    (top top' : ℕ) (r : ℕ × ℕ) (regions : List (ℕ × ℕ))
    → top ≤ top'
    → Placed top regions
    → UserPages top' r
    → Placed top' (regions ++ (r ∷ []))
Placed-append top top' r [] le h u = (u, tt)
Placed-append top top' r (q ∷ regions) le h u =
    let (a, b, c, d, e, f) = h.0 in
    ((a, b, c, d, e, omega (arith, f, le)), Placed-append top top' r regions le h.1 u)

pub Covers-left :
    (address : ℕ) (regions more : List (ℕ × ℕ))
    → Covers address regions
    → Covers address (regions ++ more)
Covers-left address [] more h = absurd h
Covers-left address (r ∷ regions) more (inl h) = inl h
Covers-left address (r ∷ regions) more (inr h) = inr (Covers-left address regions more h)

pub Covers-last :
    (address : ℕ) (r : ℕ × ℕ) (regions : List (ℕ × ℕ))
    → r.0 ≤ address
    → address < r.1
    → Covers address (regions ++ (r ∷ []))
Covers-last address r [] lo hi = inl (lo, hi)
Covers-last address r (q ∷ regions) lo hi = inr (Covers-last address r regions lo hi)

pub pages_of-append :
    (r : ℕ × ℕ) (regions : List (ℕ × ℕ))
    → pages_of (regions ++ (r ∷ [])) ≡ pages_of regions + (r.1 - r.0) / 4096
pages_of-append r [] = omega arith
pages_of-append r (q ∷ regions) = omega (arith, pages_of-append r regions)

pub regions_of-append :
    (before : List Phdr) (phdr : Phdr)
    → is_skipped phdr ≡ false
    → regions_of (before ++ (phdr ∷ [])) ≡ regions_of before ++ (region_of phdr ∷ [])
regions_of-append [] phdr e = rw e refl
regions_of-append (other ∷ before) phdr e = elim (Bool-cases (is_skipped other)) [
  | inl skip ↦ rw skip (regions_of-append before phdr e)
  | inr keep ↦ rw keep (ap (λ x. region_of other ∷ x) (regions_of-append before phdr e))
]

pub regions_of-skip :
    (before : List Phdr) (phdr : Phdr)
    → is_skipped phdr ≡ true
    → regions_of (before ++ (phdr ∷ [])) ≡ regions_of before
regions_of-skip [] phdr e = rw e refl
regions_of-skip (other ∷ before) phdr e = elim (Bool-cases (is_skipped other)) [
  | inl skip ↦ rw skip (regions_of-skip before phdr e)
  | inr keep ↦ rw keep (ap (λ x. region_of other ∷ x) (regions_of-skip before phdr e))
]

-- The search for an overlap finds every one.
pub overlaps-Disjoint :
    (phdr : Phdr) (before : List Phdr)
    → overlaps phdr before ≡ false
    → DisjointFrom (region_of phdr) (regions_of before)
unfolding overlaps
overlaps-Disjoint phdr [] e = tt
overlaps-Disjoint phdr (other ∷ before) e = elim (Bool-cases (is_skipped other)) [
  | inl skip ↦ rw skip (overlaps-Disjoint phdr before (rw skip at e))
  | inr keep ↦ rw keep (
      let e' = rw keep at e in
      (
        apart (page_start phdr) (page_end phdr) (page_start other) (page_end other) _ e',
        overlaps-Disjoint phdr before
            (rest (page_start phdr) (page_end phdr) (page_start other) (page_end other) _ e'),
      ))
]
  where
    apart : (a b c d : ℕ) (x : Bool) → ((ltb a d && ltb c b) || x) ≡ false → (d ≤ a) ⊎ (b ≤ c)
    apart a b c d x e = elim (Bool-cases (ltb a d)) [
      | inl h ↦ inr (ground (arith, e, h))
      | inr h ↦ inl (ground (arith, h))
    ]

    rest : (a b c d : ℕ) (x : Bool) → ((ltb a d && ltb c b) || x) ≡ false → x ≡ false
    rest a b c d x e = ground (arith, e)

-- What the bounds check lets through.
pub record Fits (phdr : Phdr) (size : ℕ) : Type 0 where
  pub in_file : phdr.p_offset + phdr.p_filesz ≤ size
  pub covers_file : phdr.p_filesz ≤ phdr.p_memsz
  pub some_memory : 0 < phdr.p_memsz
  pub low : 4096 ≤ phdr.p_vaddr
  pub high : phdr.p_vaddr + phdr.p_memsz ≤ user_stack_base

pub bad_bounds-Fits :
    (phdr : Phdr) (size : ℕ)
    → is_skipped phdr ≡ false
    → bad_bounds phdr size ≡ false
    → Fits phdr size
unfolding bad_bounds
bad_bounds-Fits phdr size e h = record {
  in_file = ground (arith, h);
  covers_file = ground (arith, h);
  some_memory = ground (arith, e);
  low = ground (arith, h);
  high = ground (arith, h);
}

pub region-UserPages :
    (phdr : Phdr) (size top : ℕ)
    → Fits phdr size
    → segment_end phdr ≤ top
    → top ≤ user_stack_base
    → UserPages (align_up_page top) (region_of phdr)
region-UserPages phdr size top f le small =
    let end : segment_end phdr ≡ phdr.p_vaddr + phdr.p_memsz = omega (arith, f.high) in
    (
      omega arith,
      omega arith,
      omega (arith, f.low),
      omega (arith, end, f.some_memory, f.high),
      omega (arith, end, f.high),
      omega (arith, end, le, small),
    )
