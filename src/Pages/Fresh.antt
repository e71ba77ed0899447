-- ===== src/Pages/Fresh.antt =====
-- helper/core/memory/mmu.c: the pages that the allocator takes from the memory map.
use windoge_os.Common.{
  ℕ, suc, ◌+◌, ◌-◌, ◌%◌, ◌^◌, ◌≤◌, ◌<◌, ◌≡◌, inl, inr, arith, some, List, [], ◌∷◌, leb, ◌==◌,
  length, get_or, Bool-cases,
}
use windoge_os.Pages.{Entry, alloc_loop}

abbrev pub no_entry : Entry
no_entry = record { base = 0; size = 0; kind = 1 }

-- The entries lie within the address space, short of its last page.
abbrev pub InSpace : List Entry → Type 0
InSpace [] = Unit
InSpace (e ∷ es) = (e.base + e.size + 4096 ≤ 2 ^ 64) × InSpace es

-- The page at `phys` was taken from the entry `index - from` of the list: the entry is usable, the
-- page lies in it, the new offset is right behind the page, and in the first entry the page stands at
-- the offset `start`.
pub record TakenFrom (es : List Entry) (from start phys index offset : ℕ) : Type 0 where
  pub step : ℕ
  pub at : index ≡ from + step
  pub inside : step < length es
  pub usable : (get_or es step no_entry).kind ≡ 0
  pub next : (get_or es step no_entry).base + offset ≡ phys + 4096
  pub back : 4096 ≤ offset
  pub ends : offset ≤ (get_or es step no_entry).size
  pub fresh : (step ≡ 0) → start + 4096 ≡ offset

TakenFrom-suc :
    (e : Entry) (es : List Entry) (from start phys index offset : ℕ)
    → TakenFrom es (suc from) 0 phys index offset
    → TakenFrom (e ∷ es) from start phys index offset
TakenFrom-suc e es from start phys index offset t = record {
  step = suc t.step;
  at = omega (arith, t.at);
  inside = omega (arith, t.inside);
  usable = t.usable;
  next = t.next;
  back = t.back;
  ends = t.ends;
  fresh = λ z. absurd (omega arith);
}

-- A page that the search of the memory map finds lies in a usable entry, at or behind the place where
-- the search began, and the next search begins right behind the page. The entries lie within the
-- address space.
pub alloc_loop-TakenFrom :
    (es : List Entry) (from start phys : ℕ)
    → InSpace es
    → start < 2 ^ 64 - 4096
    → (alloc_loop es from start).0 ≡ some phys
    → TakenFrom es from start phys (alloc_loop es from start).1 (alloc_loop es from start).2
unfolding alloc_loop
alloc_loop-TakenFrom [] from start phys sp st h = absurd (cc)
alloc_loop-TakenFrom (e ∷ es) from start phys sp st h = elim (Bool-cases (e.kind == 0)) [
  | inr other ↦ rw other (
      TakenFrom-suc e es from start phys _ _
        (alloc_loop-TakenFrom es (suc from) 0 phys sp.1 (omega arith) (rw other at h)))
  | inl kind ↦ elim (Bool-cases (leb ((start + 4096) % 2 ^ 64) e.size)) [
    | inl room ↦
        let p : (e.base + start) % 2 ^ 64 ≡ phys = ground (arith, rw (kind, room) at h) in
        let small : (start + 4096) % 2 ^ 64 ≡ start + 4096 = omega (arith, st) in
        let fits : start + 4096 ≤ e.size = ground (arith, small) in
        let q : e.base + start ≡ phys = omega (arith, p, fits, sp.0) in
        rw (kind, room)
          (record {
            step = 0;
            at = omega arith;
            inside = omega arith;
            usable = ground arith;
            next = omega (arith, small, q);
            back = omega (arith, small);
            ends = ground arith;
            fresh = λ z. omega arith;
          })
    | inr full ↦
        rw (kind, full)
          (TakenFrom-suc e es from start phys _ _
            (alloc_loop-TakenFrom es (suc from) 0 phys sp.1 (omega arith) (rw (kind, full) at h)))
  ]
]
