-- ===== src/Pages/FreeList.antt =====
-- helper/core/memory/mmu.c: the list of free pages, which is kept in the pages themselves.
use windoge_os.Common.{
  ℕ, zero, suc, ◌+◌, ◌/◌, ◌%◌, ◌^◌, ◌≤◌, ◌<◌, ◌≡◌, refl, ◌≢◌, ◌⊎◌, arith, false, not, ◌||◌, some,
  List, [], ◌∷◌, ◌==◌, if◌then◌else◌, length, ◌∙◌, ap, Bool-cases, inl, inr,
}
use windoge_os.Common.Mem.{Mem, write}
use windoge_os.Pages.{
  Entry, Boot, Pmm, virt, zero_page, pmm_free_page, pmm_alloc_zeroed_page, count_free,
  count_entries, pmm_get_free_page_count,
}

-- The pages of a list, each holding the address of the next one in its first word.
abbrev pub Chain : ℕ → Mem → ℕ → List ℕ → Type 0
Chain hhdm m head [] = head ≡ 0
Chain hhdm m head (p ∷ ps) = (head ≡ p) × (p ≢ 0) × Chain hhdm m (m (virt hhdm p)) ps

-- The page lies beside all pages of the list, where they are mapped.
abbrev pub Beside : ℕ → ℕ → List ℕ → Type 0
Beside hhdm p [] = Unit
Beside hhdm p (q ∷ qs) =
    ((virt hhdm p + 4096 ≤ virt hhdm q) ⊎ (virt hhdm q + 4096 ≤ virt hhdm p)) × Beside hhdm p qs

abbrev pub Apart : ℕ → List ℕ → Type 0
Apart hhdm [] = Unit
Apart hhdm (p ∷ ps) = Beside hhdm p ps × Apart hhdm ps

-- The allocator's free pages are those of the list, in this order, and do not overlap.
pub record FreeList (hhdm : ℕ) (s : Pmm) (ps : List ℕ) : Type 0 where
  pub chain : Chain hhdm s.words s.free_page_head ps
  pub apart : Apart hhdm ps

-- The words of the list's pages decide.
Chain-frame :
    (hhdm : ℕ) (m m' : Mem) (p head : ℕ) (ps : List ℕ)
    → ((q : ℕ) → (q < virt hhdm p) ⊎ (virt hhdm p + 4096 ≤ q) → m' q ≡ m q)
    → Beside hhdm p ps
    → Chain hhdm m head ps
    → Chain hhdm m' head ps
Chain-frame hhdm m m' p head [] same b c = c
Chain-frame hhdm m m' p head (q ∷ ps) same b c =
    let e : m' (virt hhdm q) ≡ m (virt hhdm q) = same (virt hhdm q) (omega (arith, b.0)) in
    (c.0, c.1, rw e (Chain-frame hhdm m m' p (m (virt hhdm q)) ps same b.1 c.2))

zero_page-outside :
    (page : ℕ) (m : Mem) (q : ℕ) → (q < page) ⊎ (page + 4096 ≤ q) → zero_page page m q ≡ m q
unfolding zero_page
zero_page-outside page m q h = ground arith

zero_page-inside :
    (page : ℕ) (m : Mem) (q : ℕ) → page ≤ q → q < page + 4096 → zero_page page m q ≡ 0
unfolding zero_page
zero_page-inside page m q lo hi = ground arith

push-Chain :
    (hhdm p head : ℕ) (m : Mem) (ps : List ℕ)
    → Beside hhdm p ps
    → Chain hhdm m head ps
    → Chain hhdm (write m (virt hhdm p) head) (write m (virt hhdm p) head (virt hhdm p)) ps
push-Chain hhdm p head m ps b c =
    let at : write m (virt hhdm p) head (virt hhdm p) ≡ head = ground arith in
    rw at (Chain-frame hhdm m (write m (virt hhdm p) head) p head ps (λ q out. ground arith) b c)

-- Freeing a page that is not null, is aligned and lies beside all free pages puts it in front of
-- the list of free pages.
pub free_page-FreeList :
    (hhdm p : ℕ) (s : Pmm) (ps : List ℕ)
    → p ≢ 0
    → p % 4096 ≡ 0
    → Beside hhdm p ps
    → FreeList hhdm s ps
    → FreeList hhdm (pmm_free_page p hhdm s) (p ∷ ps)
unfolding pmm_free_page
free_page-FreeList hhdm p s ps nz al b f =
    let ok : ((p == 0) || not (p % 4096 == 0)) ≡ false = ground arith in
    rw (ok, pmm_free_page)
      (record {
        chain = (refl, nz, push-Chain hhdm p s.free_page_head s.words ps b f.chain);
        apart = (b, f.apart);
      })

-- What an allocation from the list has done.
pub record Taken (hhdm p : ℕ) (ps : List ℕ) (s s' : Pmm) : Type 0 where
  pub left : FreeList hhdm s' ps
  pub cleared : (q : ℕ) → virt hhdm p ≤ q → q < virt hhdm p + 4096 → s'.words q ≡ 0
  pub others : (q : ℕ) → (q < virt hhdm p) ⊎ (virt hhdm p + 4096 ≤ q) → s'.words q ≡ s.words q

-- As long as there are free pages, `pmm_alloc_zeroed_page` returns the first one with all of its words
-- zero, the other free pages are still free in the same order, and no word outside the page changes.
-- The boot loader's two responses are there.
pub alloc_page-Taken :
    (boot : Boot) (memmap : List Entry) (hhdm p : ℕ) (ps : List ℕ) (s : Pmm)
    → boot.memmap ≡ some memmap
    → boot.hhdm ≡ some hhdm
    → FreeList hhdm s (p ∷ ps)
    → (s' : Pmm) × (pmm_alloc_zeroed_page boot s ≡ some (p, s')) × Taken hhdm p ps s s'
unfolding pmm_alloc_zeroed_page
alloc_page-Taken boot memmap hhdm p ps s bm bh f =
    let head : s.free_page_head ≡ p = f.chain.0 in
    let full : (s.free_page_head == 0) ≡ false = ground (arith, f.chain.1) in
    let s' : Pmm = record s {
      free_page_head = s.words (virt hhdm p);
      words = zero_page (virt hhdm p) s.words;
    } in
    (
      s',
      rw (bm, bh, full, pmm_alloc_zeroed_page)
          (ap
            (λ x. some (
              x,
              record s {
                free_page_head = s.words (virt hhdm x);
                words = zero_page (virt hhdm x) s.words;
              },
            ))
            head),
      record {
        left = record {
          chain =
              Chain-frame hhdm s.words (zero_page (virt hhdm p) s.words) p (s.words (virt hhdm p))
                ps (zero_page-outside (virt hhdm p) s.words) f.apart.0 f.chain.2;
          apart = f.apart.1;
        };
        cleared = zero_page-inside (virt hhdm p) s.words;
        others = zero_page-outside (virt hhdm p) s.words;
      },
    )

-- The loop counts the pages of the list, if the fuel is more than their number.
count_free-Chain :
    (hhdm : ℕ) (m : Mem) (ps : List ℕ) (fuel head count : ℕ)
    → hhdm ≢ 0
    → length ps < fuel
    → Chain hhdm m head ps
    → count_free fuel hhdm m head count ≡ some (count + length ps)
unfolding count_free
count_free-Chain hhdm m ps zero head count hh lt c = absurd (omega arith)
count_free-Chain hhdm m [] (suc fuel) head count hh lt c = ground (arith, c)
count_free-Chain hhdm m (p ∷ ps) (suc fuel) head count hh lt c =
    let n0 : (head == 0) ≡ false = ground (arith, c.0, c.1) in
    let n1 : (hhdm == 0) ≡ false = ground arith in
    let next : m (virt hhdm head) ≡ m (virt hhdm p) = ap (λ x. m (virt hhdm x)) c.0 in
    rw (n0, n1, next)
      (count_free-Chain hhdm m ps fuel (m (virt hhdm p)) (suc count) hh (omega arith) c.2
        ∙ ap (λ x. some x) {x = suc count + length ps} (omega arith))

-- How many whole pages the usable entries have.
abbrev pub usable_pages : List Entry → ℕ
usable_pages [] = 0
usable_pages (e ∷ es) = (if e.kind == 0 then e.size / 4096 else 0) + usable_pages es

count_entries-usable :
    (es : List Entry) (count : ℕ)
    → count < 2 ^ 64
    → count_entries es count ≡ (count + usable_pages es) % 2 ^ 64
unfolding count_entries
count_entries-usable [] count lt = omega arith
count_entries-usable (e ∷ es) count lt = elim (Bool-cases (e.kind == 0)) [
  | inl free ↦
      rw free
        (count_entries-usable es ((count + e.size / 4096) % 2 ^ 64) (omega arith) ∙ omega arith)
  | inr taken ↦ rw taken (
      count_entries-usable es count lt
      ∙ ap (λ k. (count + k) % 2 ^ 64) {x = usable_pages es} {y = 0 + usable_pages es}
          (omega arith))
]

-- With fuel for the list of free pages, `pmm_get_free_page_count` returns the number of these pages
-- and of all whole pages of the usable entries together, modulo 2^64: the pages of an entry are counted
-- as free when they have been handed out, too. There are less than 2^64 free pages, the memory map is there and the direct map does not start at 0.
pub free_page_count_lem :
    (boot : Boot) (memmap : List Entry) (hhdm fuel : ℕ) (ps : List ℕ) (s : Pmm)
    → boot.memmap ≡ some memmap
    → boot.hhdm ≡ some hhdm
    → hhdm ≢ 0
    → length ps < fuel
    → length ps < 2 ^ 64
    → FreeList hhdm s ps
    → pmm_get_free_page_count fuel boot s ≡ some ((length ps + usable_pages memmap) % 2 ^ 64)
unfolding pmm_get_free_page_count
free_page_count_lem boot memmap hhdm fuel ps s bm bh hh lt few f =
    rw
      (
        bm,
        bh,
        count_free-Chain hhdm s.words ps fuel s.free_page_head 0 hh lt f.chain,
        pmm_get_free_page_count,
      )
      (ap (λ k. some (count_entries memmap k)) {x = 0 + length ps} {y = length ps} (omega arith)
        ∙ ap (λ k. some k) (count_entries-usable memmap (length ps) few))
