-- ===== src/Strings/Reverse.antt =====
-- Digits in a memory: what the loops of helper/string/string.c store, and how a reversal, in place
-- or by a copy, turns them into a text.
use windoge_os.Common.{
  ℕ, zero, suc, ◌+◌, ◌-◌, ◌/◌, ◌%◌, ◌≤◌, ◌<◌, ◌≡◌, refl, ◌⊎◌, inl, inr, arith, List, [], ◌∷◌, ◌++◌,
  ◌==◌, if◌then◌else◌, length, get_or, ◌∙◌, ap, Bool-cases,
}
use mathlib.Core.Path.{subst}
use windoge_os.Common.Mem.{Mem, write, Holds, IsText}
use windoge_os.Strings.Format.{put_digits, swap_loop, copy_back}

-- Storing a list from `i` on.
unfoldable pub poke : Mem → ℕ → List ℕ → Mem
poke m i [] = m
poke m i (c ∷ l) = poke (write m i c) (suc i) l

pub poke_outside :
    (l : List ℕ) (m : Mem) (i q : ℕ) → (q < i) ⊎ (i + length l ≤ q) → poke m i l q ≡ m q
unfolding poke
poke_outside [] m i q h = refl
poke_outside (c ∷ l) m i q h = poke_outside l (write m i c) (suc i) q (omega arith) ∙ ground arith

pub poke_inside :
    (l : List ℕ) (m : Mem) (i j : ℕ) → j < length l → poke m i l (i + j) ≡ get_or l j 0
unfolding poke
poke_inside [] m i j h = absurd (omega arith)
poke_inside (c ∷ l) m i zero h =
    poke_outside l (write m i c) (suc i) (i + 0) (omega arith) ∙ ground arith
poke_inside (c ∷ l) m i (suc j) h =
    ap (poke (write m i c) (suc i) l) (omega arith)
    ∙ poke_inside l (write m i c) (suc i) j (omega arith)

-- The decimal digits, the last one first.
unfoldable pub digits_of : ℕ → ℕ → List ℕ
digits_of zero n = []
digits_of (suc f) n =
    let rest : List ℕ = digits_of f (n / 10) in if n == 0 then [] else (n % 10 + b'0') ∷ rest

pub put_digits-poke :
    (f n i : ℕ) (m : Mem)
    → put_digits f n i m ≡ (poke m i (digits_of f n), i + length (digits_of f n))
unfolding put_digits digits_of poke
put_digits-poke zero n i m = ground arith
put_digits-poke (suc f) n i m = elim (Bool-cases (n == 0)) [
  | inl e ↦ rw (e, put_digits, digits_of) (ground arith)
  | inr e ↦
      rw (e, put_digits, digits_of)
        (put_digits-poke f (n / 10) (suc i) (write m i (n % 10 + b'0')) ∙ ground arith)
]

pub swap_loop_outside :
    (f s e : ℕ) (m : Mem) (q : ℕ) → (q < s) ⊎ (e < q) → swap_loop f s e m q ≡ m q
unfolding swap_loop
swap_loop_outside zero s e m q h = refl
swap_loop_outside (suc f) s e m q h =
    ground (arith, swap_loop_outside f (suc s) (e - 1) (write (write m s (m e)) e (m s)) q)

pub swap_loop_inside :
    (f s e : ℕ) (m : Mem) (j : ℕ) → e ≤ s + f → s ≤ j → j ≤ e → swap_loop f s e m j ≡ m (s + e - j)
unfolding swap_loop
swap_loop_inside zero s e m j fits lo hi = ap m (omega arith)
swap_loop_inside (suc f) s e m j fits lo hi = ground (
  arith,
  swap_loop_outside f (suc s) (e - 1) (write (write m s (m e)) e (m s)) j,
  swap_loop_inside f (suc s) (e - 1) (write (write m s (m e)) e (m s)) j,
)

pub copy_back_outside :
    (i j : ℕ) (temp m : Mem) (q : ℕ) → (q < j) ⊎ (j + i ≤ q) → copy_back i j temp m q ≡ m q
unfolding copy_back
copy_back_outside zero j temp m q h = refl
copy_back_outside (suc i) j temp m q h =
    copy_back_outside i (suc j) temp (write m j (temp i)) q (omega arith) ∙ ground arith

pub copy_back_inside :
    (i j : ℕ) (temp m : Mem) (k : ℕ) → k < i → copy_back i j temp m (j + k) ≡ temp (i - 1 - k)
unfolding copy_back
copy_back_inside zero j temp m k h = absurd (omega arith)
copy_back_inside (suc i) j temp m zero h =
    copy_back_outside i (suc j) temp (write m j (temp i)) (j + 0) (omega arith) ∙ ground arith
copy_back_inside (suc i) j temp m (suc k) h =
    ap (copy_back i (suc j) temp (write m j (temp i))) (omega arith)
    ∙ copy_back_inside i (suc j) temp (write m j (temp i)) k (omega arith)
    ∙ ap temp (omega arith)

unfoldable pub rev_append : List ℕ → List ℕ → List ℕ
rev_append [] t = t
rev_append (c ∷ l) t = rev_append l (c ∷ t)

pub length-rev_append : (l t : List ℕ) → length (rev_append l t) ≡ length l + length t
unfolding rev_append
length-rev_append [] t = omega arith
length-rev_append (c ∷ l) t = omega (arith, length-rev_append l (c ∷ t))

pub rev_append-append : (l k t : List ℕ) → rev_append (l ++ k) t ≡ rev_append k (rev_append l t)
unfolding rev_append
rev_append-append [] k t = refl
rev_append-append (c ∷ l) k t = rev_append-append l k (c ∷ t)

get_or-suc : (c : ℕ) (l : List ℕ) (k : ℕ) → 0 < k → get_or (c ∷ l) k 0 ≡ get_or l (k - 1) 0
get_or-suc c l zero h = absurd (omega arith)
get_or-suc c l (suc k) h = ap (λ i. get_or l i 0) (omega arith)

-- A memory that holds a list backwards, and a text behind it, holds the reversed list as a text.
pub Holds-reverse :
    (l t : List ℕ) (m : Mem) (p : ℕ)
    → IsText l
    → ((j : ℕ) → j < length l → m (p + j) ≡ get_or l (length l - 1 - j) 0)
    → Holds m (p + length l) t
    → Holds m p (rev_append l t)
unfolding rev_append
Holds-reverse [] t m p hl at ht = subst (λ q. Holds m q t) (omega arith) ht
Holds-reverse (c ∷ l) t m p hl at ht =
    Holds-reverse l (c ∷ t) m p hl.1
      (λ j h.
        at j (omega arith)
        ∙ get_or-suc c l (length (c ∷ l) - 1 - j) (omega arith)
        ∙ ap (λ i. get_or l i 0) (omega arith))
      (at (length l) (omega arith) ∙ first, hl.0, subst (λ q. Holds m q t) (omega arith) ht)
  where
    first : get_or (c ∷ l) (length (c ∷ l) - 1 - length l) 0 ≡ c
    first = ap (λ i. get_or (c ∷ l) i 0) {x = length (c ∷ l) - 1 - length l} {y = 0} (omega arith)
