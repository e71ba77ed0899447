-- ===== src/Strings/Print.antt =====
-- helper/string/string.c: what the printing functions leave in memory. The text is described on its
-- own: its bytes are digits, it has no leading zero, and its value is the number.
use windoge_os.Common.{
  ℕ, zero, suc, ◌+◌, ◌-◌, ◌*◌, ◌/◌, ◌%◌, ◌^◌, ◌≤◌, ◌<◌, ◌≡◌, refl, ◌⊎◌, inl, inr, arith, true, List,
  [], ◌∷◌, length, get_or, ◌∙◌, ap,
}
use native.Mathlib.Nat.{pow-suc, pow-zero}
use native.Mathlib.Decide.{ℕ_discrete}
use windoge_os.Common.Mem.{Mem, write, chr, Holds, IsText}
use windoge_os.Strings.Read.{is_digit}
use windoge_os.Strings.Parse.{value}
use windoge_os.Strings.Format.{swap_loop}
use windoge_os.Strings.Reverse.{
  poke, poke_outside, poke_inside, digits_of, swap_loop_outside, swap_loop_inside, rev_append,
  length-rev_append, Holds-reverse,
}

abbrev pub AllDigits : List ℕ → Type 0
AllDigits [] = Unit
AllDigits (c ∷ s) = (is_digit c ≡ true) × AllDigits s

-- Only the text of zero begins with a zero.
abbrev pub IsCanonical : List ℕ → Type 0
IsCanonical s = (b'0' < chr s) ⊎ (s ≡ b'0' ∷ [])

-- `s` is the decimal text of `v`, of at most `n` digits.
pub record IsDecimal (s : List ℕ) (v n : ℕ) : Type 0 where
  pub digits : AllDigits s
  pub canonical : IsCanonical s
  pub spells : value 0 s ≡ v
  pub short : length s ≤ n

-- The memory after printing `v`: a decimal text of `v` from the pointer on, nothing else written.
pub record Printed (before after : Mem) (v n : ℕ) : Type 0 where
  pub text : List ℕ
  pub decimal : IsDecimal text v n
  pub holds : Holds after 0 text
  pub frame : (q : ℕ) → length text < q → after q ≡ before q

-- The number that a list of digits stands for, the last digit first.
low_value : List ℕ → ℕ
low_value [] = 0
low_value (c ∷ l) = (c - b'0') + 10 * low_value l

low_value-digits_of : (f n : ℕ) → n < 10 ^ f → low_value (digits_of f n) ≡ n
unfolding low_value digits_of
low_value-digits_of zero n h = omega (arith, pow-zero 10)
low_value-digits_of (suc f) n h = ground (arith, low_value-digits_of f (n / 10), pow-suc 10 f)

pub value-nil : (acc : ℕ) → value acc [] ≡ acc
unfolding value
value-nil acc = refl

pub value-cons :
    (acc c : ℕ) (t : List ℕ)
    → is_digit c ≡ true
    → value acc (c ∷ t) ≡ value (acc * 10 + (c - b'0')) t
unfolding value
value-cons acc c t h = rw (h, value)

value-rev_append : (l t : List ℕ) → AllDigits l → value 0 (rev_append l t) ≡ value (low_value l) t
unfolding rev_append low_value
value-rev_append [] t h = refl
value-rev_append (c ∷ l) t h =
    value-rev_append l (c ∷ t) h.1
    ∙ value-cons (low_value l) c t h.0
    ∙ ap (λ a. value a t) {x = low_value l * 10 + (c - b'0')} (omega arith)

AllDigits-rev_append : (l t : List ℕ) → AllDigits l → AllDigits t → AllDigits (rev_append l t)
unfolding rev_append
AllDigits-rev_append [] t h k = k
AllDigits-rev_append (c ∷ l) t h k = AllDigits-rev_append l (c ∷ t) h.1 (h.0, k)

pub AllDigits-digits_of : (f n : ℕ) → AllDigits (digits_of f n)
unfolding digits_of
AllDigits-digits_of zero n = tt
AllDigits-digits_of (suc f) n = ground (arith, AllDigits-digits_of f (n / 10))

pub AllDigits-IsText : (l : List ℕ) → AllDigits l → IsText l
AllDigits-IsText [] h = tt
AllDigits-IsText (c ∷ l) h = (ground (arith, h.0), AllDigits-IsText l h.1)

pub length-digits_of : (f n : ℕ) → length (digits_of f n) ≤ f
unfolding digits_of
length-digits_of zero n = omega arith
length-digits_of (suc f) n = ground (arith, length-digits_of f (n / 10))

digits_of-zero : (f : ℕ) → digits_of f 0 ≡ []
unfolding digits_of
digits_of-zero zero = refl
digits_of-zero (suc f) = refl

-- The digit that comes first after the reversal is not zero.
chr-digits_of :
    (f n : ℕ) (t : List ℕ) → 0 < n → n < 10 ^ f → b'0' < chr (rev_append (digits_of f n) t)
unfolding digits_of rev_append
chr-digits_of zero n t p h = absurd (omega (arith, pow-zero 10))
chr-digits_of (suc f) n t p h = elim (ℕ_discrete (n / 10) 0) [
  | yes e ↦ ground (arith, e, ap (digits_of f) e ∙ digits_of-zero f)
  | no ne ↦ ground (arith, chr-digits_of f (n / 10) ((n % 10 + b'0') ∷ t), pow-suc 10 f)
]

-- What the digit loop has stored, read backwards, is the decimal text.
pub digits_of-IsDecimal :
    (f n : ℕ) → 0 < n → n < 10 ^ f → IsDecimal (rev_append (digits_of f n) []) n f
digits_of-IsDecimal f n p h = record {
  digits = AllDigits-rev_append (digits_of f n) [] (AllDigits-digits_of f n) tt;
  canonical = inl (chr-digits_of f n [] p h);
  spells =
      value-rev_append (digits_of f n) [] (AllDigits-digits_of f n)
      ∙ value-nil (low_value (digits_of f n))
      ∙ low_value-digits_of f n h;
  short = omega (arith, length-rev_append (digits_of f n) [], length-digits_of f n);
}

pub zero-IsDecimal : (n : ℕ) → IsDecimal (b'0' ∷ []) 0 (suc n)
unfolding value
zero-IsDecimal n = record {
  digits = (refl, tt);
  canonical = inr refl;
  spells = refl;
  short = omega arith;
}

pub print_zero : (m : Mem) (n : ℕ) → Printed m (write (write m 0 b'0') 1 0) 0 (suc n)
print_zero m n = record {
  text = b'0' ∷ [];
  decimal = zero-IsDecimal n;
  holds = (refl, omega arith, refl);
  frame = λ q h. ground arith;
}

-- The terminator and the reversal in place.
pub reverse_in_place :
    (m : Mem) (l : List ℕ)
    → IsText l
    → 0 < length l
    → let after = swap_loop (length l) 0 (length l - 1) (write (poke m 0 l) (length l) 0) in
      Holds after 0 (rev_append l []) × ((q : ℕ) → length l < q → after q ≡ m q)
reverse_in_place m l h pos = (Holds-reverse l [] after 0 h inside end, outside)
  where
    before : Mem
    before = write (poke m 0 l) (length l) 0

    after : Mem
    after = swap_loop (length l) 0 (length l - 1) before

    inside : (j : ℕ) → j < length l → after (0 + j) ≡ get_or l (length l - 1 - j) 0
    inside j k = ground (
      arith,
      swap_loop_inside (length l) 0 (length l - 1) before (0 + j),
      poke_inside l m 0 (length l - 1 - j),
    )

    end : after (0 + length l) ≡ 0
    end = ground (arith, swap_loop_outside (length l) 0 (length l - 1) before (0 + length l))

    outside : (q : ℕ) → length l < q → after q ≡ m q
    outside q k =
        ground (arith, swap_loop_outside (length l) 0 (length l - 1) before q, poke_outside l m 0 q)

-- A number above zero has a digit.
pub digits_of_pos : (f n : ℕ) → 0 < n → n < 10 ^ f → 0 < length (digits_of f n)
unfolding digits_of
digits_of_pos zero n p h = absurd (omega (arith, pow-zero 10))
digits_of_pos (suc f) n p h = ground arith
