-- ===== src/Strings/Parse.antt =====
-- helper/string/string.c: the number parsers against the value of the leading digits.
use windoge_os.Common.{
  ℕ, ◌+◌, ◌-◌, ◌*◌, ◌%◌, ◌^◌, ◌≤◌, ◌≡◌, refl, inl, inr, arith, Bool, true, false, ◌||◌, none, some,
  List, [], ◌∷◌, leb, ◌==◌, if◌then◌else◌, Bool-cases,
}
use Prim.Native.Nat.{min}
use windoge_os.Common.Int.{ℤ, pos, sub_ℕ}
use windoge_os.Strings.Read.{
  is_digit, int_max, atoi_loop, atoi_result, str_atoi, u16_loop, str_to_u16, skip_blanks, u8_loop,
  str_to_u8,
}

-- The number that the leading decimal digits spell, read after `acc`.
unfoldable pub value : ℕ → List ℕ → ℕ
value acc [] = acc
value acc (c ∷ s) = elim (is_digit c) [ true ↦ value (acc * 10 + (c - b'0')) s | false ↦ acc ]

pub le-value : (acc : ℕ) (s : List ℕ) → acc ≤ value acc s
unfolding value
le-value acc [] = omega arith
le-value acc (c ∷ s) = ground (arith, le-value (acc * 10 + (c - b'0')) s)

-- The loop of `str_atoi` returns the value, unless that is above INT_MAX.
atoi_loop-value :
    (s : List ℕ) (acc : ℕ)
    → acc ≤ int_max
    → atoi_loop acc s ≡ (if leb (value acc s) int_max then some (value acc s) else none)
unfolding atoi_loop value
atoi_loop-value [] acc h = ground arith
atoi_loop-value (c ∷ s) acc h = elim (Bool-cases (is_digit c)) [
  | inr e ↦ rw (e, atoi_loop, value) (ground arith)
  | inl e ↦
      rw (e, atoi_loop, value)
        (ground
          (arith, e, le-value (acc * 10 + (c - b'0')) s, atoi_loop-value s (acc * 10 + (c - b'0'))))
]

-- The value of a decimal text with an optional sign, cut to the range of a 32-bit `int`.
abbrev pub clamp_int : Bool → ℕ → ℤ
clamp_int false v = pos (min v int_max)
clamp_int true v = sub_ℕ 0 (min v (int_max + 1))

-- The sign that `str_atoi` reads, and what follows it.
abbrev pub minus_sign : List ℕ → Bool
minus_sign [] = false
minus_sign (c ∷ s) = c == b'-'

abbrev pub unsigned_part : List ℕ → List ℕ
unsigned_part [] = []
unsigned_part (c ∷ s) = if (c == b'-') || (c == b'+') then s else c ∷ s

result-clamp :
    (negative : Bool) (v : ℕ)
    → atoi_result negative (if leb v int_max then some v else none) ≡ clamp_int negative v
unfolding atoi_result
result-clamp true v = ground arith
result-clamp false v = ground arith

-- `str_atoi` returns the number that the text spells, clamped to the range of `int` on both sides.
pub str_atoi-value :
    (s : List ℕ) → str_atoi s ≡ clamp_int (minus_sign s) (value 0 (unsigned_part s))
unfolding str_atoi
str_atoi-value [] = unfold value atoi_result atoi_loop in refl
str_atoi-value (c ∷ s) = ground (
  arith,
  atoi_loop-value s 0 (omega arith),
  atoi_loop-value (c ∷ s) 0 (omega arith),
  result-clamp true (value 0 s),
  result-clamp false (value 0 s),
  result-clamp false (value 0 (c ∷ s)),
)

u16_loop-value :
    (s : List ℕ) (acc acc' : ℕ) → acc ≡ acc' % 2 ^ 16 → u16_loop acc s ≡ value acc' s % 2 ^ 16
unfolding u16_loop value
u16_loop-value [] acc acc' h = h
u16_loop-value (c ∷ s) acc acc' h = ground (
  arith,
  u16_loop-value s ((acc * 10 + (c - b'0')) % 2 ^ 16) (acc' * 10 + (c - b'0')) (omega arith),
)

-- `str_to_u16` returns the number of the leading digits modulo 2^16.
pub str_to_u16-value : (s : List ℕ) → str_to_u16 s ≡ value 0 s % 2 ^ 16
unfolding str_to_u16
str_to_u16-value s = u16_loop-value s 0 0 refl

u8_loop-value : (s : List ℕ) (acc : ℕ) → acc ≤ 255 → u8_loop acc s ≡ min (value acc s) 255
unfolding u8_loop value
u8_loop-value [] acc h = omega arith
u8_loop-value (c ∷ s) acc h = elim (Bool-cases (is_digit c)) [
  | inr e ↦ rw (e, u8_loop, value) (omega arith)
  | inl e ↦
      let fits : (acc * 10 + (c - b'0')) % 2 ^ 32 ≡ acc * 10 + (c - b'0') = ground arith in
      rw (e, u8_loop, value, fits)
        (ground
          (arith, le-value (acc * 10 + (c - b'0')) s, u8_loop-value s (acc * 10 + (c - b'0'))))
]

-- `str_to_u8` returns the number behind the leading blanks, or 255 if that is larger.
pub str_to_u8-value : (s : List ℕ) → str_to_u8 (some s) ≡ min (value 0 (skip_blanks s)) 255
unfolding str_to_u8
str_to_u8-value s = rw (u8_loop-value (skip_blanks s) 0 (omega arith)) (omega arith)
