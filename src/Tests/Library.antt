-- ===== src/Tests/Library.antt =====
-- helper/string, helper/math: the theorems at concrete memories and texts.
use windoge_os.Common.{
  ℕ, suc, ◌+◌, ◌*◌, ◌^◌, ◌<◌, ◌≤◌, ◌≡◌, refl, ◌↔◌, ◌⊎◌, inr, arith, List, [], ◌∷◌, ◌++◌, take,
  length,
}
use windoge_os.Common.Int.{pos, negsuc}
use windoge_os.Common.Mem.{Mem, Holds}
use windoge_os.Math.{math_square_root, math_root, root_loop, root_next, power_loop}
use windoge_os.Math.Root.{math_square_root_above}
use windoge_os.Memory.{memcpy, memmove, memcmp}
use windoge_os.Memory.Copy.{memmove_lem, memcpy-eq-memmove}
use windoge_os.Memory.Compare.{FirstDiff, memcmp_lem}
use windoge_os.Strings.Read.{str_strcmp, str_strncmp, str_startswith, str_atoi, str_to_u16}
use windoge_os.Strings.Compare.{comparisons_iff}
use windoge_os.Strings.Parse.{value, clamp_int, minus_sign, unsigned_part, str_atoi-value}
use windoge_os.Strings.Format.{str_kutoa, str_u64toa, str_ltoa, u16_to_str, str_itoa, uint64_to_str}
use windoge_os.Strings.Print.{Printed}
use windoge_os.Strings.Decimal.{decimals-Printed, str_to_u16-u16_to_str}
use windoge_os.Strings.Itoa.{PrintedInt, str_itoa-PrintedInt, str_atoi-str_itoa}

-- A memory whose bytes are their addresses.
abbrev ramp : Mem
ramp q = q

-- "-42"
abbrev minus_42 : List ℕ
minus_42 = b'-' ∷ b'4' ∷ b'2' ∷ []

-- "abc" and "abd"
abbrev abc : List ℕ
abc = b'a' ∷ b'b' ∷ b'c' ∷ []

abbrev abd : List ℕ
abd = b'a' ∷ b'b' ∷ b'd' ∷ []

math_square_root_above_example : 99 < suc (math_square_root 99) * suc (math_square_root 99)
math_square_root_above_example = math_square_root_above 99 (omega arith)

-- After 25 rounds the guess for a large argument has not come down to the root 2^31.
square_root_stops_early : math_square_root (2 ^ 62) ≡ 68741844900
unfolding math_square_root math_root root_loop root_next power_loop
square_root_stops_early = refl

memmove_lem_example :
    ((j : ℕ) → j < 4 → memmove ramp 12 10 4 (12 + j) ≡ 10 + j)
    × ((q : ℕ) → (q < 12) ⊎ (12 + 4 ≤ q) → memmove ramp 12 10 4 q ≡ q)
memmove_lem_example = memmove_lem ramp 12 10 4

memcpy-eq-memmove_example : memcpy ramp 20 10 4 21 ≡ memmove ramp 20 10 4 21
memcpy-eq-memmove_example = memcpy-eq-memmove ramp 20 10 4 (inr (omega arith)) 21

memcmp_lem_example :
    (memcmp ramp 3 4 2 ≡ pos 0) × ((j : ℕ) → 0 ≤ j → j < 0 + 2 → 3 + j ≡ 4 + j)
    ⊎ FirstDiff ramp 3 4 0 2 (memcmp ramp 3 4 2)
memcmp_lem_example = memcmp_lem ramp 3 4 2

comparisons_iff_example :
    ((str_strcmp abc abd ≡ pos 0) ↔ (abc ≡ abd))
    × ((str_strncmp abc abd 2 ≡ pos 0) ↔ (take 2 abc ≡ take 2 abd))
    × ((str_startswith abc abd ≡ 1) ↔ ((rest : List ℕ) × (abc ≡ abd ++ rest)))
comparisons_iff_example = comparisons_iff abc abd 2 (omega arith) (omega arith)

str_atoi-value_example :
    str_atoi minus_42 ≡ clamp_int (minus_sign minus_42) (value 0 (unsigned_part minus_42))
str_atoi-value_example = str_atoi-value minus_42

decimals-Printed_example :
    Printed ramp (str_kutoa 1234 ramp) 1234 20
    × Printed ramp (str_u64toa 1234 ramp) 1234 20
    × Printed ramp (str_ltoa ramp 1234 ramp) 1234 20
decimals-Printed_example = decimals-Printed ramp 1234 ramp (omega arith)

str_to_u16-u16_to_str_example :
    (s : List ℕ) × Holds (u16_to_str ramp 65535 ramp) 0 s × (str_to_u16 s ≡ 65535) × (length s ≤ 5)
str_to_u16-u16_to_str_example = str_to_u16-u16_to_str ramp 65535 ramp (omega arith)

str_itoa-PrintedInt_example : PrintedInt ramp (str_itoa (negsuc 41) ramp) (negsuc 41)
str_itoa-PrintedInt_example = str_itoa-PrintedInt (negsuc 41) ramp (omega arith)

str_atoi-str_itoa_example :
    (s : List ℕ) × Holds (str_itoa (negsuc 41) ramp) 0 s × (str_atoi s ≡ negsuc 41)
str_atoi-str_itoa_example = str_atoi-str_itoa (negsuc 41) ramp (omega arith)

-- Zero is printed with its prefix turned round, as the text "x0".
hex_zero : let (m, p) = uint64_to_str 0 ramp in (m p ≡ b'x') × (m (p + 1) ≡ b'0') × (m (p + 2) ≡ 0)
unfolding uint64_to_str
hex_zero = (refl, refl, refl)
