-- ===== src/Strings/Read.antt =====
-- helper/string/string.c: the functions that read texts. Past the last byte of a text a read
-- finds the terminator, 0. `char` is signed in the source; the tests here see no difference.
use windoge_os.Common.{
  ℕ, zero, suc, ◌+◌, ◌-◌, ◌*◌, ◌/◌, ◌%◌, ◌^◌, Bool, true, false, not, ◌&&◌, ◌||◌, Option, none,
  some, List, [], ◌∷◌, ltb, leb, ◌==◌, if◌then◌else◌,
}
use windoge_os.Common.Int.{ℤ, pos, negsuc, sub_ℕ}
use windoge_os.Common.Mem.{chr}

-- `while (str[counter] != '\0') counter++;`
unfoldable pub len_loop : List ℕ → ℕ
len_loop [] = 0
len_loop (c ∷ s) = let rest : ℕ = suc (len_loop s) in if c == 0 then 0 else rest

-- `none` is the null pointer.
unfoldable pub str_strlen : Option (List ℕ) → ℕ
unfolding len_loop
str_strlen none = 0
str_strlen (some s) = len_loop s

unfoldable pub str_strcmp : List ℕ → List ℕ → ℤ
str_strcmp [] t = sub_ℕ 0 (chr t)
str_strcmp (c ∷ s) [] = sub_ℕ c 0
str_strcmp (c ∷ s) (d ∷ t) = elim (not (c == 0) && (c == d)) [
  | true ↦ str_strcmp s t
  | false ↦ sub_ℕ c d
]

unfoldable pub str_strncmp : List ℕ → List ℕ → ℕ → ℤ
str_strncmp s t zero = pos 0
str_strncmp [] t (suc n) = sub_ℕ 0 (chr t)
str_strncmp (c ∷ s) [] (suc n) = sub_ℕ c 0
str_strncmp (c ∷ s) (d ∷ t) (suc n) = elim (not (c == 0) && (c == d)) [
  | true ↦ str_strncmp s t n
  | false ↦ sub_ℕ c d
]

-- 1 and 0 are the `int` results.
unfoldable pub str_startswith : List ℕ → List ℕ → ℕ
str_startswith s [] = 1
str_startswith [] (p ∷ ps) = if p == 0 then 1 else 0
str_startswith (c ∷ s) (p ∷ ps) = elim (p == 0) [
  | true ↦ 1
  | false ↦ elim (c == p) [ true ↦ str_startswith s ps | false ↦ 0 ]
]

abbrev pub is_digit : ℕ → Bool
is_digit c = leb b'0' c && leb c b'9'

abbrev pub int_max : ℕ
int_max = 2147483647

-- The digits of `str_atoi`: `none` is the early return on overflow.
unfoldable pub atoi_loop : ℕ → List ℕ → Option ℕ
atoi_loop res [] = some res
atoi_loop res (c ∷ s) =
    let rest : Option ℕ = atoi_loop (res * 10 + (c - b'0')) s in
    if is_digit c then (if ltb ((int_max - (c - b'0')) / 10) res then none else rest) else some res

-- `res * sign`, or the clamped value; the sign is true for -1.
unfoldable pub atoi_result : Bool → Option ℕ → ℤ
atoi_result negative (some res) = if negative then sub_ℕ 0 res else pos res
atoi_result negative none = if negative then negsuc int_max else pos int_max

unfoldable pub str_atoi : List ℕ → ℤ
str_atoi [] = atoi_result false (atoi_loop 0 [])
str_atoi (c ∷ s) =
    if c == b'-'
    then atoi_result true (atoi_loop 0 s)
    else if c == b'+'
    then atoi_result false (atoi_loop 0 s)
    else atoi_result false (atoi_loop 0 (c ∷ s))

-- `uint16_t result`
unfoldable pub u16_loop : ℕ → List ℕ → ℕ
u16_loop result [] = result
u16_loop result (c ∷ s) =
    let rest : ℕ = u16_loop ((result * 10 + (c - b'0')) % 2 ^ 16) s in
    if (c == 0) || not (is_digit c) then result else rest

unfoldable pub str_to_u16 : List ℕ → ℕ
unfolding u16_loop
str_to_u16 s = u16_loop 0 s

unfoldable pub skip_blanks : List ℕ → List ℕ
skip_blanks [] = []
skip_blanks (c ∷ s) =
    let rest : List ℕ = skip_blanks s in
    if (c == b' ') || (c == 9) || (c == 10) then rest else c ∷ s

unfoldable pub u8_loop : ℕ → List ℕ → ℕ
u8_loop res [] = res
u8_loop res (c ∷ s) =
    let next_res : ℕ = (res * 10 + (c - b'0')) % 2 ^ 32 in
    let rest : ℕ = u8_loop next_res s in
    if is_digit c then (if ltb 255 next_res then 255 else rest) else res

unfoldable pub str_to_u8 : Option (List ℕ) → ℕ
unfolding skip_blanks u8_loop
str_to_u8 none = 0
str_to_u8 (some s) = u8_loop 0 (skip_blanks s) % 2 ^ 8
