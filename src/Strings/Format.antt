-- ===== src/Strings/Format.antt =====
-- helper/string/string.c: the functions that print numbers. A memory is indexed from the pointer
-- `str` (or `out`, `buf`) on. Loops on a `uint64_t` run on fuel 20, as 2^64 < 10^20.
use windoge_os.Common.{
  ℕ, zero, suc, ◌+◌, ◌-◌, ◌/◌, ◌%◌, Bool, true, false, ltb, ◌==◌, if◌then◌else◌,
}
use windoge_os.Common.Int.{ℤ, pos, negsuc, pos_part, neg_part, sub_ℕ, ◌+ℤ◌}
use windoge_os.Common.Mem.{Mem, write}

-- `while (n > 0) { str[i++] = n % 10 + '0'; n /= 10; }`
unfoldable pub put_digits : ℕ → ℕ → ℕ → Mem → Mem × ℕ
put_digits zero n i m = (m, i)
put_digits (suc f) n i m =
    let rest : Mem × ℕ = put_digits f (n / 10) (suc i) (write m i (n % 10 + b'0')) in
    if n == 0 then (m, i) else rest

-- `while (start < end)` swap the two ends.
unfoldable pub swap_loop : ℕ → ℕ → ℕ → Mem → Mem
swap_loop zero start end m = m
swap_loop (suc f) start end m =
    let rest : Mem =
      swap_loop f (suc start) (end - 1) (write (write m start (m end)) end (m start)) in
    if ltb start end then rest else m

-- `while (i > 0) str[j++] = temp[--i];`
unfoldable pub copy_back : ℕ → ℕ → Mem → Mem → Mem
copy_back zero j temp m = m
copy_back (suc i) j temp m = copy_back i (suc j) temp (write m j (temp i))

unfoldable pub str_kutoa : ℕ → Mem → Mem
str_kutoa value m =
    if value == 0
    then write (write m 0 b'0') 1 0
    else let (m1, i) = put_digits 20 value 0 m in swap_loop i 0 (i - 1) (write m1 i 0)

unfoldable pub str_u64toa : ℕ → Mem → Mem
str_u64toa n m =
    if n == 0
    then write (write m 0 b'0') 1 0
    else let (m1, i) = put_digits 20 n 0 m in swap_loop i 0 (i - 1) (write m1 i 0)

-- `temp` is the local array, with whatever it holds at the start.
unfoldable pub str_ltoa : Mem → ℕ → Mem → Mem
str_ltoa temp num m =
    if num == 0
    then write (write m 0 b'0') 1 0
    else let (temp1, i) = put_digits 20 num 0 temp in write (copy_back i 0 temp1 m) i 0

-- The digits go to `buf[6]` first; fuel 5, as 2^16 < 10^5.
unfoldable pub u16_to_str : Mem → ℕ → Mem → Mem
u16_to_str buf value m =
    if value == 0
    then write (write m 0 b'0') 1 0
    else let (buf1, i) = put_digits 5 value 0 buf in write (copy_back i 0 buf1 m) i 0

-- C's `/ 10` and `% 10` on an `int` round towards zero.
unfoldable pub tdiv10 : ℤ → ℤ
tdiv10 (pos n) = pos (n / 10)
tdiv10 (negsuc k) = sub_ℕ 0 (suc k / 10)

unfoldable pub trem10 : ℤ → ℤ
trem10 (pos n) = pos (n % 10)
trem10 (negsuc k) = sub_ℕ 0 (suc k % 10)

unfoldable pub neg_ℤ : ℤ → ℤ
neg_ℤ z = sub_ℕ (neg_part z) (pos_part z)

abbrev pub is_zero : ℤ → Bool
is_zero (pos n) = n == 0
is_zero (negsuc k) = false

abbrev pub is_neg : ℤ → Bool
is_neg (pos n) = false
is_neg (negsuc k) = true

-- `str[i++] = (char)((is_negative ? -rem : rem) + '0'); n = n / 10;` Fuel 10 covers an `int`.
unfoldable pub put_int_digits : ℕ → Bool → ℤ → ℕ → Mem → Mem × ℕ
put_int_digits zero negative n i m = (m, i)
put_int_digits (suc f) negative n i m =
    let rem : ℤ = trem10 n in
    let digit : ℤ = (if negative then neg_ℤ rem else rem) +ℤ pos b'0' in
    let rest : Mem × ℕ =
      put_int_digits f negative (tdiv10 n) (suc i) (write m i (pos_part digit)) in
    if is_zero n then (m, i) else rest

-- The sign, the terminator and the reversal.
unfoldable pub itoa_finish : Bool → Mem → ℕ → Mem
itoa_finish negative m i =
    let m1 : Mem = if negative then write m i b'-' else m in
    let j : ℕ = if negative then suc i else i in swap_loop j 0 (j - 1) (write m1 j 0)

unfoldable pub str_itoa : ℤ → Mem → Mem
str_itoa n m =
    if is_zero n
    then write (write m 0 b'0') 1 0
    else let (m1, i) = put_int_digits 10 (is_neg n) n 0 m in itoa_finish (is_neg n) m1 i

abbrev pub hex_digit : ℕ → ℕ
hex_digit d = if ltb d 10 then d + b'0' else d - 10 + b'A'

-- `while (value > 0) { *(--p) = hex_digits[value & 0xF]; value >>= 4; }`: the pointer moves down.
unfoldable pub put_hex : ℕ → ℕ → ℕ → Mem → Mem × ℕ
put_hex zero value p m = (m, p)
put_hex (suc f) value p m =
    let rest : Mem × ℕ =
      put_hex f (value / 16) (p - 1) (write m (p - 1) (hex_digit (value % 16))) in
    if value == 0 then (m, p) else rest

-- The memory, and the pointer that is returned. Fuel 16 covers 64 bits.
unfoldable pub uint64_to_str : ℕ → Mem → Mem × ℕ
uint64_to_str value m =
    if value == 0
    then (write (write (write m 18 0) 17 b'0') 16 b'x', 16)
    else let (m1, p) = put_hex 16 value 18 (write m 18 0) in
      (write (write m1 (p - 1) b'x') (p - 2) b'0', p - 2)
