-- ===== src/Math.antt =====
-- helper/math/basic.c and helper/math/dataconvert.c: powers, roots and unit conversions on
-- `uint64_t`, whose arithmetic wraps at 2^64. `fpu_init` is machine code and has no model.
pub mod Power
pub mod Root
pub mod Units
use windoge_os.Common.{
  ℕ, zero, suc, ◌+◌, ◌-◌, ◌*◌, ◌/◌, ◌%◌, ◌^◌, ltb, leb, ◌==◌, ◌||◌, if◌then◌else◌,
}
use windoge_os.Common.Int.{ℤ, pos, negsuc}

abbrev pub u64 : ℕ
u64 = 2 ^ 64

-- `for (int i = 0; i < exponent; i++) result *= base;` by the rounds left
unfoldable pub power_loop : ℕ → ℕ → ℕ → ℕ
power_loop base zero result = result
power_loop base (suc n) result = power_loop base n (result * base % u64)

unfoldable pub math_power : ℕ → ℤ → ℕ
unfolding power_loop
math_power base (negsuc e) = 0
math_power base (pos e) = if e == 0 then 1 else power_loop base e 1

unfoldable pub math_square_power : ℕ → ℕ
math_square_power base = base * base % u64

-- One round of Newton's method: the next guess, for `root` at least 1.
unfoldable pub root_next : ℕ → ℕ → ℕ → ℕ
unfolding math_power
root_next base root guess =
    let power : ℕ = math_power guess (pos (root - 1)) in
    let denominator : ℕ = if power == 0 then 1 else power in
    (((root - 1) * guess % u64 + base / denominator) % u64) / root

-- The loop by the rounds left, with its exit when the guess stands still.
unfoldable pub root_loop : ℕ → ℕ → ℕ → ℕ → ℕ
unfolding root_next
root_loop zero base root guess = guess
root_loop (suc n) base root guess =
    let new : ℕ = root_next base root guess in
    let rest : ℕ = root_loop n base root new in
    let diff : ℕ = if ltb guess new then new - guess else guess - new in
    if diff == 0 then new else rest

unfoldable pub math_root : ℕ → ℤ → ℕ
math_root base (negsuc r) = if base == 0 then 0 else if base == 1 then base else 0
math_root base (pos r) =
    if base == 0
    then 0
    else if (base == 1) || (r == 1)
    then base
    else if leb r 0
    then 0
    else root_loop 25 base r (if ltb (base / r) 1 then 1 else base / r)

unfoldable pub math_square_root : ℕ → ℕ
unfolding math_root
math_square_root base = math_root base (pos 2)

unfoldable pub math_bytes_to_kilo : ℕ → ℕ
math_bytes_to_kilo bytes = bytes / 1024

unfoldable pub math_bytes_to_mega : ℕ → ℕ
math_bytes_to_mega bytes = bytes / 1024 / 1024

unfoldable pub math_kilo_to_mega : ℕ → ℕ
math_kilo_to_mega kilo = kilo / 1024

unfoldable pub math_mega_to_bytes : ℕ → ℕ
math_mega_to_bytes mega = mega * 1024 % u64 * 1024 % u64

unfoldable pub math_mega_to_kilo : ℕ → ℕ
math_mega_to_kilo mega = mega * 1024 % u64

unfoldable pub math_kilo_to_bytes : ℕ → ℕ
math_kilo_to_bytes kilo = kilo * 1024 % u64
