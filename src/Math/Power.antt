-- ===== src/Math/Power.antt =====
-- helper/math/basic.c: `math_power` against the power of the natural numbers.
use windoge_os.Common.{ℕ, zero, suc, ◌*◌, ◌%◌, ◌^◌, ◌≡◌, ◌<◌, ap, ◌∙◌, arith}
use windoge_os.Common.Int.{pos}
use windoge_os.Math.{u64, power_loop, math_power}
use native.Mathlib.Nat.{pow-suc, pow-zero, div-add-mod}

-- A factor may be reduced before it is multiplied.
mod_mul : (a b : ℕ) → a % u64 * b % u64 ≡ a * b % u64
mod_mul a b = omega (arith, ap (λ (t : ℕ). t * b) (div-add-mod a u64))

shuffle : (base n acc : ℕ) → acc * base * base ^ n ≡ acc * base ^ suc n
shuffle base n acc = rw pow-suc (omega arith)

power_loop-lt : (base n acc : ℕ) → acc < u64 → power_loop base n acc < u64
unfolding power_loop
power_loop-lt base zero acc h = h
power_loop-lt base (suc n) acc h = power_loop-lt base n (acc * base % u64) (omega arith)

power_loop-eq : (base n acc : ℕ) → power_loop base n acc % u64 ≡ acc * base ^ n % u64
unfolding power_loop
power_loop-eq base zero acc = rw pow-zero (omega arith)
power_loop-eq base (suc n) acc =
    power_loop-eq base n (acc * base % u64)
    ∙ mod_mul (acc * base) (base ^ n)
    ∙ ap (λ t. t % u64) (shuffle base n acc)

-- For an exponent that is not negative `math_power` is the power, reduced modulo 2^64.
pub math_power-mod : (base e : ℕ) → math_power base (pos e) ≡ base ^ e % u64
unfolding math_power
math_power-mod base zero = rw pow-zero
math_power-mod base (suc e) =
    ground (arith, power_loop-eq base (suc e) 1, power_loop-lt base (suc e) 1 (omega arith))
