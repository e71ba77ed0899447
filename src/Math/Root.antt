-- ===== src/Math/Root.antt =====
-- helper/math/basic.c: what `math_square_root` guarantees whatever the number of rounds.
use windoge_os.Common.{
  ℕ, zero, suc, ◌+◌, ◌-◌, ◌*◌, ◌/◌, ◌%◌, ◌≤◌, ◌<◌, ◌≡◌, arith, ltb, ◌==◌, if◌then◌else◌, Bool-cases,
  false, inl, inr,
}
use native.Mathlib.Decide.{dec_le}
use windoge_os.Math.{u64, root_next, root_loop, math_square_root}
use native.Mathlib.Nat.{div-add-mod}

-- 4 * g * c is at most the square of the sum.
am_gm : (g c : ℕ) → 4 * (g * c) ≤ (g + c) * (g + c)
am_gm g c = elim (dec_le g c) [
  | yes h ↦ ordered g c (c - g) (omega arith)
  | no h ↦ omega (arith, ordered c g (g - c) (omega arith))
]
  where
    ordered : (a b k : ℕ) → b ≡ a + k → 4 * (a * b) ≤ (a + b) * (a + b)
    ordered a b k e = rw e (omega arith)

square_mono : (a b : ℕ) → a ≤ b → a * a ≤ b * b
square_mono a b h = grind arith

-- A round of Newton's method never falls below the root.
newton_above : (b g q n : ℕ) → b < g * suc q → g + q < 2 * suc n → b < suc n * suc n
newton_above b g q n h k =
    omega (arith, am_gm g (suc q), square_mono (g + suc q) (2 * suc n) (omega arith))

quotient_above : (b g : ℕ) → 0 < g → b < g * suc (b / g)
quotient_above b g h = omega (arith, div-add-mod b g)

quotient_below : (b g : ℕ) → g * (b / g) ≤ b
quotient_below b g = omega (arith, div-add-mod b g)

-- What every guess for the square root of `b` satisfies.
record IsGuess (b g : ℕ) : Type 0 where
  positive : 0 < g
  half : 2 * g ≤ b + 1
  above : b < suc g * suc g

sum_small : (b g q : ℕ) → b < u64 → IsGuess b g → g * q ≤ b → g + q < u64
sum_small b zero q hb v h = absurd (omega (arith, v.positive))
sum_small b (suc zero) q hb v h = omega (arith, v.above)
sum_small b (suc (suc g)) zero hb v h = omega (arith, v.half)
sum_small b (suc (suc g)) (suc zero) hb v h = omega (arith, v.half)
sum_small b (suc (suc g)) (suc (suc q)) hb v h = omega arith

sum_half : (b g q : ℕ) → 0 < g → g ≤ b → g * q ≤ b → g + q ≤ b + 1
sum_half b zero q p l h = absurd (omega arith)
sum_half b (suc g) zero p l h = omega arith
sum_half b (suc g) (suc q) p l h = omega arith

quotient_pos : (b g q : ℕ) → g ≤ b → b < g * suc q → 0 < q
quotient_pos b g zero l h = absurd (omega arith)
quotient_pos b g (suc q) l h = omega arith

root_next-two : (b g : ℕ) → 0 < g → g < u64 → g + b / g < u64 → root_next b 2 g ≡ (g + b / g) / 2
unfolding root_next
root_next-two b g h small sum = let e : 1 * g % u64 ≡ g = omega arith in rw e (ground arith)

root_next-IsGuess : (b g : ℕ) → 2 ≤ b → b < u64 → IsGuess b g → IsGuess b (root_next b 2 g)
root_next-IsGuess b g hb small v = rw eq (record {
  positive = omega (arith, v.positive, pos);
  half = omega (arith, sum_half b g (b / g) v.positive le (quotient_below b g));
  above = newton_above b g (b / g) ((g + b / g) / 2) (quotient_above b g v.positive) (omega arith);
})
  where
    le : g ≤ b
    le = omega (arith, v.half)

    sum : g + b / g < u64
    sum = sum_small b g (b / g) small v (quotient_below b g)

    pos : 0 < b / g
    pos = quotient_pos b g (b / g) le (quotient_above b g v.positive)

    eq : root_next b 2 g ≡ (g + b / g) / 2
    eq = root_next-two b g v.positive (omega (arith, sum)) sum

root_loop-IsGuess : (n b g : ℕ) → 2 ≤ b → b < u64 → IsGuess b g → IsGuess b (root_loop n b 2 g)
unfolding root_loop
root_loop-IsGuess zero b g hb small v = v
root_loop-IsGuess (suc n) b g hb small v =
    let v' : IsGuess b (root_next b 2 g) = root_next-IsGuess b g hb small v in
    elim (Bool-cases (test == 0)) [
      | inl e ↦ rw (e, root_loop) v'
      | inr e ↦ rw (e, root_loop) (root_loop-IsGuess n b (root_next b 2 g) hb small v')
    ]
  where
    test : ℕ
    test = if ltb g (root_next b 2 g) then root_next b 2 g - g else g - root_next b 2 g

start-IsGuess : (b : ℕ) → 2 ≤ b → IsGuess b (if ltb (b / 2) 1 then 1 else b / 2)
start-IsGuess b h =
    let e : ltb (b / 2) 1 ≡ false = ground arith in
    rw e (record {
      positive = omega arith;
      half = omega arith;
      above = omega (arith, square_mono 1 (b / 2) (omega arith));
    })

math_square_root-loop :
    (b : ℕ)
    → math_square_root (suc (suc b))
      ≡ root_loop 25 (suc (suc b)) 2 (if ltb (suc (suc b) / 2) 1 then 1 else suc (suc b) / 2)
unfolding math_square_root
math_square_root-loop b = ground arith

-- The integer square root never falls short: the square of its successor exceeds the argument.
-- This holds for every `uint64_t`, after however many of the rounds the loop has made.
pub math_square_root_above :
    (base : ℕ) → base < u64 → base < suc (math_square_root base) * suc (math_square_root base)
math_square_root_above zero h = unfold math_square_root in omega arith
math_square_root_above (suc zero) h = unfold math_square_root in omega arith
math_square_root_above (suc (suc b)) h =
    rw (math_square_root-loop b)
      (root_loop-IsGuess 25 (suc (suc b)) _ (omega arith) h
        (start-IsGuess (suc (suc b)) (omega arith))).above
