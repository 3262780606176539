-- ===== src/Prelude/Bits.antt =====
-- The masks that the driver's C code applies, as arithmetic: `x & 1`, `x & 7`, `x & 0xF`.
use Prim.Native.Nat.{ℕ, zero, suc, ◌/◌, ◌%◌, ◌≤◌, min, bit_and, digits, bit_and-bitwise}
use mathlib.Core.Path.{◌≡◌, refl, ◌∙◌}
use native.Mathlib.Omega.{arith}

-- The digit-wise minimum that `bit_and` stands for, on `fuel` digits.
abbrev masked : ℕ → ℕ → ℕ → ℕ
masked fuel x mask = digits (λ rest. zero) min fuel x mask

masked_zero : (fuel x : ℕ) → x ≤ fuel → masked fuel x 0 ≡ 0
masked_zero zero x fits = ground arith
masked_zero (suc fuel) zero fits = refl
masked_zero (suc fuel) (suc x) fits = omega (arith, masked_zero fuel (suc x / 2) (omega arith))

masked_one : (fuel x : ℕ) → x ≤ fuel → masked fuel x 1 ≡ x % 2
masked_one zero x fits = ground arith
masked_one (suc fuel) zero fits = refl
masked_one (suc fuel) (suc x) fits = omega (arith, masked_zero fuel (suc x / 2) (omega arith))

masked_three : (fuel x : ℕ) → x ≤ fuel → masked fuel x 3 ≡ x % 4
masked_three zero x fits = ground arith
masked_three (suc fuel) zero fits = refl
masked_three (suc fuel) (suc x) fits = omega (arith, masked_one fuel (suc x / 2) (omega arith))

masked_seven : (fuel x : ℕ) → x ≤ fuel → masked fuel x 7 ≡ x % 8
masked_seven zero x fits = ground arith
masked_seven (suc fuel) zero fits = refl
masked_seven (suc fuel) (suc x) fits = omega (arith, masked_three fuel (suc x / 2) (omega arith))

masked_fifteen : (fuel x : ℕ) → x ≤ fuel → masked fuel x 15 ≡ x % 16
masked_fifteen zero x fits = ground arith
masked_fifteen (suc fuel) zero fits = refl
masked_fifteen (suc fuel) (suc x) fits = omega (arith, masked_seven fuel (suc x / 2) (omega arith))

pub bit_and-one : (x : ℕ) → bit_and x 1 ≡ x % 2
bit_and-one x = bit_and-bitwise x 1 ∙ masked_one x x (omega arith)

pub bit_and_seven : (x : ℕ) → bit_and x 7 ≡ x % 8
bit_and_seven x = bit_and-bitwise x 7 ∙ masked_seven x x (omega arith)

pub bit_and_fifteen : (x : ℕ) → bit_and x 15 ≡ x % 16
bit_and_fifteen x = bit_and-bitwise x 15 ∙ masked_fifteen x x (omega arith)
