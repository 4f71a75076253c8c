-- ===== src/Prelude/Bits/Step.antt =====
-- One equation for the lowest digit of the native `bit_or` and `bit_and`, whose meaning is a
-- recursion on binary digits with fuel.
use Prim.Native.Nat.{min, max, digits, bitwise, bit_and-bitwise, bit_or-bitwise}
use Prim.Native.Nat.{ℕ, zero, suc, ◌+◌, ◌*◌, ◌/◌, ◌%◌, ◌≤◌, ◌<◌, bit_and, bit_or}
use mathlib.Core.Path.{◌≡◌, refl}
use native.Mathlib.Omega.{arith}

module _ (tail : ℕ → ℕ) (digit : ℕ → ℕ → ℕ) where
  any_two_fuels :
      (a b fuel more : ℕ)
      → a ≤ more
      → a ≤ fuel
      → digits tail digit fuel a b ≡ digits tail digit more a b
  any_two_fuels (suc a) b (suc fuel) (suc more) in_more in_fuel =
      rw (any_two_fuels (suc a / 2) (b / 2) fuel more (omega arith) (omega arith))
  any_two_fuels (suc a) b zero more in_more in_fuel = absurd (omega arith)
  any_two_fuels (suc a) b (suc fuel) zero in_more in_fuel = absurd (omega arith)
  any_two_fuels zero b (suc fuel) (suc more) in_more in_fuel = refl
  any_two_fuels zero b (suc fuel) zero in_more in_fuel = refl
  any_two_fuels zero b zero (suc more) in_more in_fuel = refl
  any_two_fuels zero b zero zero in_more in_fuel = refl

  lowest_digit :
      (a b : ℕ)
      → bitwise tail digit (suc a) b
        ≡ digit (suc a % 2) (b % 2) + 2 * bitwise tail digit (suc a / 2) (b / 2)
  lowest_digit a b =
      let half = suc a / 2 in
      omega (arith, any_two_fuels half (b / 2) a half (omega arith) (omega arith))

pub bit_and_step : (a b : ℕ) → bit_and a b ≡ min (a % 2) (b % 2) + 2 * bit_and (a / 2) (b / 2)
bit_and_step (suc a) b = simp bit_and-bitwise (lowest_digit (λ _. 0) min a b)
bit_and_step zero b = simp bit_and-bitwise (omega arith)

vanishes : (bound a : ℕ) → a < bound → bit_and a 0 ≡ 0
vanishes zero a below = absurd (omega arith)
vanishes (suc bound) zero below = refl
vanishes (suc bound) (suc a) below =
    let half = vanishes bound (suc a / 2) (omega arith) in omega (arith, bit_and_step (suc a) 0)

pub bit_and-zero : (a : ℕ) → bit_and a 0 ≡ 0
bit_and-zero a = vanishes (suc a) a (omega arith)

pub bit_or_step : (a b : ℕ) → bit_or a b ≡ max (a % 2) (b % 2) + 2 * bit_or (a / 2) (b / 2)
bit_or_step (suc a) b = simp bit_or-bitwise (lowest_digit (λ rest. rest) max a b)
bit_or_step zero b = simp bit_or-bitwise (omega arith)
