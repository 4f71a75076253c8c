-- ===== src/Prelude/Bits.antt =====
-- The bits of a word, and what `&`, `|` and `~` do to each of them.
mod Step
use Step.{bit_or_step, bit_and_step, bit_and-zero}
use Prim.Native.Nat.{min, max, bit_and-bitwise}
use native.Mathlib.Nat.{pow-suc, one-le-pow}
use mathlib.Core.Bool.{Bool, true, false}
use mathlib.Core.Path.{◌≡◌, refl, ap, ◌∙◌}
use mathlib.Core.Logic.{◌≢◌}
use native.Mathlib.Omega.{arith}
use Prim.Native.Nat.{ℕ, zero, suc, ◌+◌, ◌-◌, ◌*◌, ◌/◌, ◌%◌, ◌^◌, ◌≤◌, ◌<◌, bit_and, bit_or}
use unix_p.Prelude.Tests.{◌==◌, if◌then◌else◌}

-- Bit `k` of `w`, 0 or 1.
unfoldable pub bit_at : ℕ → ℕ → ℕ
bit_at w zero = w % 2
bit_at w (suc k) = bit_at (w / 2) k

pub bit_at-le : (w k : ℕ) → bit_at w k ≤ 1
unfolding bit_at
bit_at-le w zero = omega arith
bit_at-le w (suc k) = bit_at-le (w / 2) k

pub bit_at-bit_or : (a b k : ℕ) → bit_at (bit_or a b) k ≡ max (bit_at a k) (bit_at b k)
unfolding bit_at
bit_at-bit_or a b zero = omega (arith, bit_or_step a b)
bit_at-bit_or a b (suc k) =
    let halves : bit_or a b / 2 ≡ bit_or (a / 2) (b / 2) = omega (arith, bit_or_step a b) in
    rw halves (bit_at-bit_or (a / 2) (b / 2) k)

pub bit_at-bit_and : (a b k : ℕ) → bit_at (bit_and a b) k ≡ min (bit_at a k) (bit_at b k)
unfolding bit_at
bit_at-bit_and a b zero = omega (arith, bit_and_step a b)
bit_at-bit_and a b (suc k) =
    let halves : bit_and a b / 2 ≡ bit_and (a / 2) (b / 2) = omega (arith, bit_and_step a b) in
    rw halves (bit_at-bit_and (a / 2) (b / 2) k)

pub bit_at-zero : (k : ℕ) → bit_at 0 k ≡ 0
unfolding bit_at
bit_at-zero zero = refl
bit_at-zero (suc k) = bit_at-zero k

two-pow_half : (j : ℕ) → 2 ^ suc j / 2 ≡ 2 ^ j
two-pow_half j = omega (arith, pow-suc 2 j)

pub bit_at-two-pow : (j k : ℕ) → bit_at (2 ^ j) k ≡ (if j == k then 1 else 0)
unfolding bit_at
bit_at-two-pow zero zero = refl
bit_at-two-pow zero (suc k) = bit_at-zero k ∙ ground arith
bit_at-two-pow (suc j) zero = grind (arith, pow-suc 2 j)
bit_at-two-pow (suc j) (suc k) = rw two-pow_half (bit_at-two-pow j k ∙ ground arith)

-- `~a` in `n` bits.
abbrev pub complement : ℕ → ℕ → ℕ
complement n a = 2 ^ n - 1 - a

pub bit_at-complement : (n a k : ℕ) → a < 2 ^ n → k < n → bit_at (complement n a) k ≡ 1 - bit_at a k
unfolding bit_at
bit_at-complement zero a k ha hk = absurd (omega arith)
bit_at-complement (suc n) a zero ha hk = omega (arith, pow-suc 2 n, one-le-pow n 2)
bit_at-complement (suc n) a (suc k) ha hk =
    let halves : complement (suc n) a / 2 ≡ complement n (a / 2) =
      omega (arith, pow-suc 2 n, one-le-pow n 2) in
    rw halves (bit_at-complement n (a / 2) k (omega (arith, pow-suc 2 n)) (omega arith))

-- A word is determined by its bits.
pub eq_of_bits : (n a b : ℕ) → a < 2 ^ n → b < 2 ^ n → ((k : ℕ) → bit_at a k ≡ bit_at b k) → a ≡ b
unfolding bit_at
eq_of_bits zero a b ha hb h = omega arith
eq_of_bits (suc n) a b ha hb h = omega (
  arith,
  pow-suc 2 n,
  h 0,
  eq_of_bits n (a / 2) (b / 2) (omega (arith, pow-suc 2 n)) (omega (arith, pow-suc 2 n))
      (λ k. h (suc k)),
)

-- `val & bit` is 0 exactly if the bit is.
pub bit_and-two-pow : (a j : ℕ) → bit_and a (2 ^ j) ≡ bit_at a j * 2 ^ j
unfolding bit_at
bit_and-two-pow a zero = omega (arith, bit_and_step a 1, bit_and-zero (a / 2))
bit_and-two-pow a (suc j) = rw bit_and_step (
    rw two-pow_half (
      omega (
        arith,
        pow-suc 2 j,
        bit_and-two-pow (a / 2) j,
        ap (λ (t : ℕ). bit_at (a / 2) j * t) (pow-suc 2 j),
      )))

pub bit_or-lt : (n a b : ℕ) → a < 2 ^ n → b < 2 ^ n → bit_or a b < 2 ^ n
bit_or-lt zero a b ha hb =
    let a0 : a ≡ 0 = omega arith in let b0 : b ≡ 0 = omega arith in rw (a0, b0) (omega arith)
bit_or-lt (suc n) a b ha hb = omega (
  arith,
  pow-suc 2 n,
  bit_or_step a b,
  bit_or-lt n (a / 2) (b / 2) (omega (arith, pow-suc 2 n)) (omega (arith, pow-suc 2 n)),
)

pub bit_and-lt : (n a b : ℕ) → a < 2 ^ n → bit_and a b < 2 ^ n
bit_and-lt zero zero b ha = omega (arith, bit_and-bitwise 0 b)
bit_and-lt zero (suc a) b ha = absurd (omega arith)
bit_and-lt (suc n) a b ha = omega (
  arith,
  pow-suc 2 n,
  bit_and_step a b,
  bit_and-lt n (a / 2) (b / 2) (omega (arith, pow-suc 2 n)),
)

-- `(val & bit) != 0` is the test of a bit.
pub bit_and-two-pow_eq : (a j : ℕ) → (bit_and a (2 ^ j) == 0) ≡ (bit_at a j == 0)
bit_and-two-pow_eq a j = rw bit_and-two-pow (grind (arith, bit_at-le a j, one-le-pow j 2))
