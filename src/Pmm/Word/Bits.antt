-- ===== src/Pmm/Word/Bits.antt =====
-- What `set_bits` and `clear_bits` do to each bit of a word.
use native.Mathlib.Nat.{pow-suc, pow-le-pow_right}
use native.Mathlib.Numerals.{add-one}
use unix_p.Prelude.{
  ℕ, zero, suc, ◌+◌, ◌^◌, ◌≤◌, ◌<◌, ◌≡◌, ap, Bool, ◌&&◌, arith, ltb, leb, ◌==◌, if◌then◌else◌,
  bit_and, bit_or,
}
use unix_p.Prelude.Bits.{
  bit_at, bit_at-le, bit_at-bit_or, bit_at-bit_and, bit_at-two-pow, bit_at-complement, complement,
  bit_or-lt, bit_and-lt,
}
use unix_p.Pmm.Word.{next_bit, set_bits, clear_bits}

-- Bit `k` lies in the run of `n` bits from bit `j`.
abbrev pub in_run : ℕ → ℕ → ℕ → Bool
in_run j n k = leb j k && ltb k (j + n)

two-pow-lt : (j : ℕ) → j < 32 → 2 ^ j < 2 ^ 32
two-pow-lt j h = omega (arith, pow-suc 2 j, pow-le-pow_right {n = 2} (omega arith) h)

pub next_bit-two-pow : (j : ℕ) → j + 1 < 32 → next_bit (2 ^ j) ≡ 2 ^ (j + 1)
next_bit-two-pow j h =
    omega (arith, two-pow-lt (suc j) (omega arith), pow-suc 2 j, ap (λ (t : ℕ). 2 ^ t) (add-one j))

bit_at-set_bit :
    (j word k : ℕ) → bit_at (bit_or word (2 ^ j)) k ≡ (if j == k then 1 else bit_at word k)
bit_at-set_bit j word k =
    ground (arith, bit_at-bit_or word (2 ^ j) k, bit_at-two-pow j k, bit_at-le word k)

-- Setting `n` bits from bit `j` sets those and leaves the others.
pub bit_at-set_bits :
    (n j word k : ℕ)
    → j + n ≤ 32
    → bit_at (set_bits n word (2 ^ j)) k ≡ (if in_run j n k then 1 else bit_at word k)
unfolding set_bits
bit_at-set_bits zero j word k fits = ground arith
bit_at-set_bits (suc zero) j word k fits = ground (arith, bit_at-set_bit j word k)
bit_at-set_bits (suc (suc n)) j word k fits = rw (next_bit-two-pow j (omega arith)) (
    ground (
      arith,
      bit_at-set_bits (suc n) (j + 1) (bit_or word (2 ^ j)) k (omega arith),
      bit_at-set_bit j word k,
    ))

bit_at-clear_bit :
    (j word k : ℕ)
    → j < 32
    → k < 32
    → bit_at (bit_and word (complement 32 (2 ^ j))) k ≡ (if j == k then 0 else bit_at word k)
bit_at-clear_bit j word k hj hk = ground (
  arith,
  bit_at-bit_and word (complement 32 (2 ^ j)) k,
  bit_at-complement 32 (2 ^ j) k (two-pow-lt j hj) hk,
  bit_at-two-pow j k,
  bit_at-le word k,
)

-- Clearing `n` bits from bit `j` clears those and leaves the others.
pub bit_at-clear_bits :
    (n j word k : ℕ)
    → j + n ≤ 32
    → k < 32
    → bit_at (clear_bits n word (2 ^ j)) k ≡ (if in_run j n k then 0 else bit_at word k)
unfolding clear_bits
bit_at-clear_bits zero j word k fits hk = ground arith
bit_at-clear_bits (suc zero) j word k fits hk =
    ground (arith, bit_at-clear_bit j word k (omega arith) hk)
bit_at-clear_bits (suc (suc n)) j word k fits hk = rw (next_bit-two-pow j (omega arith)) (
    ground (
      arith,
      bit_at-clear_bits (suc n) (j + 1) (bit_and word (complement 32 (2 ^ j))) k (omega arith) hk,
      bit_at-clear_bit j word k (omega arith) hk,
    ))

-- A word stays a word of 32 bits.
pub set_bits-lt : (n j word : ℕ) → j + n ≤ 32 → word < 2 ^ 32 → set_bits n word (2 ^ j) < 2 ^ 32
unfolding set_bits
set_bits-lt zero j word fits small = small
set_bits-lt (suc zero) j word fits small =
    bit_or-lt 32 word (2 ^ j) small (two-pow-lt j (omega arith))
set_bits-lt (suc (suc n)) j word fits small = rw (next_bit-two-pow j (omega arith)) (
    set_bits-lt (suc n) (j + 1) (bit_or word (2 ^ j)) (omega arith)
      (bit_or-lt 32 word (2 ^ j) small (two-pow-lt j (omega arith))))

pub clear_bits-lt : (n word bit : ℕ) → word < 2 ^ 32 → clear_bits n word bit < 2 ^ 32
unfolding clear_bits
clear_bits-lt zero word bit small = small
clear_bits-lt (suc n) word bit small =
    clear_bits-lt n (bit_and word (complement 32 bit)) (next_bit bit)
      (bit_and-lt 32 word (complement 32 bit) small)
