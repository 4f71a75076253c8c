-- ===== src/Pmm/Sizes.antt =====
-- `align_up`, `calcsize` and `calc_blocks_and_bitmaps` of kernel/arch/pmm.c.
use unix_p.Prelude.{
  ℕ, zero, suc, ◌+◌, ◌-◌, ◌*◌, ◌/◌, ◌%◌, ◌^◌, ◌≤◌, ◌<◌, ◌≡◌, Option, none, some, arith, inl, inr,
  leb, ◌==◌, if◌then◌else◌, u32, sub_u32, Bool-cases,
}
use native.Mathlib.Nat.{div-add-mod', div-eq_of_lt-le, mod-lt}
use unix_p.Pmm.{block_size, uint32_bits}

-- `align <= 0` is `align == 0` on an unsigned number.
unfoldable pub align_up : ℕ → ℕ → ℕ
align_up address align =
    if align == 0
    then address
    else let remainder = address % align in
      if remainder == 0 then address else sub_u32 (u32 (address + align)) remainder

abbrev pub calcsize : ℕ → ℕ → ℕ
calcsize blocks bitmaps = u32 (u32 (blocks * block_size) + u32 (bitmaps * 4))

-- The loop, on fuel; `none` means that the fuel ran out.
unfoldable pub calc_loop : ℕ → ℕ → ℕ → ℕ → Option (ℕ × ℕ)
calc_loop zero size blocks bitmaps = none
calc_loop (suc fuel) size blocks bitmaps =
    let blocks' = sub_u32 blocks 1 in
    let again = calc_loop fuel size blocks' (u32 (blocks' / uint32_bits + 1)) in
    if leb (calcsize blocks bitmaps) size then some (blocks, bitmaps) else again

-- A round takes one frame away, modulo 2 ^ 32, so after 2 ^ 32 rounds each number has been tried.
unfoldable pub calc_blocks_and_bitmaps : ℕ → Option (ℕ × ℕ)
unfolding calc_loop
calc_blocks_and_bitmaps size =
    let blocks = size / block_size in
    calc_loop (2 ^ 32) size blocks (u32 (blocks / uint32_bits + 1))

-- Between two multiples the quotient of `n` by `k` is known.
quotient : (q k n : ℕ) → q * k ≤ n → n < q * k + k → n / k ≡ q
quotient q k n lo hi = div-eq_of_lt-le k (omega arith) (omega arith)

-- Rounding up to a multiple of `align`: the ceiling of the quotient, times `align`.
pub align_up_lem :
    (address align : ℕ)
    → 0 < align
    → address + align < 2 ^ 32
    → align_up address align ≡ (address + align - 1) / align * align
unfolding align_up
align_up_lem address align pos fits =
    let split : address / align * align + address % align ≡ address = div-add-mod' address align in
    let small : address % align < align = mod-lt address pos in
    elim (Bool-cases (address % align == 0)) [
      | inl whole ↦
          let none_left : address % align ≡ 0 = ground arith in
          rw (quotient (address / align) align (address + align - 1) (omega arith) (omega arith))
            (ground arith)
      | inr part ↦
          let some_left : 0 < address % align = ground arith in
          rw
            (quotient (address / align + 1) align (address + align - 1) (omega arith) (omega arith))
            (ground arith)
    ]

-- `c` frames and the words of their bitmap lie in `size` bytes.
abbrev pub Fits : ℕ → ℕ → Type 0
Fits size c = c * block_size + (c / uint32_bits + 1) * 4 ≤ size

-- The loop returned the largest number of frames that fits, with the length of their bitmap.
abbrev pub IsLargest : ℕ → Option (ℕ × ℕ) → Type 0
IsLargest size r =
    (blocks : ℕ) × (r ≡ some (blocks, blocks / uint32_bits + 1))
    × Fits size blocks
    × ((c : ℕ) → Fits size c → c ≤ blocks)

calc_loop-IsLargest :
    (fuel size blocks : ℕ)
    → 4 ≤ size
    → size + 2 ^ 17 < 2 ^ 32
    → blocks < fuel
    → blocks ≤ size / block_size
    → ((c : ℕ) → Fits size c → c ≤ blocks)
    → IsLargest size (calc_loop fuel size blocks (u32 (blocks / uint32_bits + 1)))
unfolding calc_loop
calc_loop-IsLargest zero size blocks low high enough below most = absurd (omega arith)
calc_loop-IsLargest (suc fuel) size blocks low high enough below most =
    elim (Bool-cases (leb (calcsize blocks (u32 (blocks / uint32_bits + 1))) size)) [
      | inl stop ↦ rw stop (blocks, ground arith, ground arith, most)
      | inr more ↦
          let full : size < blocks * block_size + (blocks / uint32_bits + 1) * 4 = ground arith in
          let fewer : sub_u32 blocks 1 ≡ blocks - 1 = omega arith in
          rw more (
            rw fewer (
              calc_loop-IsLargest fuel size (blocks - 1) low high (omega arith) (omega arith)
                (fewer_fit full)))
    ]
  where
    fewer_fit :
        size < blocks * block_size + (blocks / uint32_bits + 1) * 4
        → (c : ℕ) → Fits size c
        → c ≤ blocks - 1
    fewer_fit full c fits = grind (arith, most c fits)

pub calc_blocks_and_bitmaps-IsLargest :
    (size : ℕ) → 4 ≤ size → size + 2 ^ 17 < 2 ^ 32 → IsLargest size (calc_blocks_and_bitmaps size)
unfolding calc_blocks_and_bitmaps
calc_blocks_and_bitmaps-IsLargest size low high =
    calc_loop-IsLargest (2 ^ 32) size (size / block_size) low high (omega arith) (omega arith)
      (λ c fits. omega arith)
