-- ===== src/Irq/Mask.antt =====
-- The mask of a line, set and cleared.
use unix_p.Prelude.{ℕ, ◌%◌, ◌^◌, ◌<◌, ◌≡◌, refl, arith, ◌==◌, if◌then◌else◌, u8, bit_and, bit_or}
use native.Mathlib.Nat.{pow-le-pow_right}
use unix_p.Prelude.Bits.{
  bit_at, bit_at-le, bit_at-bit_or, bit_at-bit_and, bit_at-two-pow, bit_at-complement, complement,
  bit_or-lt, bit_and-lt,
}
use unix_p.Irq.{mask_port, mask_line, irq_setmask, irq_clearmask}

two-pow_small : (l : ℕ) → l < 8 → 2 ^ l < 2 ^ 8
two-pow_small l below =
    let bound = pow-le-pow_right {n = 2} (omega arith) {i = l} {j = 7} (omega arith) in omega arith

u8_small : (w : ℕ) → w < 2 ^ 8 → u8 w ≡ w
u8_small w small = omega arith

-- For one of the sixteen lines `irq_setmask` writes to the line's controller the mask that it read,
-- with the line's bit set.
pub irq_setmask_lem :
    (inb : ℕ → ℕ) (line k : ℕ)
    → line < 16
    → ((irq_setmask inb line).0 ≡ mask_port line)
      × (bit_at ((irq_setmask inb line).1) k
          ≡ (if k == line % 8 then 1 else bit_at (u8 (inb (mask_port line))) k))
unfolding irq_setmask
irq_setmask_lem inb line k below =
    let old = u8 (inb (mask_port line)) in
    let at : mask_line line ≡ line % 8 = ground arith in
    let bit = two-pow_small (line % 8) (omega arith) in
    let byte =
      u8_small (bit_or old (2 ^ (line % 8))) (bit_or-lt 8 old (2 ^ (line % 8)) (omega arith) bit) in
    (
      refl,
      rw (at, byte, bit_at-bit_or old (2 ^ (line % 8)) k, bit_at-two-pow (line % 8) k)
          (let one = bit_at-le old k in ground arith),
    )

-- For one of the sixteen lines `irq_clearmask` writes to the line's controller the mask that it read,
-- with the line's bit clear.
pub irq_clearmask_lem :
    (inb : ℕ → ℕ) (line k : ℕ)
    → line < 16
    → k < 8
    → ((irq_clearmask inb line).0 ≡ mask_port line)
      × (bit_at ((irq_clearmask inb line).1) k
          ≡ (if k == line % 8 then 0 else bit_at (u8 (inb (mask_port line))) k))
unfolding irq_clearmask
irq_clearmask_lem inb line k below inside =
    let old = u8 (inb (mask_port line)) in
    let rest = complement 32 (2 ^ (line % 8)) in
    let at : mask_line line ≡ line % 8 = ground arith in
    let bit = two-pow_small (line % 8) (omega arith) in
    let byte = u8_small (bit_and old rest) (bit_and-lt 8 old rest (omega arith)) in
    (
      refl,
      rw
          (
            at,
            byte,
            bit_at-bit_and old rest k,
            bit_at-complement 32 (2 ^ (line % 8)) k (omega arith) (omega arith),
            bit_at-two-pow (line % 8) k,
          )
          (let one = bit_at-le old k in ground arith),
    )
