-- ===== src/Tar/Size.antt =====
-- The size in a header is the number that its octal digits stand for.
use unix_p.Prelude.{
  ℕ, zero, suc, ◌+◌, ◌-◌, ◌*◌, ◌/◌, ◌^◌, ◌≤◌, ◌<◌, true, ◌≡◌, ap, ◌∙◌, arith, ltb, u32,
}
use unix_p.Prelude.Memory.{Memory, read}
use unix_p.Tar.{digit_term, tar_get_size_loop, tar_get_size}

-- The number that the first `n` octal digits at `input` stand for.
abbrev pub octal : Memory → (input n : ℕ) → ℕ
octal m input zero = 0
octal m input (suc n) = octal m input n * 8 + (read m (input + n) - 48)

-- The first `n` bytes are octal digits.
abbrev pub IsOctal : Memory → (input n : ℕ) → Type 0
IsOctal m input n = (k : ℕ) → k < n → (48 ≤ read m (input + k)) × (read m (input + k) < 56)

split_product : (v c : ℕ) → v * c ≡ v * u32 c + 2 ^ 32 * (v * (c / 2 ^ 32))
split_product v c =
    let parts : c ≡ u32 c + 2 ^ 32 * (c / 2 ^ 32) = omega arith in
    ap (λ (t : ℕ). v * t) parts ∙ grind arith

u32-mul : (a v c : ℕ) → u32 (a + v * u32 c) ≡ u32 (a + v * c)
u32-mul a v c = let parts = split_product v c in omega arith

digit_term_lem :
    (byte count : ℕ) → 48 ≤ byte → byte < 56 → digit_term byte count ≡ u32 ((byte - 48) * count)
digit_term_lem byte count lo hi =
    let small : ltb byte 128 ≡ true = ground arith in
    let over : byte + 2 ^ 32 - 48 ≡ byte - 48 + 2 ^ 32 = omega arith in
    let spread : (byte - 48 + 2 ^ 32) * count ≡ (byte - 48) * count + 2 ^ 32 * count =
      grind arith in
    rw (small, over, spread) (omega arith)

add_digit :
    (size d v count : ℕ)
    → u32 (u32 (size + u32 (d * count)) + v * u32 (count * 8)) ≡ u32 (size + (v * 8 + d) * count)
add_digit size d v count =
    let eight = u32-mul (u32 (size + u32 (d * count))) v (count * 8) in
    let spread : (v * 8 + d) * count ≡ v * (count * 8) + d * count = grind arith in
    eight ∙ omega arith

tar_get_size_loop-octal :
    (j input size count : ℕ) (m : Memory)
    → IsOctal m input j
    → size < 2 ^ 32
    → tar_get_size_loop j input size count m ≡ u32 (size + octal m input j * count)
unfolding tar_get_size_loop
tar_get_size_loop-octal zero input size count m digits small = omega arith
tar_get_size_loop-octal (suc j) input size count m digits small =
    let (lo, hi) = digits j (omega arith) in
    let term = digit_term_lem (read m (input + j)) count lo hi in
    rw term (
      tar_get_size_loop-octal j input (u32 (size + u32 ((read m (input + j) - 48) * count)))
        (u32 (count * 8)) m (λ k below. digits k (omega arith)) (omega arith)
      ∙ add_digit size (read m (input + j) - 48) (octal m input j) count)

-- `tar_get_size` of eleven octal digits is the number that they stand for, modulo 2 ^ 32.
pub tar_get_size-octal :
    (m : Memory) (input : ℕ) → IsOctal m input 11 → tar_get_size m input ≡ u32 (octal m input 11)
unfolding tar_get_size
tar_get_size-octal m input digits =
    tar_get_size_loop-octal 11 input 0 1 m digits (omega arith) ∙ omega arith
