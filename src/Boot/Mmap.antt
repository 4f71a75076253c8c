-- ===== src/Boot/Mmap.antt =====
-- The loop over the memory map ends.
use unix_p.Prelude.{ℕ, zero, suc, ◌+◌, ◌^◌, ◌≤◌, ◌<◌, ◌≡◌, refl, ◌∙◌, true, false, arith, ltb, u32}
use native.Mathlib.Decide.{dec_lt}
use unix_p.Prelude.Memory.{Memory, load32}
use unix_p.Pmm.{ok}
use unix_p.Boot.{Boot, tag_size, mmap_entry, mmap_loop, mmap_tag}

-- A memory map of entries that are not empty, below 2 ^ 32, the entry behind it too.
abbrev pub IsMmap : Memory → ℕ → Type 0
IsMmap m tag =
    (0 < load32 m (tag + 8))
    × (tag + tag_size m tag + load32 m (tag + 8) < 2 ^ 32)
    × (tag + 16 ≤ tag + tag_size m tag)

mmap_loop_done :
    (fuel : ℕ) (m : Memory) (tag mmap : ℕ) (free : ℕ × ℕ)
    → tag + tag_size m tag < 2 ^ 32
    → tag + tag_size m tag ≤ mmap
    → mmap_loop (suc fuel) m tag mmap free ≡ ok free
unfolding mmap_loop
mmap_loop_done fuel m tag mmap free fits past =
    let end : u32 (tag + tag_size m tag) ≡ tag + tag_size m tag = omega arith in
    let test : ltb mmap (tag + tag_size m tag) ≡ false = ground arith in rw (end, test) refl

mmap_loop_more :
    (fuel : ℕ) (m : Memory) (tag mmap : ℕ) (free : ℕ × ℕ)
    → tag + tag_size m tag < 2 ^ 32
    → mmap + load32 m (tag + 8) < 2 ^ 32
    → mmap < tag + tag_size m tag
    → mmap_loop (suc fuel) m tag mmap free
      ≡ mmap_loop fuel m tag (mmap + load32 m (tag + 8)) (mmap_entry m mmap free)
unfolding mmap_loop
mmap_loop_more fuel m tag mmap free fits inside before =
    let end : u32 (tag + tag_size m tag) ≡ tag + tag_size m tag = omega arith in
    let next : u32 (mmap + load32 m (tag + 8)) ≡ mmap + load32 m (tag + 8) = omega arith in
    let test : ltb mmap (tag + tag_size m tag) ≡ true = ground arith in rw (end, test, next) refl

mmap_loop_ends :
    (fuel : ℕ) (m : Memory) (tag mmap : ℕ) (free : ℕ × ℕ)
    → 0 < load32 m (tag + 8)
    → tag + tag_size m tag + load32 m (tag + 8) < 2 ^ 32
    → 0 < fuel
    → tag + tag_size m tag < mmap + fuel
    → (free' : ℕ × ℕ) × (mmap_loop fuel m tag mmap free ≡ ok free')
mmap_loop_ends zero m tag mmap free step fits some_fuel enough = absurd (omega arith)
mmap_loop_ends (suc fuel) m tag mmap free step fits some_fuel enough =
    elim (dec_lt mmap (tag + tag_size m tag)) [
      | no past ↦ (free, mmap_loop_done fuel m tag mmap free (omega arith) (omega arith))
      | yes goes_on ↦
          let (free', rest) =
            mmap_loop_ends fuel m tag (mmap + load32 m (tag + 8)) (mmap_entry m mmap free) step fits
              (omega arith) (omega arith) in
          (free', mmap_loop_more fuel m tag mmap free (omega arith) (omega arith) goes_on ∙ rest)
    ]

-- The tag of a memory map changes nothing that outlives `sys_init`.
pub mmap_tag_lem :
    (rounds : ℕ) (m : Memory) (tag : ℕ) (b : Boot)
    → IsMmap m tag
    → tag_size m tag < rounds
    → mmap_tag rounds m tag b ≡ ok b
unfolding mmap_tag
mmap_tag_lem rounds m tag b (step, fits, long) enough =
    let start : u32 (tag + 16) ≡ tag + 16 = omega arith in
    let (free, ends) =
      mmap_loop_ends rounds m tag (tag + 16) (0, 0) step fits (omega arith) (omega arith) in
    rw (start, ends) refl
