-- ===== src/Pmm/Word.antt =====
-- The inner loops of `frame_alloc` and `frame_free` in kernel/arch/pmm.c, which work on one word
-- of a bitmap: the search for a run of clear bits, and the writes.
pub mod Bits
pub mod Run
use unix_p.Prelude.{
  ℕ, zero, suc, ◌+◌, ◌-◌, ◌*◌, ◌%◌, ◌^◌, Bool, true, false, Option, none, some, ◌&&◌, not, ltb,
  ◌==◌, if◌then◌else◌, u32, bit_and, bit_or,
}
use unix_p.Prelude.Bits.{complement}
use unix_p.Pmm.{uint32_bits}

-- `bit <<= 1`
abbrev pub next_bit : ℕ → ℕ
next_bit bit = u32 (bit * 2)

-- What the loop over the bits of a word leaves: where it found a run (`j` after it is moved back,
-- and `firstj`), and whether it met a clear bit.
pub record Scan : Type 0 where
  pub found : Option (ℕ × ℕ)
  pub seen : Bool

-- `for (j = 0; j < UINT32BITS; j++)`, with `left` rounds left. A misaligned `j` is passed over by
-- `continue`, which leaves `bit` as it is.
unfoldable pub scan_word : (word count align_up left j bit streak firstj : ℕ) → Bool → Scan
scan_word word count align_up zero j bit streak firstj seen = record { found = none; seen = seen }
scan_word word count align_up (suc left) j bit streak firstj seen =
    let skipped = scan_word word count align_up left (j + 1) bit streak firstj seen in
    let firstj' = if streak == 0 then j else firstj in
    let streak' = streak + 1 in
    let longer = scan_word word count align_up left (j + 1) (next_bit bit) streak' firstj' true in
    let broken = scan_word word count align_up left (j + 1) (next_bit bit) 0 firstj seen in
    if streak == 0 && ltb (uint32_bits - j) count
    then record { found = none; seen = seen }
    else if streak == 0 && not (j % align_up == 0)
    then skipped
    else if bit_and word bit == 0
    then (if streak' == count
        then record { found = some (j - (streak' - 1), firstj'); seen = true }
        else longer)
    else broken

-- The search of a whole word, as `frame_alloc` calls it.
abbrev pub find_run : ℕ → ℕ → ℕ → Scan
find_run word count align_up = scan_word word count align_up 32 0 1 0 0 false

-- `set_bit(*bitmap, bit); next_bit(bit);`, `k` times.
unfoldable pub set_bits : ℕ → ℕ → ℕ → ℕ
set_bits zero word bit = word
set_bits (suc k) word bit = set_bits k (bit_or word bit) (next_bit bit)

-- `clear_bit(*bitmap, bit); next_bit(bit);`, `k` times.
unfoldable pub clear_bits : ℕ → ℕ → ℕ → ℕ
clear_bits zero word bit = word
clear_bits (suc k) word bit = clear_bits k (bit_and word (complement 32 bit)) (next_bit bit)
