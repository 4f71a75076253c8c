-- ===== src/Pmm/Free/Laws.antt =====
-- What `frame_free` does to the frames of the first region.
use unix_p.Prelude.{
  ℕ, ◌+◌, ◌-◌, ◌*◌, ◌/◌, ◌%◌, ◌^◌, ◌≤◌, ◌<◌, ◌≡◌, ◌⊎◌, true, false, none, some, ◌||◌, arith, ltb,
  ◌==◌, if◌then◌else◌, sub_u32,
}
use unix_p.Prelude.Bits.{bit_at}
use unix_p.Prelude.Memory.{
  Memory, read, load32, load32-lt, store32, read-store32_ne, load32-store32_self,
}
use unix_p.Pmm.{BitmapList, Pmm, ok, block_size}
use unix_p.Pmm.Word.{clear_bits}
use unix_p.Pmm.Word.Bits.{in_run, bit_at-clear_bits, clear_bits-lt}
use unix_p.Pmm.Free.{is_inside, free_in, frame_free}

-- In the word at address `w` the bits `b` to `b + count - 1` are cleared, and all else is kept.
pub record IsFreed (w b count : ℕ) (m m' : Memory) : Type 0 where
  pub freed :
      (k : ℕ)
      → k < 32
      → bit_at (load32 m' w) k ≡ (if in_run b count k then 0 else bit_at (load32 m w) k)
  pub elsewhere : (x : ℕ) → (x < w) ⊎ (w + 4 ≤ x) → read m' x ≡ read m x

IsFreed-store :
    (w b count : ℕ) (m : Memory)
    → b + count ≤ 32
    → IsFreed w b count m (store32 m w (clear_bits count (load32 m w) (2 ^ b)))
IsFreed-store w b count m fits = record {
  freed = λ k small. rw (
    load32-store32_self m w _ (clear_bits-lt count (load32 m w) (2 ^ b) (load32-lt m w)),
    bit_at-clear_bits count b (load32 m w) k fits small,
  );
  elsewhere = λ x out. read-store32_ne m w _ x out;
}

-- `frame_free` takes frame `f` for bit `f % 31` of this word.
abbrev word_freed : BitmapList → (f b : ℕ) → ℕ
word_freed e f b = e.first_bitmap + 4 * ((f - b) / 32)

free_in-IsFreed :
    (e : BitmapList) (f b w count : ℕ) (m : Memory)
    → e.first_block + f * block_size < 2 ^ 32
    → f % 31 ≡ b
    → word_freed e f b ≡ w
    → b + count ≤ 32
    → IsFreed w b count m (free_in e (e.first_block + f * block_size) count m)
unfolding free_in
free_in-IsFreed e f b w count m in_space bit word fits =
    let block : sub_u32 (e.first_block + f * block_size) e.first_block / block_size ≡ f =
      omega arith in
    let room : ltb (32 - b) count ≡ false = ground arith in
    rw (block, bit, word, room) (IsFreed-store w b count m fits)

module _ (s : Pmm) (first f count : ℕ) (starts : s.firstblock ≡ some first) (pos : 0 < count) where
  -- The code goes on to the bits if the offset in bytes is at most the number of frames.
  frame_free-IsFreed :
      (b w : ℕ)
      → let e = s.bitmap_stack first in
        f % 31 ≡ b
        → word_freed e f b ≡ w
        → b + count ≤ 32
        → e.first_block + f * block_size < 2 ^ 32
        → e.first_block + e.blocks_count < 2 ^ 32
        → f * block_size ≤ e.blocks_count
        → (s' : Pmm) × (frame_free s (e.first_block + f * block_size) count ≡ ok (true, s'))
          × IsFreed w b count s.memory s'.memory
  unfolding frame_free
  frame_free-IsFreed b w bit word fits in_space in_space' within =
      let e = s.bitmap_stack first in
      let addr = e.first_block + f * block_size in
      let counted : (count == 0 || ltb 32 count) ≡ false = ground arith in
      let inside : is_inside e addr ≡ true = unfold is_inside in ground arith in
      (
        record s { memory = free_in e addr count s.memory },
        simp (counted, starts, inside),
        free_in-IsFreed e f b w count s.memory in_space bit word fits,
      )

  -- `frame_free` of frames whose first is one of the first 31 of the region, given by its address,
  -- where the offset of that address in bytes is at most the number of frames of the region: those
  -- bits of the first word of the bitmap are cleared, its other bits and all other bytes are kept.
  pub frame_free-exact :
      f < 31
      → f + count ≤ 32
      → let e = s.bitmap_stack first in
        e.first_block + f * block_size < 2 ^ 32
        → e.first_block + e.blocks_count < 2 ^ 32
        → f * block_size ≤ e.blocks_count
        → (s' : Pmm) × (frame_free s (e.first_block + f * block_size) count ≡ ok (true, s'))
          × IsFreed e.first_bitmap f count s.memory s'.memory
  frame_free-exact low fits in_space in_space' within =
      frame_free-IsFreed f _ (omega arith) (omega arith) fits in_space in_space' within

  -- `frame_free` of one frame or more whose first is frame `f`, 31 to 61, of the first region, where
  -- `f` - 31 plus the count is at most 32, the addresses are below 4 GB, and the offset in bytes of
  -- frame `f` is at most the region's number of frames, so that the code's test of the region passes,
  -- clears the bits of the frames from `f` - 31 on instead, and keeps all else.
  pub frame_free_wrong_frame :
      31 ≤ f
      → f < 62
      → f - 31 + count ≤ 32
      → let e = s.bitmap_stack first in
        e.first_block + f * block_size < 2 ^ 32
        → e.first_block + e.blocks_count < 2 ^ 32
        → f * block_size ≤ e.blocks_count
        → (s' : Pmm) × (frame_free s (e.first_block + f * block_size) count ≡ ok (true, s'))
          × IsFreed e.first_bitmap (f - 31) count s.memory s'.memory
  frame_free_wrong_frame low high fits in_space in_space' within =
      frame_free-IsFreed (f - 31) _ (omega arith) (omega arith) fits in_space in_space' within

  -- With one region, `frame_free` of a frame whose offset in bytes is above the number of frames
  -- of the region frees nothing and reports that it cannot.
  frame_free_refused :
      count ≤ 32
      → let e = s.bitmap_stack first in
        e.next ≡ none
        → e.first_block + f * block_size < 2 ^ 32
        → e.blocks_count < f * block_size
        → frame_free s (e.first_block + f * block_size) count ≡ ok (false, s)
  unfolding frame_free
  frame_free_refused small alone in_space beyond =
      let e = s.bitmap_stack first in
      let addr = e.first_block + f * block_size in
      let counted : (count == 0 || ltb 32 count) ≡ false = ground arith in
      let outside : is_inside e addr ≡ false = unfold is_inside in ground arith in
      simp (counted, starts, outside, alone)
