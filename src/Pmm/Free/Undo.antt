-- ===== src/Pmm/Free/Undo.antt =====
-- `frame_free` of what `frame_alloc` has returned.
use unix_p.Prelude.{
  ℕ, zero, suc, ◌+◌, ◌*◌, ◌/◌, ◌^◌, ◌≤◌, ◌<◌, ◌≡◌, sym, ap, subst, ◌∙◌, ◌⊎◌, inl, inr, true, none,
  some, [], ◌∷◌, arith, if◌then◌else◌,
}
use native.Mathlib.Decide.{dec_lt, dec_le}
use native.Mathlib.Nat.{pow-suc}
use unix_p.Prelude.Bits.{bit_at, bit_at-zero, eq_of_bits}
use unix_p.Prelude.Memory.{Memory, read, read-lt, load32, load32-lt}
use unix_p.Pmm.{BitmapList, Pmm, ok, block_size}
use unix_p.Pmm.Word.Bits.{in_run}
use unix_p.Pmm.Word.Run.{IsClear}
use unix_p.Pmm.Alloc.{frame_alloc, repeatcount, frame_addr, bitmap_addr}
use unix_p.Pmm.Alloc.Walk.{last, IsTakenFrom, IsAllocated, Kept, frame_alloc-IsAllocated}
use unix_p.Pmm.Free.{frame_free}
use unix_p.Pmm.Free.Laws.{IsFreed, frame_free-exact}

bit_at_high : (n a k : ℕ) → a < 2 ^ n → n ≤ k → bit_at a k ≡ 0
unfolding bit_at
bit_at_high zero a k small high = let nothing : a ≡ 0 = omega arith in rw nothing (bit_at-zero k)
bit_at_high (suc n) a zero small high = absurd (omega arith)
bit_at_high (suc n) a (suc k) small high =
    bit_at_high n (a / 2) k (omega (arith, pow-suc 2 n)) (omega arith)

-- Words that are equal have equal bytes.
bytes_of_word :
    (m m' : Memory) (w : ℕ)
    → load32 m' w ≡ load32 m w
    → (x : ℕ) → w ≤ x
    → x < w + 4
    → read m' x ≡ read m x
unfolding load32
bytes_of_word m m' w same x lo hi =
    let (e0, e1, e2, e3) : (read m' w ≡ read m w)
        × (read m' (w + 1) ≡ read m (w + 1))
        × (read m' (w + 2) ≡ read m (w + 2))
        × (read m' (w + 3) ≡ read m (w + 3)) =
      omega (
        arith,
        same,
        read-lt m w,
        read-lt m' w,
        read-lt m (w + 1),
        read-lt m' (w + 1),
        read-lt m (w + 2),
        read-lt m' (w + 2),
        read-lt m (w + 3),
        read-lt m' (w + 3),
      ) in
    ground (arith, e0, e1, e2, e3)

-- Bits that were clear, are set and then cleared.
word_undone :
    (m m1 m2 : Memory) (w b count : ℕ)
    → IsClear (load32 m w) b count
    → ((k : ℕ) → bit_at (load32 m1 w) k ≡ (if in_run b count k then 1 else bit_at (load32 m w) k))
    → IsFreed w b count m1 m2
    → load32 m2 w ≡ load32 m w
word_undone m m1 m2 w b count clear taken freed =
    eq_of_bits 32 (load32 m2 w) (load32 m w) (load32-lt m2 w) (load32-lt m w) (λ k.
      elim (dec_lt k 32) [
        | yes low ↦ ground (arith, freed.freed k low, taken k, clear k)
        | no high ↦
            bit_at_high 32 (load32 m2 w) k (load32-lt m2 w) (omega arith)
            ∙ sym (bit_at_high 32 (load32 m w) k (load32-lt m w) (omega arith))
      ])

bytes_undone :
    (m m1 m2 : Memory) (w b count : ℕ)
    → IsClear (load32 m w) b count
    → ((k : ℕ) → bit_at (load32 m1 w) k ≡ (if in_run b count k then 1 else bit_at (load32 m w) k))
    → ((x : ℕ) → (x < w) ⊎ (w + 4 ≤ x) → read m1 x ≡ read m x)
    → IsFreed w b count m1 m2
    → (x : ℕ) → read m2 x ≡ read m x
bytes_undone m m1 m2 w b count clear taken kept freed x = elim (dec_lt x w) [
  | yes below ↦ freed.elsewhere x (inl below) ∙ kept x (inl below)
  | no from ↦ elim (dec_le (w + 4) x) [
    | yes behind ↦ freed.elsewhere x (inr behind) ∙ kept x (inr behind)
    | no inside ↦
        bytes_of_word m m2 w (word_undone m m1 m2 w b count clear taken freed) x (omega arith)
          (omega arith)
  ]
]

IsAllocated-here :
    (s s1 : Pmm) (count first a : ℕ)
    → IsAllocated s count (first ∷ []) (ok (some a, s1))
    → IsTakenFrom s count a s1.memory (s.bitmap_stack first) × Kept s count s1
IsAllocated-here s s1 count first a (inl taken, kept) = (taken, kept)
IsAllocated-here s s1 count first a (inr (_, nowhere), kept) = absurd nowhere

-- A frame among the first 31 is in the first word.
in_first_word :
    (e : BitmapList) (i b a : ℕ)
    → i < repeatcount e
    → b < 32
    → a ≡ frame_addr e.first_block i b
    → e.first_block + (e.blocks_count + 32) * block_size < 2 ^ 32
    → a < e.first_block + 31 * block_size
    → (i ≡ 0) × (b < 31) × (a ≡ e.first_block + b * block_size)
in_first_word e i b a inside bit address space low =
    let whole : frame_addr e.first_block i b ≡ e.first_block + (i * 32 + b) * 4096 = omega arith in
    (omega arith, omega arith, omega arith)

-- With one region, of which the addresses and those of 32 more frames are below 4 GB, `frame_free` of
-- what `frame_alloc` of 1 to 32 frames at `align_up` 0 or 1 has returned, an address in one of the
-- first 31 frames whose offset in bytes is at most the number of frames, makes every byte of the memory
-- what it was.
pub frame_free-frame_alloc :
    (s s1 : Pmm) (count align_up first a : ℕ)
    → 0 < count
    → count ≤ 32
    → align_up ≤ 1
    → s.firstblock ≡ some first
    → (s.bitmap_stack first).next ≡ none
    → (s.bitmap_stack first).first_block + ((s.bitmap_stack first).blocks_count + 32) * block_size
      < 2 ^ 32
    → frame_alloc s count align_up ≡ ok (some a, s1)
    → a < (s.bitmap_stack first).first_block + 31 * block_size
    → a ≤ (s.bitmap_stack first).first_block + (s.bitmap_stack first).blocks_count
    → (s2 : Pmm) × (frame_free s1 a count ≡ ok (true, s2))
      × ((x : ℕ) → read s2.memory x ≡ read s.memory x)
frame_free-frame_alloc s s1 count align_up first a wanted small unaligned starts alone space
      returned low tested =
    let e = s.bitmap_stack first in
    let (t, kept) = IsAllocated-here s s1 count first a (
      subst (λ o. IsAllocated s count (first ∷ []) o) returned
        (frame_alloc-IsAllocated s count align_up first (first ∷ []) wanted small unaligned starts
          (last alone) (omega arith))) in
    let (word, bit, address) =
      in_first_word e t.i t.b a t.to (omega (arith, t.one_word)) t.address space low in
    let (_, bitmap, blocks, block) = kept.regions first in
    let at : (s1.bitmap_stack first).first_block + t.b * block_size ≡ a = omega arith in
    let (s2, frees, freed) =
      frame_free-exact s1 first t.b count (kept.first ∙ starts) wanted bit t.one_word (omega arith)
        (omega arith) (omega arith) in
    let here : bitmap_addr e.first_bitmap t.i ≡ e.first_bitmap = omega arith in
    let freed_here : IsFreed e.first_bitmap t.b count s1.memory s2.memory =
      subst (λ (w : ℕ). IsFreed w t.b count s1.memory s2.memory) bitmap freed in
    let taken : (k : ℕ)
        → bit_at (load32 s1.memory e.first_bitmap) k
          ≡ (if in_run t.b count k then 1 else bit_at (load32 s.memory e.first_bitmap) k) =
      λ k.
        subst
          (λ (w : ℕ).
            bit_at (load32 s1.memory w) k
            ≡ (if in_run t.b count k then 1 else bit_at (load32 s.memory w) k))
          here (t.taken k) in
    (
      s2,
      ap (λ (p : ℕ). frame_free s1 p count) (sym at) ∙ frees,
      bytes_undone s.memory s1.memory s2.memory e.first_bitmap t.b count
          (subst (λ (w : ℕ). IsClear (load32 s.memory w) t.b count) here t.free) taken
          (λ x out. t.elsewhere x (ground (arith, here))) freed_here,
    )
