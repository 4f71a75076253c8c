-- ===== src/Pmm/Alloc.antt =====
-- `frame_alloc` of kernel/arch/pmm.c.
pub mod Words
pub mod Walk
pub mod Misaligned
use unix_p.Prelude.{
  ℕ, zero, suc, ◌+◌, ◌-◌, ◌*◌, ◌/◌, ◌^◌, Bool, true, false, Option, none, some, ◌&&◌, ◌||◌, not,
  ltb, ◌==◌, if◌then◌else◌, u32,
}
use unix_p.Prelude.Memory.{Memory, load32, store32}
use unix_p.Pmm.{
  BitmapList, Pmm, Outcome, ok, fault, out_of_fuel, set_entry, block_size, uint32_bits,
  bitmap_stack_size,
}
use unix_p.Pmm.Word.{Scan, find_run, set_bits}

-- `&(curblock->first_bitmap)[i]`
abbrev pub bitmap_addr : ℕ → ℕ → ℕ
bitmap_addr first_bitmap i = first_bitmap + 4 * i

-- `curblock->first_block + calc_pageaddr(i, bit)`
abbrev pub frame_addr : ℕ → ℕ → ℕ → ℕ
frame_addr first_block i bit = u32 (first_block + (i * uint32_bits + bit) * block_size)

-- `curblock->blocks_count / UINT32BITS + 1`
abbrev pub repeatcount : BitmapList → ℕ
repeatcount e = e.blocks_count / uint32_bits + 1

-- `curblock->search_next_startblock = i`, if the word shows the first clear bit of the search.
abbrev pub move_hint : BitmapList → ℕ → Bool → BitmapList
move_hint e i moves = if moves then record e { search_next_startblock = i } else e

-- The loop over the words of a region, with `left` rounds left: the address found, the region
-- and the memory. `unset` is `isnotset_snsb`.
unfoldable pub alloc_words :
    (count align_up left i : ℕ) → Bool → BitmapList → Memory → Option ℕ × BitmapList × Memory
unfolding set_bits
alloc_words count align_up zero i unset e m = (none, e, m)
alloc_words count align_up (suc left) i unset e m =
    let word = load32 m (bitmap_addr e.first_bitmap i) in
    let scan = find_run word count align_up in
    let e' = move_hint e i (unset && scan.seen) in
    let full = alloc_words count align_up left (i + 1) unset e m in
    let missed = alloc_words count align_up left (i + 1) (unset && not scan.seen) e' m in
    if word == 0xffffffff then full else elim scan.found [
      | none ↦ missed
      | some (j, firstj) ↦ (
        some (frame_addr e.first_block i firstj),
        e',
        store32 m (bitmap_addr e.first_bitmap i) (set_bits count word (2 ^ j)),
      )
    ]

-- The walk along the regions.
unfoldable pub alloc_walk : (count align_up fuel cur : ℕ) → Pmm → Outcome (Option ℕ × Pmm)
unfolding alloc_words
alloc_walk count align_up zero cur s = out_of_fuel
alloc_walk count align_up (suc fuel) cur s =
    let e = s.bitmap_stack cur in
    let start = e.search_next_startblock in
    let (r, e', m') = alloc_words count align_up (repeatcount e - start) start true e s.memory in
    let s' = record s { bitmap_stack = set_entry s.bitmap_stack cur e'; memory = m' } in
    elim r [
      | some a ↦ ok (some a, s')
      | none ↦ elim e'.next [ none ↦ ok (none, s') | some n ↦ alloc_walk count align_up fuel n s' ]
    ]

-- The whole function. NULL is `none`; the regions are at most `BITMAP_STACK_SIZE` many.
unfoldable pub frame_alloc : Pmm → (count align_up : ℕ) → Outcome (Option ℕ × Pmm)
unfolding alloc_walk
frame_alloc s count align_up =
    if count == 0 || ltb 32 count then ok (none, s) else elim s.firstblock [
      | none ↦ fault
      | some first ↦
          alloc_walk count (if align_up == 0 then 1 else align_up) (bitmap_stack_size + 1) first s
    ]
