-- ===== src/Pmm/Free.antt =====
-- `frame_free` of kernel/arch/pmm.c. The message of its last line is the result `false`.
pub mod Laws
pub mod Undo
use unix_p.Prelude.{
  ℕ, zero, suc, ◌+◌, ◌-◌, ◌*◌, ◌/◌, ◌%◌, ◌^◌, Bool, true, false, Option, none, some, ◌&&◌, ◌||◌,
  leb, ltb, ◌==◌, if◌then◌else◌, u32, sub_u32,
}
use unix_p.Prelude.Memory.{Memory, load32, store32}
use unix_p.Pmm.{BitmapList, Pmm, Outcome, ok, fault, out_of_fuel, block_size, bitmap_stack_size}
use unix_p.Pmm.Word.{clear_bits}

-- The address lies in the region, as the code tests it.
unfoldable pub is_inside : BitmapList → ℕ → Bool
is_inside e addrint =
    leb e.first_block addrint && leb addrint (u32 (e.first_block + e.blocks_count))

-- The body of the loop for the region that holds the address.
unfoldable pub free_in : BitmapList → (addrint count : ℕ) → Memory → Memory
unfolding clear_bits
free_in e addrint count m =
    let block = sub_u32 addrint e.first_block / block_size in
    let bitn = block % 31 in
    let bitmapn = (block - bitn) / 32 in
    let bitmap = e.first_bitmap + 4 * bitmapn in
    if ltb (32 - bitn) count
    then m
    else store32 m bitmap (clear_bits count (load32 m bitmap) (2 ^ bitn))

-- The walk along the regions; the result is whether one of them holds the address.
unfoldable pub free_walk : (addrint count fuel cur : ℕ) → Pmm → Outcome (Bool × Pmm)
unfolding is_inside free_in
free_walk addrint count zero cur s = out_of_fuel
free_walk addrint count (suc fuel) cur s =
    let e = s.bitmap_stack cur in
    if is_inside e addrint
    then ok (true, record s { memory = free_in e addrint count s.memory })
    else elim e.next [ none ↦ ok (false, s) | some n ↦ free_walk addrint count fuel n s ]

unfoldable pub frame_free : Pmm → (addr count : ℕ) → Outcome (Bool × Pmm)
unfolding free_walk
frame_free s addr count = if count == 0 || ltb 32 count then ok (true, s) else elim s.firstblock [
  | none ↦ fault
  | some first ↦ free_walk addr count (bitmap_stack_size + 1) first s
]
