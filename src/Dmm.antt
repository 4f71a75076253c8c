-- ===== src/Dmm.antt =====
-- The dynamic memory manager, kernel/arch/dmm.c: headers of blocks in memory, linked by `next`.
--
-- `data` is an array of pointers, so `data + n` is `n` words, not `n` bytes, behind it. A null pointer
-- is 0. The test of `size` against `m_dyn_available` has an empty body, and is left out.
pub mod Header
pub mod Layout
pub mod Alloc
pub mod Fresh
pub mod Calls
pub mod Aligned
pub mod Merge
pub mod Merged
pub mod Chain
pub mod Runs
pub mod Walk
pub mod Free
pub mod Release
pub mod Search
pub mod Faults
mod Tests
use unix_p.Prelude.{
  ℕ, zero, suc, ◌+◌, ◌-◌, ◌*◌, ◌/◌, ◌%◌, ◌&&◌, ◌||◌, not, Option, none, some, ◌>>=◌, leb, ◌==◌,
  if◌then◌else◌, u32, sub_u32,
}
use unix_p.Prelude.Memory.{Memory, load32, store32}
use unix_p.Tools.Fill.{tmemset}
use unix_p.Pmm.{Outcome, ok, fault, out_of_fuel}

-- The fields of `mem_block_t` at an address, and the address of its data.
abbrev pub next_at : ℕ → ℕ
next_at block = block

abbrev pub task_id_at : ℕ → ℕ
task_id_at block = block + 4

abbrev pub free_at : ℕ → ℕ
free_at block = block + 8

abbrev pub size_at : ℕ → ℕ
size_at block = block + 12

abbrev pub data_at : ℕ → ℕ
data_at block = block + 16

-- The next block's size is added, and the block is unlinked.
unfoldable pub merge_next : Memory → (block : ℕ) → Memory
merge_next m block =
    let next = load32 m (next_at block) in
    let size = u32 (load32 m (size_at block) + (load32 m (size_at next) + 16)) in
    let m' = store32 m (size_at block) size in
    let after = load32 m' (next_at (load32 m' (next_at block))) in
    store32 m' (next_at block) (if after == 0 then 0 else after)

unfoldable pub merge_loop : (fuel : ℕ) → Memory → (block : ℕ) → Option Memory
merge_loop zero m block = none
merge_loop (suc fuel) m block =
    let next = load32 m (next_at block) in
    let rest = merge_loop fuel (merge_next m block) block in
    if next == 0 || load32 m (free_at next) == 0 then some m else rest

unfoldable pub merge_blocks : (fuel : ℕ) → Memory → (start : ℕ) → Option Memory
merge_blocks fuel m start =
    if load32 m (free_at start) == 0 then some m else merge_loop fuel m start

-- The new block is as far behind `block` as the alignment wants.
abbrev pub second_block : (block alignment : ℕ) → ℕ
second_block block alignment =
    let addr = data_at block + 4 * alignment - 4 in addr - (addr % alignment + 16)

-- The free block behind the new one: `third->data - block->data` counts words.
unfoldable pub make_third : Memory → (block third : ℕ) → Memory
make_third m block third =
    let m1 = tmemset m third 0 16 in
    let m2 =
      store32 m1 (size_at third)
        (sub_u32 (load32 m1 (size_at block)) (u32 ((data_at third - data_at block) / 4))) in
    let m3 = store32 m2 (next_at third) (load32 m2 (next_at block)) in store32 m3 (free_at third) 1

unfoldable pub make_second : Memory → (second third size : ℕ) → Memory
make_second m second third size =
    let m1 = store32 m (size_at second) size in
    let m2 = store32 m1 (next_at second) third in
    let m3 = store32 m2 (free_at second) 0 in store32 m3 (task_id_at second) 0

-- What is left in front of the new block stays free.
unfoldable pub make_first : Memory → (block second : ℕ) → Memory
make_first m block second =
    let m1 = store32 m (next_at block) second in
    let m2 = store32 m1 (size_at block) (sub_u32 second (data_at block)) in
    store32 m2 (free_at block) 1

unfoldable pub split_block : Memory → (block size alignment : ℕ) → ℕ × Memory
split_block m block size alignment =
    let second = second_block block alignment in
    let third = data_at second + 4 * size in
    let m' = make_second (make_third m block third) second third size in
    (data_at second, if block == second then m' else make_first m' block second)

-- A remainder by 0 is a fault.
unfoldable pub alloc_loop : (fuel : ℕ) → Memory → (block size alignment : ℕ) → Outcome (ℕ × Memory)
alloc_loop zero m block size alignment = out_of_fuel
alloc_loop (suc fuel) m block size alignment =
    let rest = alloc_loop fuel m (load32 m (next_at block)) size alignment in
    if block == 0
    then ok (0, m)
    else if not (load32 m (free_at block) == 0)
        && leb (u32 (alignment + 16 + size)) (load32 m (size_at block))
    then if alignment == 0 then fault else ok (split_block m block size alignment)
    else rest

unfoldable pub kaligned_alloc :
    (fuel : ℕ) → Memory → (m_dyn_first_block size alignment : ℕ) → Outcome (ℕ × Memory)
kaligned_alloc fuel m m_dyn_first_block size alignment =
    if size == 0 then ok (0, m) else alloc_loop fuel m m_dyn_first_block size alignment

-- The address and the memory.
unfoldable pub kmalloc : (fuel : ℕ) → Memory → (m_dyn_first_block size : ℕ) → Outcome (ℕ × Memory)
kmalloc fuel m m_dyn_first_block size = kaligned_alloc fuel m m_dyn_first_block size 1

-- The walk of `kfree` that merges, from `blk` on; each merge has the same fuel.
unfoldable pub merge_walk : (fuel merges : ℕ) → Memory → (blk : ℕ) → Option Memory
merge_walk zero merges m blk = none
merge_walk (suc fuel) merges m blk =
    let rest =
      (merge_blocks merges m blk >>= λ m'. merge_walk fuel merges m' (load32 m' (next_at blk))) in
    if blk == 0 then some m else rest

-- The block is found: it is marked free, and merged.
unfoldable pub free_block : (fuel : ℕ) → Memory → (m_dyn_first_block block prev : ℕ) → Option Memory
free_block fuel m m_dyn_first_block block prev =
    merge_blocks fuel (store32 m (free_at block) 1) (if prev == 0 then block else prev) >>= λ m'.
    merge_walk fuel fuel m' m_dyn_first_block

unfoldable pub kfree_loop :
    (left fuel : ℕ) → Memory → (m_dyn_first_block block prev ptr : ℕ) → Option Memory
kfree_loop zero fuel m m_dyn_first_block block prev ptr = none
kfree_loop (suc left) fuel m m_dyn_first_block block prev ptr =
    let rest = kfree_loop left fuel m m_dyn_first_block (load32 m (next_at block)) block ptr in
    if block == 0
    then some m
    else if data_at block == ptr
    then free_block fuel m m_dyn_first_block block prev
    else rest

unfoldable pub kfree : (fuel : ℕ) → Memory → (m_dyn_first_block ptr : ℕ) → Option Memory
kfree fuel m m_dyn_first_block ptr =
    if ptr == 0 then some m else kfree_loop fuel fuel m m_dyn_first_block m_dyn_first_block 0 ptr
