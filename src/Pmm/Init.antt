-- ===== src/Pmm/Init.antt =====
-- `mm_initmemblock` and `mm_init` of kernel/arch/pmm.c. The addresses of `__kernel_start` and
-- `__kernel_end`, which link.ld sets, are parameters. The memory map stands beside the memory: the
-- writes to its entries are the new entries that a call returns.
pub mod Trim
pub mod Place
pub mod Above
pub mod Map
use unix_p.Prelude.{
  ℕ, zero, suc, ◌+◌, ◌-◌, ◌*◌, ◌^◌, Bool, true, false, Option, none, some, List, [], ◌∷◌, ◌&&◌,
  ◌||◌, leb, ltb, ◌==◌, if◌then◌else◌, u32, sub_u32,
}
use unix_p.Prelude.Memory.{Memory, store32}
use unix_p.Tools.Fill.{tmemset}
use unix_p.Pmm.{
  BitmapList, MemblockEntry, Pmm, Outcome, ok, fault, out_of_fuel, set_entry, block_size, page_size,
  mem_dynamic_min_size, bitmap_stack_size, mem_block_size, mem_block_available, mem_block_reserved,
}
use unix_p.Pmm.Sizes.{align_up, calc_blocks_and_bitmaps}
use unix_p.Pmm.Block.{
  block_setstart, block_addstart, block_setend, block_getend, is_block_under1mb,
  is_partofblock_under1mb,
}

-- `alloc_bitmap_list`: the next entry of the stack, or NULL when all 32 are in use.
unfoldable pub alloc_bitmap_list : Pmm → Option ℕ × Pmm
alloc_bitmap_list s =
    if leb bitmap_stack_size s.bitmap_stack_top
    then (none, s)
    else (some s.bitmap_stack_top, record s { bitmap_stack_top = s.bitmap_stack_top + 1 })

-- "We dont allow memory under 1MB"
unfoldable pub cut_under1mb : MemblockEntry → MemblockEntry
unfolding is_partofblock_under1mb
cut_under1mb block = if is_partofblock_under1mb block then block_setstart block 0x100000 else block

-- "Cut conflict between kernel memory and block memmory"
unfoldable pub cut_kernel : (kernel_start kernel_end : ℕ) → MemblockEntry → MemblockEntry
unfolding block_getend
cut_kernel kernel_start kernel_end block =
    let blockend = block_getend block in
    let b = ltb block.addr kernel_start in
    let t = ltb kernel_end blockend in
    if b && t || t
    then block_setstart block kernel_end
    else if b
    then block_setend block kernel_start
    else block

-- The header of the first dynamic block, at offsets 8, 12 and 0, and the cut of its megabyte.
unfoldable pub cut_dynamic : MemblockEntry → Pmm → MemblockEntry × Pmm
unfolding block_addstart
cut_dynamic block s =
    if leb mem_dynamic_min_size block.len && s.m_dyn_first_block == 0
    then (let base = block.addr in
        let header =
          store32
            (store32 (store32 s.memory (base + 8) 1) (base + 12)
              (mem_dynamic_min_size - mem_block_size))
            base 0 in
        (
          block_addstart block mem_dynamic_min_size,
          record s {
            m_dyn_base = base;
            m_dyn_total = mem_dynamic_min_size;
            m_dyn_first_block = base;
            memory = header;
          },
        ))
    else (block, s)

-- The fields that a new entry of the stack is given. All but `next`, which is set to NULL before
-- it is linked, describe the block.
abbrev pub new_region : MemblockEntry → ℕ → BitmapList
new_region block blocks = record {
  next = none;
  search_next_startblock = 0;
  first_bitmap = u32 (block.addr + u32 (blocks * block_size));
  blocks_count = blocks;
  first_block = block.addr;
}

-- A region is made of the aligned block. Writing through the NULL that a full stack gives is a
-- fault.
unfoldable pub make_region : MemblockEntry → Pmm → Outcome (Option ℕ × MemblockEntry × Pmm)
make_region block s = elim (calc_blocks_and_bitmaps block.len) [
  | none ↦ out_of_fuel
  | some (blocks, _) ↦
      let (entry, s') = alloc_bitmap_list s in
      elim entry [
        | none ↦ fault
        | some i ↦ ok (
          some i,
          block,
          record s' {
            bitmap_stack = set_entry s'.bitmap_stack i (new_region block blocks);
            firstblock = elim s'.firstblock [ none ↦ some i | some f ↦ some f ];
          },
        )
      ]
]

-- The block is aligned and cleared before that.
unfoldable pub place_region : MemblockEntry → Pmm → Outcome (Option ℕ × MemblockEntry × Pmm)
place_region block s =
    let alignedaddr = align_up block.addr page_size in
    if leb (u32 (block.addr + block.len)) alignedaddr
    then ok (none, record block { type = mem_block_reserved }, s)
    else (let block' = block_setstart block alignedaddr in
        make_region block' (record s { memory = tmemset s.memory block'.addr 0 block'.len }))

unfoldable pub mm_initmemblock :
    (kernel_start kernel_end : ℕ) → MemblockEntry → Pmm → Outcome (Option ℕ × MemblockEntry × Pmm)
mm_initmemblock kernel_start kernel_end block s =
    if is_block_under1mb block
    then ok (none, record block { type = mem_block_reserved }, s)
    else (let cut = cut_kernel kernel_start kernel_end (cut_under1mb block) in
        let (block', s') = cut_dynamic cut s in place_region block' s')

-- `oldblock->next = newblock`, if there is an old block.
unfoldable pub link_block : Option ℕ → Option ℕ → Pmm → Pmm
link_block none new s = s
link_block (some old) new s = record s {
  bitmap_stack = set_entry s.bitmap_stack old (record (s.bitmap_stack old) { next = new });
}

-- The loop over the map; `newblock` is what the last available entry gave.
unfoldable pub mm_init_loop :
    (kernel_start kernel_end : ℕ)
    → List MemblockEntry
    → Option ℕ
    → Pmm
    → Outcome (List MemblockEntry × Pmm)
unfolding link_block
mm_init_loop kernel_start kernel_end [] newblock s = ok ([], s)
mm_init_loop kernel_start kernel_end (me ∷ rest) newblock s =
    let skipped = mm_init_loop kernel_start kernel_end rest newblock s in
    elim (me.type == mem_block_available) [
      | false ↦ elim skipped [
        | ok (es, s') ↦ ok (me ∷ es, s')
        | fault ↦ fault
        | out_of_fuel ↦ out_of_fuel
      ]
      | true ↦ elim (mm_initmemblock kernel_start kernel_end me s) [
        | ok (new, me', s') ↦
            elim (mm_init_loop kernel_start kernel_end rest new (link_block newblock new s')) [
              | ok (es, s'') ↦ ok (me' ∷ es, s'')
              | fault ↦ fault
              | out_of_fuel ↦ out_of_fuel
            ]
        | fault ↦ fault
        | out_of_fuel ↦ out_of_fuel
      ]
    ]

unfoldable pub mm_init :
    (kernel_start kernel_end : ℕ) → List MemblockEntry → Pmm → Outcome (List MemblockEntry × Pmm)
unfolding mm_init_loop
mm_init kernel_start kernel_end mmap s = mm_init_loop kernel_start kernel_end mmap none s
