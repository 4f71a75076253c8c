-- ===== src/Pmm/Block.antt =====
-- The inline functions on an entry of the memory map in kernel/arch/pmm.c.
use unix_p.Prelude.{
  ℕ, ◌+◌, ◌^◌, ◌≤◌, ◌<◌, ◌≡◌, Bool, ◌&&◌, arith, ltb, leb, if◌then◌else◌, u32, sub_u32,
}
use unix_p.Pmm.{MemblockEntry}

-- `old` is an `int32_t`: its bits are the wrapped difference, positive below 2 ^ 31.
unfoldable pub block_setstart : MemblockEntry → ℕ → MemblockEntry
block_setstart block new =
    let old = sub_u32 new block.addr in
    record block {
      addr = new;
      len =
          if ltb 0 old && ltb old (2 ^ 31)
          then sub_u32 block.len old
          else sub_u32 block.len (sub_u32 0 old);
    }

unfoldable pub block_addstart : MemblockEntry → ℕ → MemblockEntry
unfolding block_setstart
block_addstart block inc = block_setstart block (u32 (block.addr + inc))

unfoldable pub block_setend : MemblockEntry → ℕ → MemblockEntry
block_setend block new = record block { len = sub_u32 new block.addr }

unfoldable pub block_getend : MemblockEntry → ℕ
block_getend block = u32 (block.addr + block.len)

unfoldable pub is_block_under1mb : MemblockEntry → Bool
unfolding block_getend
is_block_under1mb block = ltb (block_getend block) 0x100000

unfoldable pub is_partofblock_under1mb : MemblockEntry → Bool
unfolding block_getend
is_partofblock_under1mb block = leb 0x100000 (block_getend block) && ltb block.addr 0x100000

-- The entry describes addresses below 4 GB.
pub record IsBlock (b : MemblockEntry) : Type 0 where
  pub in_range : b.addr + b.len < 2 ^ 32

-- Moving the start up, to a place in the block at most 2 GB further on, keeps the end.
pub block_setstart-up :
    (b : MemblockEntry) (new : ℕ)
    → IsBlock b
    → b.addr ≤ new
    → new ≤ b.addr + b.len
    → new < b.addr + 2 ^ 31
    → ((block_setstart b new).addr ≡ new)
      × (new + (block_setstart b new).len ≡ b.addr + b.len)
      × ((block_setstart b new).type ≡ b.type)
unfolding block_setstart
block_setstart-up b new ok lo hi near = ground arith
