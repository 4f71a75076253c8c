-- ===== src/Pmm.antt =====
-- The physical memory manager, kernel/arch/pmm.c with include/kernel/mem.h: its state.
-- Pointers into `bitmap_stack` are indices, and `none` is NULL.
pub mod Sizes
pub mod Block
pub mod Init
pub mod Word
pub mod Alloc
pub mod Free
pub mod Startup
mod Tests
use unix_p.Prelude.{ℕ, Option, none, ◌==◌, if◌then◌else◌}
use unix_p.Prelude.Memory.{Memory}

abbrev pub block_size : ℕ
block_size = 4096

abbrev pub page_size : ℕ
page_size = 4096

abbrev pub uint32_bits : ℕ
uint32_bits = 32

abbrev pub mem_dynamic_min_size : ℕ
mem_dynamic_min_size = 0x100000

abbrev pub bitmap_stack_size : ℕ
bitmap_stack_size = 32

-- sizeof(mem_block_t)
abbrev pub mem_block_size : ℕ
mem_block_size = 16

abbrev pub mem_block_available : ℕ
mem_block_available = 1

abbrev pub mem_block_reserved : ℕ
mem_block_reserved = 2

-- `bitmap_list_t`: a region of frames.
pub record BitmapList : Type 0 where
  pub next : Option ℕ
  pub search_next_startblock : ℕ
  pub first_bitmap : ℕ
  pub blocks_count : ℕ
  pub first_block : ℕ

-- `memblock_entry_t`, an entry of the firmware's memory map.
pub record MemblockEntry : Type 0 where
  pub size : ℕ
  pub addr : ℕ
  pub addr_high : ℕ
  pub len : ℕ
  pub len_high : ℕ
  pub type : ℕ

-- The globals of pmm.c, and the memory. A null `m_dyn_first_block` is 0.
pub record Pmm : Type 0 where
  pub bitmap_stack : ℕ → BitmapList
  pub bitmap_stack_top : ℕ
  pub firstblock : Option ℕ
  pub m_dyn_total : ℕ
  pub m_dyn_base : ℕ
  pub m_dyn_first_block : ℕ
  pub memory : Memory

-- `fault` is an access through NULL.
pub data Outcome (A : Type 0) : Type 0 where
  ok : A → Outcome A
  fault : Outcome A
  out_of_fuel : Outcome A

-- `bitmap_stack[i] = e`
abbrev pub set_entry : (ℕ → BitmapList) → ℕ → BitmapList → ℕ → BitmapList
set_entry stack i e j = if i == j then e else stack j
