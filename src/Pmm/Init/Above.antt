-- ===== src/Pmm/Init/Above.antt =====
-- The cut of the kernel on a block that lies wholly above the kernel.
use unix_p.Prelude.{ℕ, ◌+◌, ◌-◌, ◌*◌, ◌^◌, ◌≤◌, ◌<◌, ◌≡◌, true, ◌&&◌, ◌||◌, arith, ltb, u32}
use unix_p.Pmm.{MemblockEntry}
use unix_p.Pmm.Block.{block_setstart, IsBlock}
use unix_p.Pmm.Init.{cut_kernel}

block_setstart-down :
    (c : MemblockEntry) (new : ℕ)
    → IsBlock c
    → new < c.addr
    → c.addr - new ≤ c.len
    → c.addr < new + 2 ^ 31
    → let d = block_setstart c new in
      (d.addr ≡ new) × (d.addr + d.len + 2 * (c.addr - new) ≡ c.addr + c.len)
unfolding block_setstart
block_setstart-down c new range down enough near = ground arith

-- A block above the kernel, at most its length and less than 2 GB away, does not stay as it is: it
-- is moved down to the kernel's end, out of the memory that the map declares, and twice the
-- distance is lost at its end.
cut_kernel_above :
    (kernel_start kernel_end : ℕ) (c : MemblockEntry)
    → IsBlock c
    → kernel_end < c.addr
    → c.addr - kernel_end ≤ c.len
    → c.addr < kernel_end + 2 ^ 31
    → let d = cut_kernel kernel_start kernel_end c in
      (d.addr ≡ kernel_end) × (d.addr + d.len + 2 * (c.addr - kernel_end) ≡ c.addr + c.len)
unfolding cut_kernel
cut_kernel_above kernel_start kernel_end c range above enough near =
    let behind : ltb kernel_end (u32 (c.addr + c.len)) ≡ true = ground (arith, range.in_range) in
    let always : (ltb c.addr kernel_start && true || true) ≡ true = ground arith in
    rw (behind, always) (block_setstart-down c kernel_end range above enough near)
