-- ===== src/Pmm/Init/Trim.antt =====
-- The first half of `mm_initmemblock`: what is cut off a block, and the whole function.
use unix_p.Prelude.{
  ℕ, ◌+◌, ◌-◌, ◌%◌, ◌^◌, ◌≤◌, ◌<◌, ◌≡◌, refl, ◌∙◌, Bool, true, false, ◌&&◌, ◌||◌, ◌⊎◌, arith, leb,
  ltb, ◌==◌, if◌then◌else◌, Bool-cases, inl, inr, u32,
}
use unix_p.Prelude.Memory.{
  Memory, read, store32, read-store32_ne, load32-store32_self, load32-store32_ne,
}
use unix_p.Dmm.Header.{IsHeader}
use unix_p.Pmm.{
  MemblockEntry, Pmm, page_size, mem_dynamic_min_size, mem_block_size, bitmap_stack_size,
}
use unix_p.Pmm.Block.{is_block_under1mb, IsBlock, block_setstart-up}
use unix_p.Pmm.Init.{cut_under1mb, cut_kernel, cut_dynamic, mm_initmemblock}
use unix_p.Pmm.Init.Place.{IsPlaced, place_region-IsPlaced}

-- A block of the memory map that the kernel's end lies in.
pub record HoldsKernelEnd (kernel_end hi : ℕ) (b : MemblockEntry) : Type 0 where
  pub ends : b.addr + b.len ≡ hi
  pub high : hi + page_size < 2 ^ 32
  pub words : hi % 4 ≡ 0
  pub above_1mb : 0x100000 ≤ kernel_end
  pub from : b.addr ≤ kernel_end
  pub to : kernel_end < hi
  pub near : kernel_end < b.addr + 2 ^ 31

-- Where the free memory of the block starts: behind the kernel, and behind the dynamic megabyte if
-- it is taken here.
abbrev pub takes_dynamic : (kernel_end hi : ℕ) → Pmm → Bool
takes_dynamic kernel_end hi s =
    leb mem_dynamic_min_size (hi - kernel_end) && s.m_dyn_first_block == 0

abbrev pub free_from : (kernel_end hi : ℕ) → Pmm → ℕ
free_from kernel_end hi s =
    if takes_dynamic kernel_end hi s then kernel_end + mem_dynamic_min_size else kernel_end

-- At most the dynamic block has been set up, at the kernel's end.
pub record IsDynamic (kernel_end hi : ℕ) (s s' : Pmm) : Type 0 where
  pub stack : s'.bitmap_stack ≡ s.bitmap_stack
  pub top : s'.bitmap_stack_top ≡ s.bitmap_stack_top
  pub first : s'.firstblock ≡ s.firstblock
  pub dynamic :
      s'.m_dyn_first_block
      ≡ (if takes_dynamic kernel_end hi s then kernel_end else s.m_dyn_first_block)
  pub elsewhere :
      (x : ℕ) → (x < kernel_end) ⊎ (kernel_end + 16 ≤ x) → read s'.memory x ≡ read s.memory x
  pub header :
      takes_dynamic kernel_end hi s ≡ true
      → IsHeader s'.memory kernel_end 0 1 (mem_dynamic_min_size - mem_block_size)

-- A block that goes on behind the kernel is cut to what is behind it.
cut_kernel-up :
    (kernel_start kernel_end : ℕ) (c : MemblockEntry)
    → IsBlock c
    → c.addr ≤ kernel_end
    → kernel_end < c.addr + c.len
    → kernel_end < c.addr + 2 ^ 31
    → let d = cut_kernel kernel_start kernel_end c in
      (d.addr ≡ kernel_end) × (d.addr + d.len ≡ c.addr + c.len)
unfolding cut_kernel
cut_kernel-up kernel_start kernel_end c range from to near =
    let up = block_setstart-up c kernel_end range from (omega arith) near in
    let whole : u32 (c.addr + c.len) ≡ c.addr + c.len = omega (arith, range.in_range) in
    let behind : ltb kernel_end (u32 (c.addr + c.len)) ≡ true = ground arith in
    let always : (ltb c.addr kernel_start && true || true) ≡ true = ground arith in
    rw (behind, always) (up.0, omega (arith, up.0, up.1))

free_from-le : (kernel_end hi : ℕ) (s : Pmm) → kernel_end ≤ free_from kernel_end hi s
free_from-le kernel_end hi s = ground arith

-- The stores to the header change its sixteen bytes only.
read-header :
    (base : ℕ) (m : Memory) (x : ℕ)
    → (x < base) ⊎ (base + 16 ≤ x)
    → read
        (store32
          (store32 (store32 m (base + 8) 1) (base + 12) (mem_dynamic_min_size - mem_block_size))
          base
          0)
        x
      ≡ read m x
read-header base m x out =
    let size = mem_dynamic_min_size - mem_block_size in
    let m1 = store32 m (base + 8) 1 in
    read-store32_ne (store32 m1 (base + 12) size) base 0 x (omega arith)
    ∙ read-store32_ne m1 (base + 12) size x (omega arith)
    ∙ read-store32_ne m (base + 8) 1 x (omega arith)

stored-IsHeader :
    (base : ℕ) (m : Memory)
    → IsHeader
        (store32
          (store32 (store32 m (base + 8) 1) (base + 12) (mem_dynamic_min_size - mem_block_size))
          base
          0)
        base
        0
        1
        (mem_dynamic_min_size - mem_block_size)
stored-IsHeader base m =
    let size = mem_dynamic_min_size - mem_block_size in
    let m1 = store32 m (base + 8) 1 in
    let m2 = store32 m1 (base + 12) size in
    (
      load32-store32_self m2 base 0 (omega arith),
      load32-store32_ne m2 base 0 (base + 8) (omega arith)
          ∙ load32-store32_ne m1 (base + 12) size (base + 8) (omega arith)
          ∙ load32-store32_self m (base + 8) 1 (omega arith),
      load32-store32_ne m2 base 0 (base + 12) (omega arith)
          ∙ load32-store32_self m1 (base + 12) size (omega arith),
    )

cut_dynamic-IsDynamic :
    (kernel_end hi : ℕ) (c : MemblockEntry) (s : Pmm)
    → c.addr ≡ kernel_end
    → c.addr + c.len ≡ hi
    → hi < 2 ^ 32
    → let (d, s') = cut_dynamic c s in
      IsDynamic kernel_end hi s s' × (d.addr ≡ free_from kernel_end hi s) × (d.addr + d.len ≡ hi)
unfolding cut_dynamic
cut_dynamic-IsDynamic kernel_end hi c s at ends small =
    let len : c.len ≡ hi - kernel_end = omega arith in
    rw (at, len)
      (elim (Bool-cases (takes_dynamic kernel_end hi s)) [
        | inl takes ↦
            let room : mem_dynamic_min_size ≤ hi - kernel_end = ground arith in
            rw takes (
              record {
                stack = refl;
                top = refl;
                first = refl;
                dynamic = rw takes;
                elsewhere = read-header kernel_end s.memory;
                header = λ takes'. stored-IsHeader kernel_end s.memory;
              },
              omega arith,
              ground arith,
            )
        | inr leaves ↦ rw leaves (
          record {
            stack = refl;
            top = refl;
            first = refl;
            dynamic = rw leaves;
            elsewhere = λ x out. refl;
            header = λ takes. absurd (ground arith);
          },
          refl,
          omega arith,
        )
      ])

module _ (kernel_start kernel_end hi : ℕ) (b : MemblockEntry)
    (h : HoldsKernelEnd kernel_end hi b) where
  under : is_block_under1mb b ≡ false
  unfolding is_block_under1mb
  under = ground (arith, h.ends)

  cut_under1mb-end :
      (b.addr ≤ (cut_under1mb b).addr)
      × ((cut_under1mb b).addr ≤ kernel_end)
      × ((cut_under1mb b).addr + (cut_under1mb b).len ≡ hi)
  unfolding cut_under1mb
  cut_under1mb-end = ground (arith, block_setstart-up b 0x100000)

  cut : MemblockEntry
  cut = cut_kernel kernel_start kernel_end (cut_under1mb b)

  cut-end : (cut.addr ≡ kernel_end) × (cut.addr + cut.len ≡ hi)
  unfolding cut
  cut-end =
      let (from, to, ends) = cut_under1mb-end in
      let up =
        cut_kernel-up kernel_start kernel_end (cut_under1mb b)
          (record { in_range = omega (arith, h.high) }) to (omega (arith, h.to))
          (omega (arith, h.near)) in
      (up.0, up.1 ∙ ends)

  -- With an entry left on the stack, `mm_initmemblock` of a block that ends at a multiple of 4 more
  -- than a page below 4 GB and holds the kernel's end, which is at 1 MB or above and less than 2 GB
  -- behind the block's start, sets up at most the dynamic megabyte at the kernel's end, and pushes a
  -- region that starts at the first page behind the kernel and that megabyte, lies in the block with
  -- its bitmap, has as many frames as fit, and is all free; or no page is left there, and no region
  -- is made.
  pub mm_initmemblock-IsPlaced :
      (s : Pmm)
      → s.bitmap_stack_top < bitmap_stack_size
      → (s1 : Pmm) × IsDynamic kernel_end hi s s1
        × IsPlaced (free_from kernel_end hi s) hi s1 (mm_initmemblock kernel_start kernel_end b s)
  unfolding mm_initmemblock cut
  mm_initmemblock-IsPlaced s room =
      let (at, ends) = cut-end in
      let (dynamic, from, whole) =
        cut_dynamic-IsDynamic kernel_end hi cut s at ends (omega (arith, h.high)) in
      let (c, s1) = cut_dynamic cut s in
      (
        s1,
        dynamic,
        rw under (
            rw from at (
              place_region-IsPlaced c s1 hi whole
                (omega (arith, from, free_from-le kernel_end hi s, h.above_1mb)) h.high h.words
                (omega arith) (rw (← dynamic.top) at room))),
      )
