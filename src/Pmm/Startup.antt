-- ===== src/Pmm/Startup.antt =====
-- `mm_init` on the memory map of a machine.
pub mod Allocators
use unix_p.Prelude.{
  ℕ, inl, inr, ◌+◌, ◌-◌, ◌*◌, ◌^◌, ◌≤◌, ◌<◌, ◌≡◌, ◌≢◌, refl, sym, ap, subst, ◌∙◌, true, false, ◌&&◌,
  List, [], ◌∷◌, ◌++◌, Option, none, some, arith, leb, ◌==◌,
}
use unix_p.Prelude.Memory.{Memory, read, load32}
use unix_p.Dmm.Header.{IsHeader, IsHeader-same}
use unix_p.Dmm.Layout.{Block, end_of, link, IsLayout}
use unix_p.Pmm.{
  BitmapList, MemblockEntry, Pmm, Outcome, ok, fault, out_of_fuel, mem_block_available,
  mem_dynamic_min_size, mem_block_size, page_size, bitmap_stack_size,
}
use unix_p.Pmm.Alloc.{frame_alloc, repeatcount}
use unix_p.Pmm.Alloc.Words.{word_of, HasNoRun}
use unix_p.Pmm.Word.Run.{IsClear}
use unix_p.Prelude.Bits.{bit_at-zero}
use unix_p.Pmm.Alloc.Walk.{Chain, last, IsTakenFrom, IsAllocated, Kept, frame_alloc-IsAllocated}
use unix_p.Pmm.Init.{mm_initmemblock, link_block, mm_init_loop, mm_init}
use unix_p.Pmm.Init.Place.{page_up, IsRegion, IsPushed, IsPlaced}
use unix_p.Pmm.Init.Trim.{
  HoldsKernelEnd, IsDynamic, takes_dynamic, free_from, mm_initmemblock-IsPlaced,
}
use unix_p.Pmm.Init.Map.{
  ArePassed, Ends, Undisturbed, IsUnlinked, loop_takes, loop_passes_first, loop_passes_last,
}

-- The globals before `mm_init`.
pub record IsZeroed (s : Pmm) : Type 0 where
  pub top : s.bitmap_stack_top ≡ 0
  pub first : s.firstblock ≡ none
  pub dynamic : s.m_dyn_first_block ≡ 0

-- The first dynamic block, as `kmalloc` reads it.
abbrev pub dynamic_block : Block
dynamic_block = record { is_free = true; size = mem_dynamic_min_size - mem_block_size }

-- One region, behind the dynamic megabyte, which is behind the kernel, all of its frames free; and one
-- free dynamic block.
pub record IsReady (kernel_end hi : ℕ) (s : Pmm) : Type 0 where
  pub first : s.firstblock ≡ some 0
  pub chain : Chain s.bitmap_stack 0 (0 ∷ [])
  pub region : IsRegion (kernel_end + mem_dynamic_min_size) hi (s.bitmap_stack 0) s.memory
  pub dynamic : s.m_dyn_first_block ≡ kernel_end
  pub layout :
      IsLayout s.memory (end_of kernel_end dynamic_block.size) kernel_end (dynamic_block ∷ [])

-- A region has been made.
abbrev HasRegion : (lo hi : ℕ) → Pmm → Outcome (Option ℕ × MemblockEntry × Pmm) → Type 0
HasRegion lo hi s o =
    (i : ℕ) × (b' : MemblockEntry) × (s' : Pmm) × (o ≡ ok (some i, b', s'))
    × IsPushed s s' i
    × IsRegion lo hi (s'.bitmap_stack i) s'.memory
    × ((x : ℕ) → x < page_up lo → read s'.memory x ≡ read s.memory x)

placed-HasRegion :
    (lo hi : ℕ) (s : Pmm) (o : Outcome (Option ℕ × MemblockEntry × Pmm))
    → page_up lo < hi
    → IsPlaced lo hi s o
    → HasRegion lo hi s o
placed-HasRegion lo hi s (ok (some i, b', s')) left (pushed, region, below) =
    (i, b', s', refl, pushed, region, below)
placed-HasRegion lo hi s (ok (none, b', s')) left (full, _, _) = absurd (omega arith)
placed-HasRegion lo hi s fault left placed = absurd placed
placed-HasRegion lo hi s out_of_fuel left placed = absurd placed

header-IsLayout :
    (m : Memory) (base : ℕ)
    → IsHeader m base 0 1 dynamic_block.size
    → IsLayout m (end_of base dynamic_block.size) base (dynamic_block ∷ [])
header-IsLayout m base (n, f, s) =
    let last_one : link (end_of base dynamic_block.size) (end_of base dynamic_block.size) ≡ 0 =
      ground arith in
    ((n ∙ sym last_one, f, s), refl)

module _ (kernel_start kernel_end hi : ℕ) (s : Pmm) (b : MemblockEntry) (zeroed : IsZeroed s)
    (main : HoldsKernelEnd kernel_end hi b)
    (enough : kernel_end + mem_dynamic_min_size + 2 * page_size ≤ hi) where
  takes : takes_dynamic kernel_end hi s ≡ true
  takes = ground (arith, zeroed.dynamic)

  -- The entry that the kernel ends in.
  main_entry :
      (b' : MemblockEntry) × (s' : Pmm) × (mm_initmemblock kernel_start kernel_end b s
        ≡ ok (some 0, b', s'))
      × IsReady kernel_end hi s'
      × IsUnlinked (some 0) s'
  main_entry =
      let (s1, dynamic, placed) =
        mm_initmemblock-IsPlaced kernel_start kernel_end hi b main s (ground (arith, zeroed.top)) in
      let from : free_from kernel_end hi s ≡ kernel_end + mem_dynamic_min_size = rw takes refl in
      let (i, b', s', made, pushed, region, below) =
        placed-HasRegion (kernel_end + mem_dynamic_min_size) hi s1
          (mm_initmemblock kernel_start kernel_end b s) (omega arith)
          (subst (λ (lo : ℕ). IsPlaced lo hi s1 (mm_initmemblock kernel_start kernel_end b s)) from
            placed) in
      let zero_index : i ≡ 0 = pushed.index ∙ dynamic.top ∙ zeroed.top in
      let at : kernel_end + 16 ≤ page_up (kernel_end + mem_dynamic_min_size) = omega arith in
      let first_region =
        subst
          (λ (j : ℕ). IsRegion (kernel_end + mem_dynamic_min_size) hi (s'.bitmap_stack j) s'.memory)
          zero_index region in
      let header =
        IsHeader-same s'.memory s1.memory kernel_end 0 1 dynamic_block.size
          (λ k lo hi. below k (omega arith)) (dynamic.header takes) in
      (
        b',
        s',
        subst (λ (j : ℕ). mm_initmemblock kernel_start kernel_end b s ≡ ok (some j, b', s'))
            zero_index made,
        record {
          first =
              pushed.first
              ∙ ap (λ (f : Option ℕ). elim f [ none ↦ some i | some f' ↦ some f' ])
                  (dynamic.first ∙ zeroed.first)
              ∙ ap (λ (j : ℕ). some j) zero_index;
          chain = last first_region.unlinked;
          region = first_region;
          dynamic = pushed.dynamic ∙ dynamic.dynamic ∙ rw takes refl;
          layout = header-IsLayout s'.memory kernel_end header;
        },
        first_region.unlinked,
      )

IsReady-Undisturbed :
    (kernel_end hi : ℕ) (s s' : Pmm)
    → Undisturbed s s'
    → IsReady kernel_end hi s
    → IsReady kernel_end hi s'
IsReady-Undisturbed kernel_end hi s s' same ready =
    let region =
      subst (λ (e : BitmapList). IsRegion (kernel_end + mem_dynamic_min_size) hi e s'.memory)
        (sym (same.stack 0))
        (subst
          (λ (m : Memory). IsRegion (kernel_end + mem_dynamic_min_size) hi (s.bitmap_stack 0) m)
          (sym same.memory) ready.region) in
    record {
      first = same.first ∙ ready.first;
      chain = last region.unlinked;
      region = region;
      dynamic = same.dynamic ∙ ready.dynamic;
      layout =
          subst
            (λ (m : Memory).
              IsLayout m (end_of kernel_end dynamic_block.size) kernel_end (dynamic_block ∷ []))
            (sym same.memory) ready.layout;
    }

-- On a memory map of which one entry, of type available, holds the kernel's end, with a megabyte and
-- two pages behind it, and each other entry is not available or wholly under 1 MB, `mm_init`, from no
-- region and no dynamic block, ends: there is one region, from the first page behind the kernel and
-- the dynamic megabyte on, with as many frames as fit, all of them free, and one free dynamic block
-- at the kernel's end. The entry with the kernel ends at a multiple of 4 more than a page below 4 GB,
-- and starts at the kernel's end or less than 2 GB before it; the kernel's end is at 1 MB or above.
pub mm_init-IsReady :
    (kernel_start kernel_end hi : ℕ) (s : Pmm) (pre post : List MemblockEntry) (b : MemblockEntry)
    → IsZeroed s
    → ArePassed pre
    → ArePassed post
    → b.type ≡ mem_block_available
    → HoldsKernelEnd kernel_end hi b
    → kernel_end + mem_dynamic_min_size + 2 * page_size ≤ hi
    → (es : List MemblockEntry) × (s' : Pmm) × (mm_init kernel_start kernel_end
          (pre ++ (b ∷ post))
          s
        ≡ ok (es, s'))
      × IsReady kernel_end hi s'
unfolding mm_init link_block
mm_init-IsReady kernel_start kernel_end hi s pre post b zeroed before behind available main enough =
    let (b', s1, made, ready, unlinked) =
      main_entry kernel_start kernel_end hi s b zeroed main enough in
    let (s2, ends, same) =
      loop_passes_last kernel_start kernel_end post (some 0) s1 behind unlinked in
    let (es, returns) =
      loop_passes_first kernel_start kernel_end pre (b ∷ post) s s2 before
        (loop_takes kernel_start kernel_end b b' post none (some 0) s s1 s2 available made ends) in
    (es, s2, returns, IsReady-Undisturbed kernel_end hi s1 s2 same ready)
