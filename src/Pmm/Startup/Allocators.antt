-- ===== src/Pmm/Startup/Allocators.antt =====
-- The first calls of `frame_alloc` and of `kmalloc` after `mm_init`.
use unix_p.Prelude.{
  ℕ, inl, inr, ◌+◌, ◌*◌, ◌^◌, ◌≤◌, ◌<◌, ◌≡◌, refl, sym, ap, subst, ◌∙◌, true, List, [], ◌∷◌, ◌++◌,
  Option, none, some, arith,
}
use unix_p.Prelude.Memory.{Memory, read, load32}
use unix_p.Dmm.Layout.{Block, end_of, link}
use unix_p.Pmm.{
  BitmapList, MemblockEntry, Pmm, Outcome, ok, fault, out_of_fuel, mem_block_available,
  mem_dynamic_min_size, page_size,
}
use native.Mathlib.Decide.{ℕ_discrete}
use unix_p.Pmm.Alloc.{frame_alloc, frame_addr, repeatcount}
use unix_p.Pmm.Alloc.Words.{word_of, HasNoRun}
use unix_p.Pmm.Word.Run.{IsClear}
use unix_p.Prelude.Bits.{bit_at-zero}
use unix_p.Pmm.Alloc.Walk.{IsTakenFrom, IsAllocated, frame_alloc-IsAllocated}
use unix_p.Pmm.Init.{mm_init}
use unix_p.Pmm.Init.Place.{IsRegion, page_up}
use unix_p.Pmm.Init.Trim.{HoldsKernelEnd}
use unix_p.Pmm.Init.Map.{ArePassed}
use unix_p.Dmm.Alloc.{serves, alloc-serves, kmalloc-alloc}
use unix_p.Dmm.{kmalloc}
use unix_p.Pmm.Startup.{IsZeroed, dynamic_block, IsReady, mm_init-IsReady}

-- The first word of a cleared bitmap.
cleared_word : (lo hi : ℕ) (e : BitmapList) (m : Memory) → IsRegion lo hi e m → word_of e m 0 ≡ 0
unfolding load32
cleared_word lo hi e m region =
    let low : e.first_block ≤ e.first_bitmap = omega (arith, region.bitmap) in
    let high : e.first_bitmap + 4 ≤ hi = omega (arith, region.inside) in
    let b0 : read m (e.first_bitmap + 0) ≡ 0 =
      region.cleared (e.first_bitmap + 0) (omega arith) (omega arith) in
    let b1 : read m (e.first_bitmap + 0 + 1) ≡ 0 =
      region.cleared (e.first_bitmap + 0 + 1) (omega arith) (omega arith) in
    let b2 : read m (e.first_bitmap + 0 + 2) ≡ 0 =
      region.cleared (e.first_bitmap + 0 + 2) (omega arith) (omega arith) in
    let b3 : read m (e.first_bitmap + 0 + 3) ≡ 0 =
      region.cleared (e.first_bitmap + 0 + 3) (omega arith) (omega arith) in
    omega (arith, b0, b1, b2, b3)

zero-IsClear : (count : ℕ) → count ≤ 32 → IsClear 0 0 count
zero-IsClear count fits = λ k lo hi. bit_at-zero k

found-IsTaken :
    (s : Pmm) (count : ℕ) (o : Outcome (Option ℕ × Pmm))
    → (HasNoRun
          (s.bitmap_stack 0)
          s.memory
          count
          (s.bitmap_stack 0).search_next_startblock
          (repeatcount (s.bitmap_stack 0))
        → ⊥)
    → IsAllocated s count (0 ∷ []) o
    → (a : ℕ) × (s' : Pmm) × (o ≡ ok (some a, s'))
      × IsTakenFrom s count a s'.memory (s.bitmap_stack 0)
found-IsTaken s count (ok (some a, s')) free (inl taken, kept) = (a, s', refl, taken)
found-IsTaken s count (ok (some a, s')) free (inr (_, nowhere), kept) = absurd nowhere
found-IsTaken s count (ok (none, s')) free (same, (no_run, _), kept) = absurd (free no_run)
found-IsTaken s count fault free h = absurd h
found-IsTaken s count out_of_fuel free h = absurd h

-- A region that is all free has a run.
has_run :
    (kernel_end hi : ℕ) (s : Pmm) (count : ℕ)
    → IsReady kernel_end hi s
    → count ≤ 32
    → HasNoRun
        (s.bitmap_stack 0)
        s.memory
        count
        (s.bitmap_stack 0).search_next_startblock
        (repeatcount (s.bitmap_stack 0))
    → ⊥
has_run kernel_end hi s count ready small no_run =
    let e = s.bitmap_stack 0 in
    let fresh : e.search_next_startblock ≡ 0 = ready.region.fresh in
    let word = cleared_word (kernel_end + mem_dynamic_min_size) hi e s.memory ready.region in
    no_run 0 0 (omega arith) (omega arith) (omega arith)
      (subst (λ (w : ℕ). IsClear w 0 count) (sym word) (zero-IsClear count small))

-- The first run of a region that is all free is at its first frame.
first_frame :
    (kernel_end hi : ℕ) (s s' : Pmm) (count a : ℕ)
    → IsReady kernel_end hi s
    → hi < 2 ^ 32
    → count ≤ 32
    → IsTakenFrom s count a s'.memory (s.bitmap_stack 0)
    → a ≡ page_up (kernel_end + mem_dynamic_min_size)
first_frame kernel_end hi s s' count a ready low small t =
    let e = s.bitmap_stack 0 in
    let lo = kernel_end + mem_dynamic_min_size in
    let clear =
      subst (λ (w : ℕ). IsClear w 0 count) (sym (cleared_word lo hi e s.memory ready.region))
        (zero-IsClear count small) in
    let word : t.i ≡ 0 = elim (ℕ_discrete t.i 0) [
      | yes first ↦ first
      | no later ↦
          let fresh : e.search_next_startblock ≡ 0 = ready.region.fresh in
          absurd (t.first_word 0 0 (omega arith) (omega arith) (omega arith) clear)
    ] in
    let bit : t.b ≡ 0 = elim (ℕ_discrete t.b 0) [
      | yes first ↦ first
      | no later ↦ absurd (
          t.first_bit 0 (omega arith)
            (subst (λ (i : ℕ). IsClear (word_of e s.memory i) 0 count) (sym word) clear))
    ] in
    let inside = ready.region.inside in
    let bitmap = ready.region.bitmap in
    let starts = ready.region.starts in
    let at = t.address in
    let here : frame_addr e.first_block t.i t.b ≡ e.first_block =
      rw (word, bit) (omega (arith, inside, bitmap)) in
    at ∙ here ∙ starts

-- The first call: the first `count` frames of the region, which has as many, are taken.
abbrev pub GivesFrames : Pmm → (kernel_end count align_up : ℕ) → Type 0
GivesFrames s kernel_end count align_up =
    (s' : Pmm) × (frame_alloc s count align_up
      ≡ ok (some (page_up (kernel_end + mem_dynamic_min_size)), s'))
    × IsTakenFrom s count (page_up (kernel_end + mem_dynamic_min_size)) s'.memory (s.bitmap_stack 0)
    × (count ≤ (s.bitmap_stack 0).blocks_count)

gives_frames :
    (kernel_end hi : ℕ) (s : Pmm) (count align_up : ℕ)
    → IsReady kernel_end hi s
    → hi < 2 ^ 32
    → kernel_end + mem_dynamic_min_size + (count + 2) * page_size ≤ hi
    → 0 < count
    → count ≤ 32
    → align_up ≤ 1
    → GivesFrames s kernel_end count align_up
gives_frames kernel_end hi s count align_up ready low enough wanted small unaligned =
    let (a, s', returned, taken) =
      found-IsTaken s count (frame_alloc s count align_up)
        (has_run kernel_end hi s count ready small)
        (frame_alloc-IsAllocated s count align_up 0 (0 ∷ []) wanted small unaligned ready.first
          ready.chain (omega arith)) in
    let at = first_frame kernel_end hi s s' count a ready low small taken in
    let starts = ready.region.starts in
    (
      s',
      returned ∙ ap (λ (p : ℕ). ok (some p, s')) at,
      subst (λ (p : ℕ). IsTakenFrom s count p s'.memory (s.bitmap_stack 0)) at taken,
      ready.region.largest count (omega (arith, starts)),
    )

-- `kmalloc` returns what is behind the first header.
abbrev pub GivesWords : Pmm → (fuel kernel_end size : ℕ) → Type 0
GivesWords s fuel kernel_end size =
    (m' : Memory) × (kmalloc fuel s.memory s.m_dyn_first_block size ≡ ok (kernel_end + 16, m'))

gives_words :
    (kernel_end hi : ℕ) (s : Pmm) (fuel size : ℕ)
    → IsReady kernel_end hi s
    → 0 < kernel_end
    → kernel_end + 2 ^ 22 < 2 ^ 32
    → 0 < size
    → size + 17 ≤ dynamic_block.size
    → 1 < fuel
    → GivesWords s fuel kernel_end size
gives_words kernel_end hi s fuel size ready real low wanted fits enough =
    let end = end_of kernel_end dynamic_block.size in
    let (m', returns, _) =
      kmalloc-alloc fuel s.memory end kernel_end size (dynamic_block ∷ []) ready.layout real
        (omega arith) wanted (omega arith) enough in
    let here : link end kernel_end ≡ kernel_end = ground arith in
    let serves_it : serves size dynamic_block ≡ true = ground arith in
    let first =
      ap (λ (r : ℕ × List Block). r.0) (alloc-serves kernel_end size dynamic_block [] serves_it) in
    (
      m',
      ap (λ (p : ℕ). kmalloc fuel s.memory p size) (ready.dynamic ∙ sym here)
          ∙ returns
          ∙ ap (λ (a : ℕ). ok (a, m')) first,
    )

-- On a memory map of which one entry, of type available, holds the kernel's end, with a megabyte and
-- `count` + 2 pages behind it, and each other entry is not available or wholly under 1 MB, `mm_init`,
-- from no region and no dynamic block, ends in a state in which both allocators serve: `frame_alloc`
-- of 1 to 32 frames, `count`, at `align_up` 0 or 1 returns the first frame of the region, which has
-- at least `count`; they were free and are taken now, and no other bit or byte has changed. `kmalloc`
-- of 1 to 2 ^ 20 - 33 words, on two rounds or more, returns the address behind the header at the
-- kernel's end. The entry with the kernel ends at a multiple of 4 more than a page below 4 GB, and
-- starts at the kernel's end or less than 2 GB before it; the kernel's end is at 1 MB or above and
-- more than 4 MB below 4 GB.
pub mm_init-allocators :
    (kernel_start kernel_end hi : ℕ) (s : Pmm) (pre post : List MemblockEntry) (b : MemblockEntry)
    (count align_up fuel size : ℕ)
    → IsZeroed s
    → ArePassed pre
    → ArePassed post
    → b.type ≡ mem_block_available
    → HoldsKernelEnd kernel_end hi b
    → kernel_end + mem_dynamic_min_size + (count + 2) * page_size ≤ hi
    → kernel_end + 2 ^ 22 < 2 ^ 32
    → 0 < count
    → count ≤ 32
    → align_up ≤ 1
    → 0 < size
    → size + 33 ≤ 2 ^ 20
    → 1 < fuel
    → (es : List MemblockEntry) × (s' : Pmm) × (mm_init kernel_start kernel_end
          (pre ++ (b ∷ post))
          s
        ≡ ok (es, s'))
      × GivesFrames s' kernel_end count align_up
      × GivesWords s' fuel kernel_end size
mm_init-allocators kernel_start kernel_end hi s pre post b count align_up fuel size zeroed before
      behind available main enough low wanted small unaligned words fits rounds =
    let (es, s', returns, ready) =
      mm_init-IsReady kernel_start kernel_end hi s pre post b zeroed before behind available main
        (omega arith) in
    (
      es,
      s',
      returns,
      gives_frames kernel_end hi s' count align_up ready (omega (arith, main.high)) enough wanted
          small unaligned,
      gives_words kernel_end hi s' fuel size ready (omega (arith, main.above_1mb)) low words
          (omega arith) rounds,
    )
