-- ===== src/Pmm/Tests.antt =====
-- The memory manager of kernel/arch/pmm.c at concrete states.
use unix_p.Prelude.{
  ℕ, inl, inr, List, ◌+◌, ◌*◌, ◌-◌, ◌≡◌, refl, true, Option, none, some, [], ◌∷◌, arith,
}
use unix_p.Prelude.Memory.{Memory, read, write, load32}
use unix_p.Pmm.{BitmapList, MemblockEntry, Pmm, Outcome, ok, fault, out_of_fuel}
use unix_p.Pmm.Sizes.{calc_blocks_and_bitmaps}
use unix_p.Pmm.Word.{scan_word, find_run}
use unix_p.Pmm.Word.Run.{IsAnswer, find_run-IsAnswer}
use unix_p.Pmm.Alloc.{frame_alloc}
use unix_p.Pmm.Alloc.Walk.{last, IsAllocated, frame_alloc-IsAllocated}
use unix_p.Pmm.Free.{frame_free}
use unix_p.Pmm.Free.Laws.{IsFreed, frame_free-exact, frame_free_wrong_frame}
use unix_p.Pmm.Free.Undo.{frame_free-frame_alloc}
use unix_p.Pmm.Init.{mm_initmemblock, mm_init}
use unix_p.Pmm.Block.{is_block_under1mb, block_getend}
use unix_p.Pmm.Init.Map.{ArePassed}
use unix_p.Pmm.Startup.{IsZeroed, IsReady, mm_init-IsReady}
use unix_p.Pmm.Startup.Allocators.{GivesFrames, GivesWords, mm_init-allocators}
use unix_p.Pmm.Init.Place.{IsPlaced}
use unix_p.Pmm.Init.Trim.{HoldsKernelEnd, IsDynamic, free_from, mm_initmemblock-IsPlaced}

-- A region of 200000 frames at 2 MB, with its bitmap at 1 GB.
abbrev region : BitmapList
region = record {
  next = none;
  search_next_startblock = 0;
  first_bitmap = 0x4000_0000;
  blocks_count = 200000;
  first_block = 0x20_0000;
}

-- A machine with that region, of which the memory is given.
abbrev with_memory : Memory → Pmm
with_memory m = record {
  bitmap_stack = λ i. region;
  bitmap_stack_top = 1;
  firstblock = some 0;
  m_dyn_total = 0;
  m_dyn_base = 0;
  m_dyn_first_block = 0;
  memory = m;
}

abbrev all_free : Pmm
all_free = with_memory (λ a. 0)

-- Frames 0 and 4 are taken.
abbrev two_taken : Pmm
two_taken = with_memory (write (λ a. 0) 0x4000_0000 0x11)

-- A machine before any region is made.
abbrev booted : Pmm
booted = record all_free { bitmap_stack_top = 0; firstblock = none }

abbrev address_of : Outcome (Option ℕ × Pmm) → Option ℕ
address_of (ok (r, s)) = r
address_of fault = none
address_of out_of_fuel = none

three_frames : address_of (frame_alloc two_taken 3 1) ≡ some 0x20_1000
unfolding frame_alloc scan_word load32 read write
three_frames = refl

four_frames : address_of (frame_alloc two_taken 4 0) ≡ some 0x20_5000
unfolding frame_alloc scan_word load32 read write
four_frames = refl

megabyte_blocks : calc_blocks_and_bitmaps 0x10_0000 ≡ some (255, 8)
unfolding calc_blocks_and_bitmaps
megabyte_blocks = refl

-- Near 4 GB the size wraps, and more frames are returned than fit.
too_many_blocks : calc_blocks_and_bitmaps 0xffff_ffff ≡ some (0xf_ffff, 0x8000)
unfolding calc_blocks_and_bitmaps
too_many_blocks = refl

find_run-IsAnswer_example : IsAnswer 0x11 3 (find_run 0x11 3 1).found
find_run-IsAnswer_example = find_run-IsAnswer 0x11 3 (omega arith)

frame_alloc-IsAllocated_example : IsAllocated two_taken 3 (0 ∷ []) (frame_alloc two_taken 3 1)
frame_alloc-IsAllocated_example =
    frame_alloc-IsAllocated two_taken 3 1 0 (0 ∷ []) (omega arith) (omega arith) (omega arith) refl
      (last refl) (omega arith)

frame_free-exact_example :
    (s' : Pmm) × (frame_free two_taken (0x20_0000 + 4 * 4096) 1 ≡ ok (true, s'))
    × IsFreed 0x4000_0000 4 1 two_taken.memory s'.memory
frame_free-exact_example =
    frame_free-exact two_taken 0 4 1 refl (omega arith) (omega arith) (omega arith) (omega arith)
      (omega arith) (omega arith)

frame_free_wrong_frame_example :
    (s' : Pmm) × (frame_free two_taken (0x20_0000 + 35 * 4096) 1 ≡ ok (true, s'))
    × IsFreed 0x4000_0000 (35 - 31) 1 two_taken.memory s'.memory
frame_free_wrong_frame_example =
    frame_free_wrong_frame two_taken 0 35 1 refl (omega arith) (omega arith) (omega arith)
      (omega arith) (omega arith) (omega arith) (omega arith)

-- Main memory from 1 MB to 64 MB.
abbrev main_memory : MemblockEntry
main_memory = record {
  size = 20;
  addr = 0x10_0000;
  addr_high = 0;
  len = 0x3f0_0000;
  len_high = 0;
  type = 1;
}

main_memory-HoldsKernelEnd : HoldsKernelEnd 0x11_5000 0x400_0000 main_memory
main_memory-HoldsKernelEnd = omega arith

mm_initmemblock-IsPlaced_example :
    (s1 : Pmm) × IsDynamic 0x11_5000 0x400_0000 booted s1
    × IsPlaced
        (free_from 0x11_5000 0x400_0000 booted)
        0x400_0000
        s1
        (mm_initmemblock 0x10_0000 0x11_5000 main_memory booted)
mm_initmemblock-IsPlaced_example =
    mm_initmemblock-IsPlaced 0x10_0000 0x11_5000 0x400_0000 main_memory main_memory-HoldsKernelEnd
      booted (omega arith)

-- The map of a machine with 64 MB: what is under 1 MB, a gap of the firmware, and the rest of 4 GB.
abbrev low_memory : MemblockEntry
low_memory = record main_memory { addr = 0; len = 0x9_fc00 }

abbrev firmware : MemblockEntry
firmware = record main_memory { addr = 0x9_fc00; len = 0x400; type = 2 }

abbrev above : MemblockEntry
above = record main_memory { addr = 0xfffc_0000; len = 0x4_0000; type = 2 }

booted-IsZeroed : IsZeroed booted
booted-IsZeroed = record { top = refl; first = refl; dynamic = refl }

below-ArePassed : ArePassed (low_memory ∷ firmware ∷ [])
unfolding is_block_under1mb block_getend
below-ArePassed = (inr refl, (inl (λ h. omega arith), tt))

above-ArePassed : ArePassed (above ∷ [])
above-ArePassed = (inl (λ h. omega arith), tt)

mm_init-IsReady_example :
    (es : List MemblockEntry) × (s' : Pmm) × (mm_init 0x10_0000 0x11_5000
        (low_memory ∷ firmware ∷ main_memory ∷ above ∷ [])
        booted
      ≡ ok (es, s'))
    × IsReady 0x11_5000 0x400_0000 s'
mm_init-IsReady_example =
    mm_init-IsReady 0x10_0000 0x11_5000 0x400_0000 booted (low_memory ∷ firmware ∷ []) (above ∷ [])
      main_memory booted-IsZeroed below-ArePassed above-ArePassed refl main_memory-HoldsKernelEnd
      (omega arith)

mm_init-allocators_example :
    (es : List MemblockEntry) × (s' : Pmm) × (mm_init 0x10_0000 0x11_5000
        (low_memory ∷ firmware ∷ main_memory ∷ above ∷ [])
        booted
      ≡ ok (es, s'))
    × GivesFrames s' 0x11_5000 4 0
    × GivesWords s' 2 0x11_5000 100
mm_init-allocators_example =
    mm_init-allocators 0x10_0000 0x11_5000 0x400_0000 booted (low_memory ∷ firmware ∷ [])
      (above ∷ []) main_memory 4 0 2 100 booted-IsZeroed below-ArePassed above-ArePassed refl
      main_memory-HoldsKernelEnd (omega arith) (omega arith) (omega arith) (omega arith)
      (omega arith) (omega arith) (omega arith) (omega arith)

abbrev state_of : Outcome (Option ℕ × Pmm) → Pmm
state_of (ok (r, s)) = s
state_of fault = booted
state_of out_of_fuel = booted

three_taken : frame_alloc two_taken 3 1 ≡ ok (some 0x20_1000, state_of (frame_alloc two_taken 3 1))
unfolding frame_alloc scan_word load32 read write
three_taken = refl

frame_free-frame_alloc_example :
    (s2 : Pmm) × (frame_free (state_of (frame_alloc two_taken 3 1)) 0x20_1000 3 ≡ ok (true, s2))
    × ((x : ℕ) → read s2.memory x ≡ read two_taken.memory x)
frame_free-frame_alloc_example =
    frame_free-frame_alloc two_taken (state_of (frame_alloc two_taken 3 1)) 3 1 0 0x20_1000
      (omega arith) (omega arith) (omega arith) refl refl (omega arith) three_taken (omega arith)
      (omega arith)
