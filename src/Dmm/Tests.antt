-- ===== src/Dmm/Tests.antt =====
-- The allocator at concrete inputs.
use unix_p.Prelude.{
  ℕ, inl, suc, ◌+◌, ◌-◌, ◌^◌, ◌<◌, ◌≡◌, refl, true, false, ◌||◌, ◌%◌, ◌/◌, none, some, List, [],
  ◌∷◌, arith, ◌==◌, if◌then◌else◌,
}
use unix_p.Prelude.Memory.{Memory, read, write, read-write, load32}
use unix_p.Pmm.{ok, MemblockEntry, Pmm, BitmapList}
use unix_p.Pmm.Init.{cut_dynamic}
use unix_p.Dmm.Layout.{Block, link, end_of, IsLayout, alloc}
use unix_p.Dmm.Alloc.{IsAllocation, kmalloc-alloc}
use unix_p.Dmm.Calls.{Reach, start, serve, write_owned, IsSound, kmalloc-IsSound}
use native.Mathlib.Decide.{ℕ_discrete}
use unix_p.Dmm.Merge.{Node}
use unix_p.Dmm.Merged.{has, release, IsMerged}
use unix_p.Dmm.Chain.{IsChain}
use unix_p.Dmm.Free.{Leaves}
use unix_p.Dmm.Search.{kfree-release}
use unix_p.Dmm.Faults.{kmalloc_over_merged, kmalloc_outside}
use unix_p.Dmm.Aligned.{IsAligned, kaligned_alloc-IsAligned}
use unix_p.Dmm.{kaligned_alloc, kmalloc, kfree, merge_blocks}

abbrev free_block_of : ℕ → Block
free_block_of words = record { is_free = true; size = words }

abbrev used_block_of : ℕ → Block
used_block_of words = record { is_free = false; size = words }

-- The words of the headers of three free blocks of 20 words at 1000, 1096 and 1192, and of a used one
-- of 5 words at 1288, which ends at 1324.
abbrev word_at : ℕ → ℕ
word_at a =
    if a == 1000
    then 1096
    else if a == 1096
    then 1192
    else if a == 1192
    then 1288
    else if a == 1008 || a == 1104 || a == 1200
    then 1
    else if a == 1012 || a == 1108 || a == 1204
    then 20
    else if a == 1300
    then 5
    else 0

abbrev blocks : List Block
blocks = free_block_of 20 ∷ free_block_of 20 ∷ free_block_of 20 ∷ used_block_of 5 ∷ []

-- The words in little-endian order.
abbrev heap : Memory
heap a = if a % 4 == 0 then word_at a else if a % 4 == 1 then word_at (a - 1) / 2 ^ 8 else 0

blocks-IsLayout : IsLayout heap 1324 1000 blocks
unfolding load32 read
blocks-IsLayout =
    ((refl, refl, refl), ((refl, refl, refl), ((refl, refl, refl), ((refl, refl, refl), refl))))

kmalloc-alloc_example :
    (m' : Memory) × (kmalloc 5 heap (link 1324 1000) 2 ≡ ok ((alloc 1000 2 blocks).0, m'))
    × IsAllocation heap 1324 1000 blocks ((alloc 1000 2 blocks).1) m'
kmalloc-alloc_example =
    kmalloc-alloc 5 heap 1324 1000 2 blocks blocks-IsLayout (omega arith) (omega arith)
      (omega arith) (omega arith) (omega arith)

kmalloc_over_merged_example :
    (m1 : Memory) × (m2 : Memory) × (merge_blocks 4 heap 1000 ≡ some m1)
    × (load32 m1 1012 ≡ (1288 - 1016) / 4 + 24)
    × (75 + 17 ≡ load32 m1 1012)
    × (kmalloc 4 m1 1000 75 ≡ ok (1000 + 16, m2))
    × (end_of 1000 75 ≡ 1288 + 16 + 12)
kmalloc_over_merged_example =
    kmalloc_over_merged 4 heap 1324 1000 (free_block_of 20) (free_block_of 20) (free_block_of 20)
      (used_block_of 5) [] blocks-IsLayout (omega arith) (omega arith) refl refl refl refl
      (omega arith)

abbrev chain : List Node
chain =
    (1000, free_block_of 20)
    ∷ (1096, free_block_of 20)
    ∷ (1192, free_block_of 20)
    ∷ (1288, used_block_of 5)
    ∷ []

chain-IsChain : IsChain heap 1000 chain
unfolding load32 read
chain-IsChain = (
  refl,
  (omega arith, refl, refl),
  omega arith,
  (
    refl,
    (omega arith, refl, refl),
    omega arith,
    (refl, (omega arith, refl, refl), omega arith, (refl, (omega arith, refl, refl), tt, refl)),
  ),
)

kfree-release_example :
    Leaves (kfree 5 heap 1000 1304) heap 1000 chain (release 1304 chain)
    × (has 1304 chain ≡ true → IsMerged (release 1304 chain))
kfree-release_example = kfree-release 5 heap 1000 1304 chain chain-IsChain (omega arith)

abbrev region : BitmapList
region = record {
  next = none;
  search_next_startblock = 0;
  first_bitmap = 0;
  blocks_count = 0;
  first_block = 0;
}

abbrev empty_pmm : Pmm
empty_pmm = record {
  bitmap_stack = λ i. region;
  bitmap_stack_top = 0;
  firstblock = none;
  m_dyn_total = 0;
  m_dyn_base = 0;
  m_dyn_first_block = 0;
  memory = λ a. 0;
}

abbrev entry : MemblockEntry
entry = record { size = 20; addr = 0x200000; addr_high = 0; len = 0x400000; len_high = 0; type = 1 }

kmalloc_outside_example :
    (m' : Memory) × (kmalloc
        (suc 0)
        ((cut_dynamic entry empty_pmm).1.memory)
        ((cut_dynamic entry empty_pmm).1.m_dyn_first_block)
        262144
      ≡ ok (0x200000 + 16, m'))
    × ((cut_dynamic entry empty_pmm).1.m_dyn_base + (cut_dynamic entry empty_pmm).1.m_dyn_total
        < end_of 0x200000 262144)
kmalloc_outside_example =
    kmalloc_outside 0 entry empty_pmm 262144 (omega arith) refl (omega arith) (omega arith)
      (omega arith)

-- Two words are asked for, and one byte of them is written.
reached : (m : Memory) × Reach 1000 4 heap (write m 1016 7) ((1016, 2) ∷ [])
unfolding alloc
reached =
    let (m, returns, _) =
      kmalloc-alloc 5 heap 1324 1000 2 blocks blocks-IsLayout (omega arith) (omega arith)
        (omega arith) (omega arith) (omega arith) in
    (
      m,
      write_owned
          (serve {fuel = 5} start (omega arith) (omega arith) (omega arith) returns
            (λ h. omega arith))
          (λ a unowned. elim (ℕ_discrete a 1016) [
            | yes here ↦ absurd (unowned (inl (omega arith, omega arith)))
            | no other ↦ ground (arith, read-write m 1016 7 a)
          ]),
    )

kmalloc-IsSound_example : IsSound 1324 1000 4 (write (reached.0) 1016 7) ((1016, 2) ∷ [])
kmalloc-IsSound_example =
    kmalloc-IsSound heap (write (reached.0) 1016 7) 1324 1000 blocks ((1016, 2) ∷ [])
      blocks-IsLayout (omega arith) (omega arith) (omega arith) (reached.1)

kaligned_alloc-IsAligned_example :
    (p : ℕ) × (m' : Memory) × (kaligned_alloc 5 heap 1000 1 2 ≡ ok (p, m')) × IsAligned 2 1 p chain
kaligned_alloc-IsAligned_example =
    kaligned_alloc-IsAligned 5 heap 1000 1 2 chain chain-IsChain (omega arith) (omega arith)
      (omega arith) (omega arith)
