-- ===== src/Pmm/Init/Place.antt =====
-- The second half of `mm_initmemblock`: what the region looks like that is made of a block.
use unix_p.Prelude.{
  ℕ, ◌+◌, ◌-◌, ◌*◌, ◌/◌, ◌%◌, ◌^◌, ◌≤◌, ◌<◌, ◌≡◌, refl, ap, ◌≢◌, false, Option, none, some, arith,
  leb, Bool-cases, inl, inr, u32,
}
use unix_p.Prelude.Memory.{Memory, read}
use unix_p.Tools.Fill.{tmemset, read-tmemset}
use unix_p.Pmm.{
  BitmapList, MemblockEntry, Pmm, Outcome, ok, fault, out_of_fuel, set_entry, block_size, page_size,
  bitmap_stack_size, mem_block_reserved,
}
use unix_p.Pmm.Sizes.{align_up, align_up_lem, calc_blocks_and_bitmaps-IsLargest, Fits}
use unix_p.Pmm.Block.{block_setstart, block_setstart-up}
use unix_p.Pmm.Alloc.{repeatcount}
use unix_p.Pmm.Init.{alloc_bitmap_list, new_region, make_region, place_region}

-- The first page boundary from `a` on.
abbrev pub page_up : ℕ → ℕ
page_up a = (a + page_size - 1) / page_size * page_size

-- The region starts at the first page from `lo` on, its bitmap follows its frames, both lie below
-- `hi`, no more frames would fit, and everything there is cleared: all its frames are free.
pub record IsRegion (lo hi : ℕ) (e : BitmapList) (m : Memory) : Type 0 where
  pub starts : e.first_block ≡ page_up lo
  pub bitmap : e.first_bitmap ≡ e.first_block + e.blocks_count * block_size
  pub inside : e.first_bitmap + 4 * repeatcount e ≤ hi
  pub largest : (c : ℕ) → Fits (hi - e.first_block) c → c ≤ e.blocks_count
  pub cleared : (x : ℕ) → e.first_block ≤ x → x < hi → read m x ≡ 0
  pub unlinked : e.next ≡ none
  pub fresh : e.search_next_startblock ≡ 0

-- The region is entry `i` of the stack, the next one, and the other entries are kept.
pub record IsPushed (s s' : Pmm) (i : ℕ) : Type 0 where
  pub index : i ≡ s.bitmap_stack_top
  pub top : s'.bitmap_stack_top ≡ i + 1
  pub others : (j : ℕ) → j ≢ i → s'.bitmap_stack j ≡ s.bitmap_stack j
  pub first : s'.firstblock ≡ elim s.firstblock [ none ↦ some i | some f ↦ some f ]
  pub dynamic : s'.m_dyn_first_block ≡ s.m_dyn_first_block

abbrev pub IsPlaced : (lo hi : ℕ) → Pmm → Outcome (Option ℕ × MemblockEntry × Pmm) → Type 0
IsPlaced lo hi s (ok (some i, b', s')) =
    IsPushed s s' i
    × IsRegion lo hi (s'.bitmap_stack i) s'.memory
    × ((x : ℕ) → x < page_up lo → read s'.memory x ≡ read s.memory x)
IsPlaced lo hi s (ok (none, b', s')) = (hi ≤ page_up lo) × (b'.type ≡ mem_block_reserved) × (s' ≡ s)
IsPlaced lo hi s fault = ⊥
IsPlaced lo hi s out_of_fuel = ⊥

set_entry_self : (stack : ℕ → BitmapList) (i : ℕ) (e : BitmapList) → set_entry stack i e i ≡ e
set_entry_self stack i e = ground arith

set_entry-ne :
    (stack : ℕ → BitmapList) {i j : ℕ} (e : BitmapList) → j ≢ i → set_entry stack i e j ≡ stack j
set_entry-ne stack e ne = ground arith

alloc_bitmap_list-some :
    (s : Pmm)
    → s.bitmap_stack_top < bitmap_stack_size
    → alloc_bitmap_list s
      ≡ (some s.bitmap_stack_top, record s { bitmap_stack_top = s.bitmap_stack_top + 1 })
unfolding alloc_bitmap_list
alloc_bitmap_list-some s room =
    let free : leb 32 s.bitmap_stack_top ≡ false = ground arith in rw free

make_region-ok :
    (b : MemblockEntry) (s : Pmm)
    → 4 ≤ b.len
    → b.len + 2 ^ 17 < 2 ^ 32
    → s.bitmap_stack_top < bitmap_stack_size
    → (blocks : ℕ) × (make_region b s
        ≡ ok (
          some s.bitmap_stack_top,
          b,
          record s {
            bitmap_stack = set_entry s.bitmap_stack s.bitmap_stack_top (new_region b blocks);
            firstblock = elim s.firstblock [ none ↦ some s.bitmap_stack_top | some f ↦ some f ];
            bitmap_stack_top = s.bitmap_stack_top + 1;
          },
        ))
      × Fits b.len blocks
      × ((c : ℕ) → Fits b.len c → c ≤ blocks)
unfolding make_region
make_region-ok b s low high room =
    let (blocks, result, fits, most) = calc_blocks_and_bitmaps-IsLargest b.len low high in
    let pushed = alloc_bitmap_list-some s room in
    (
      blocks,
      rw (
        result,
        make_region,
        ap (λ (r : Option ℕ × Pmm). r.0) pushed,
        ap (λ (r : Option ℕ × Pmm). r.1) pushed,
      ),
      fits,
      most,
    )

module _ (s : Pmm) (addr hi : ℕ) (b : MemblockEntry) (ends : b.addr + b.len ≡ hi)
    (aligned : b.addr ≡ page_up addr) (low : 2 ^ 17 ≤ b.addr) (high : hi < 2 ^ 32)
    (some_left : 4 ≤ b.len) (room : s.bitmap_stack_top < bitmap_stack_size) where
  abbrev zeroed : Pmm
  zeroed = record s { memory = tmemset s.memory b.addr 0 b.len }

  new_region-IsRegion :
      (blocks : ℕ)
      → Fits b.len blocks
      → ((c : ℕ) → Fits b.len c → c ≤ blocks)
      → IsRegion addr hi (new_region b blocks) zeroed.memory
  new_region-IsRegion blocks fits most =
      let len : hi - b.addr ≡ b.len = omega arith in
      record {
        starts = aligned;
        bitmap = omega arith;
        inside = omega arith;
        largest = rw len most;
        cleared = λ x from to. ground (arith, read-tmemset s.memory b.addr 0 b.len x);
        unlinked = refl;
        fresh = refl;
      }

  make_region-IsPlaced : IsPlaced addr hi s (make_region b zeroed)
  make_region-IsPlaced =
      let (blocks, result, fits, most) = make_region-ok b zeroed some_left (omega arith) room in
      let top = s.bitmap_stack_top in
      let self : set_entry s.bitmap_stack top (new_region b blocks) top ≡ new_region b blocks =
        set_entry_self s.bitmap_stack top (new_region b blocks) in
      rw result (
        record {
          index = refl;
          top = refl;
          others = λ j ne. set_entry-ne s.bitmap_stack (new_region b blocks) ne;
          first = refl;
          dynamic = refl;
        },
        rw self (new_region-IsRegion blocks fits most),
        λ x below. ground (arith, read-tmemset s.memory b.addr 0 b.len x),
      )

pub place_region-IsPlaced :
    (b : MemblockEntry) (s : Pmm) (hi : ℕ)
    → b.addr + b.len ≡ hi
    → 2 ^ 17 ≤ b.addr
    → hi + page_size < 2 ^ 32
    → hi % 4 ≡ 0
    → b.addr ≤ hi
    → s.bitmap_stack_top < bitmap_stack_size
    → IsPlaced b.addr hi s (place_region b s)
unfolding place_region
place_region-IsPlaced b s hi ends low high whole below room =
    let up : align_up b.addr page_size ≡ page_up b.addr =
      align_up_lem b.addr page_size (omega arith) (omega arith) in
    let end : u32 (b.addr + b.len) ≡ hi = omega arith in
    rw (up, end)
      (elim (Bool-cases (leb hi (page_up b.addr))) [
        | inl none_left ↦ rw none_left (ground arith, refl, refl)
        | inr left ↦
            let fits : page_up b.addr < hi = ground arith in
            let start =
              block_setstart-up b (page_up b.addr) (record { in_range = omega arith }) (omega arith)
                (omega arith) (omega arith) in
            rw left (
              make_region-IsPlaced s b.addr hi (block_setstart b (page_up b.addr))
                (omega (arith, start.0, start.1)) start.0 (omega (arith, start.0)) (omega arith)
                (omega (arith, start.0, start.1)) room)
      ])
