-- ===== src/Dmm/Faults.antt =====
-- Where the allocator hands out memory that it does not own.
use unix_p.Prelude.{
  ℕ, zero, suc, ◌/◌, ◌-◌, ◌+◌, ◌-◌, ◌*◌, ◌^◌, ◌≤◌, ◌<◌, ◌≡◌, refl, sym, ap, subst, ◌∙◌, true, false,
  ◌&&◌, not, some, List, [], ◌∷◌, length, arith, leb, ◌==◌, if_true, if_false, u32,
}
use unix_p.Prelude.Memory.{Memory, load32, store32, load32-store32_self, load32-store32_ne}
use unix_p.Pmm.{ok, MemblockEntry, Pmm, mem_dynamic_min_size, mem_block_size}
use unix_p.Pmm.Block.{block_addstart}
use unix_p.Pmm.Init.{cut_dynamic}
use unix_p.Dmm.Layout.{Block, flag, end_of, link, IsLayout, IsLayout-le}
use unix_p.Dmm.Merge.{Node, Run, grow, coalesce, coalesce_free, coalesce_taken}
use unix_p.Dmm.Chain.{Above, IsChain}
use unix_p.Dmm.Runs.{merge_loop-coalesce}
use unix_p.Dmm.Alloc.{loop_serves, split_block_aligned}
use unix_p.Dmm.{make_second, make_third, merge_loop, merge_blocks, kaligned_alloc, kmalloc}

-- The blocks of a layout with the addresses of their headers.
unfoldable pub nodes : (at : ℕ) → List Block → List Node
nodes at [] = []
nodes at (b ∷ bs) = (at, b) ∷ nodes (end_of at b.size) bs

-- A layout is a chain.
pub IsLayout-IsChain :
    (bs : List Block) (m : Memory) (end at low : ℕ)
    → IsLayout m end at bs
    → 0 < at
    → low ≤ at
    → IsChain m (link end at) (nodes at bs) × Above low (nodes at bs)
unfolding nodes
IsLayout-IsChain [] m end at low layout real le =
    let null : link end at ≡ 0 = ground arith in (null, tt)
IsLayout-IsChain (b ∷ bs) m end at low ((n, f, s), rest) real le =
    let behind = IsLayout-le m end (end_of at b.size) bs rest in
    let here : link end at ≡ at = ground arith in
    let (chain, above) =
      IsLayout-IsChain bs m end (end_of at b.size) (at + 16) rest (omega arith) (omega arith) in
    (
      (
        here,
        (real, f, s),
        above,
        subst (λ (p : ℕ). IsChain m p (nodes (end_of at b.size) bs)) (sym n) chain,
      ),
      le,
    )

-- `kmalloc` takes the block that it looks at, whatever its test wraps to.
takes_first :
    (fuel : ℕ) (m : Memory) (at size : ℕ)
    → 0 < at
    → 0 < size
    → load32 m (at + 8) ≡ 1
    → u32 (1 + 16 + size) ≤ load32 m (at + 12)
    → kmalloc (suc fuel) m at size
      ≡ ok (at + 16, make_second (make_third m at (end_of at size)) at (end_of at size) size)
unfolding kmalloc kaligned_alloc
takes_first fuel m at size real wanted free fits =
    let some_words : (size == 0) ≡ false = ground arith in
    let some_block : (at == 0) ≡ false = ground arith in
    let test : (not (load32 m (at + 8) == 0) && leb (u32 (1 + 16 + size)) (load32 m (at + 12)))
        ≡ true =
      ground arith in
    rw some_words (
      loop_serves fuel m at size some_block test
      ∙ ap (λ (r : ℕ × Memory). ok r) (split_block_aligned m at size))

-- `kmalloc` of a size within 17 of 2 ^ 32 does not return NULL: the sum that it tests wraps, and a free
-- block serves that is far smaller, so that the data would end behind the last address.
kmalloc_wraps :
    (fuel : ℕ) (m : Memory) (end at size : ℕ) (b : Block) (bs : List Block)
    → IsLayout m end at (b ∷ bs)
    → 0 < at
    → b.is_free ≡ true
    → 2 ^ 32 ≤ size + 17
    → size < 2 ^ 32
    → size + 17 ≤ b.size + 2 ^ 32
    → (m' : Memory) × (kmalloc (suc fuel) m at size ≡ ok (at + 16, m'))
      × (2 ^ 32 < at + 16 + 4 * size)
kmalloc_wraps fuel m end at size b bs ((n, f, s), rest) real free high below fits = (
  make_second (make_third m at (end_of at size)) at (end_of at size) size,
  takes_first fuel m at size real (omega arith) (ground arith) (omega arith),
  omega arith,
)

-- The run of three free blocks in front of one in use, merged.
run_of_three :
    (at : ℕ) (b c d e : Block) (bs : List Block)
    → c.is_free ≡ true
    → d.is_free ≡ true
    → e.is_free ≡ false
    → (coalesce b (nodes (end_of at b.size) (c ∷ d ∷ e ∷ bs))).0 ≡ grow (grow b c) d
unfolding nodes
run_of_three at b c d e bs free_c free_d taken =
    let at_c = end_of at b.size in
    let at_d = end_of at_c c.size in
    let at_e = end_of at_d d.size in
    let rest = nodes (end_of at_e e.size) bs in
    ap (λ (r : Run). r.0)
      (coalesce_free b at_c c ((at_d, d) ∷ (at_e, e) ∷ rest) free_c
        ∙ coalesce_free (grow b c) at_d d ((at_e, e) ∷ rest) free_d
        ∙ coalesce_taken (grow (grow b c) d) at_e e rest taken)

length-nodes : (bs : List Block) (at : ℕ) → length (nodes at bs) ≡ length bs
unfolding nodes
length-nodes [] at = refl
length-nodes (b ∷ bs) at = let rest = length-nodes bs (end_of at b.size) in omega arith

short :
    (b c d e : Block) (bs : List Block) (at fuel : ℕ)
    → length bs + 3 < suc fuel
    → length (nodes at (c ∷ d ∷ e ∷ bs)) < suc fuel
short b c d e bs at fuel enough = let same = length-nodes (c ∷ d ∷ e ∷ bs) at in omega arith

-- When three free blocks in front of one in use are merged, on more rounds than blocks behind the
-- first, their block's size counts 24 words more than there are up to the next header. `kmalloc` of
-- the largest size that the block then passes the test for, 17 words less, returns data that reach 12
-- bytes into the data of the block in use, over its header.
pub kmalloc_over_merged :
    (fuel : ℕ) (m : Memory) (end at : ℕ) (b c d e : Block) (bs : List Block)
    → IsLayout m end at (b ∷ c ∷ d ∷ e ∷ bs)
    → 0 < at
    → end < 2 ^ 32
    → b.is_free ≡ true
    → c.is_free ≡ true
    → d.is_free ≡ true
    → e.is_free ≡ false
    → length bs + 3 < fuel
    → let at_e = end_of (end_of (end_of at b.size) c.size) d.size in
      let size = b.size + c.size + d.size + 15 in
      (m1 : Memory) × (m2 : Memory) × (merge_blocks fuel m at ≡ some m1)
      × (load32 m1 (at + 12) ≡ (at_e - (at + 16)) / 4 + 24)
      × (size + 17 ≡ load32 m1 (at + 12))
      × (kmalloc fuel m1 at size ≡ ok (at + 16, m2))
      × (end_of at size ≡ at_e + 16 + 12)
unfolding merge_blocks nodes
kmalloc_over_merged zero m end at b c d e bs layout real small fb fc fd te enough =
    absurd (omega arith)
kmalloc_over_merged (suc fuel) m end at b c d e bs layout real small fb fc fd te enough =
    let at_b = end_of at b.size in
    let at_e = end_of (end_of at_b c.size) d.size in
    let size = b.size + c.size + d.size + 15 in
    let ((n, f, s), (_, (_, (_, rest)))) = layout in
    let behind = IsLayout-le m end (end_of at_e e.size) bs rest in
    let (chain, _) = IsLayout-IsChain (b ∷ c ∷ d ∷ e ∷ bs) m end at 0 layout real (omega arith) in
    let here : link end at ≡ at = ground arith in
    let run = nodes at_b (c ∷ d ∷ e ∷ bs) in
    let (m1, merged, (_, (_, f1, s1), _, _), _) =
      merge_loop-coalesce run (suc fuel) m at b
        (subst (λ (p : ℕ). IsChain m p ((at, b) ∷ run)) here chain)
        (short b c d e bs at_b fuel enough) in
    let test : (load32 m (at + 8) == 0) ≡ false = ground arith in
    let three = run_of_three at b c d e bs fc fd te in
    let free1 : load32 m1 (at + 8) ≡ 1 =
      f1 ∙ ap (λ (t : Block). flag t.is_free) three ∙ ap flag fb in
    let size1 : load32 m1 (at + 12) ≡ b.size + c.size + d.size + 32 =
      s1 ∙ ap (λ (t : Block). t.size) three ∙ omega arith in
    (
      m1,
      make_second (make_third m1 at (end_of at size)) at (end_of at size) size,
      if_false (load32 m (at + 8) == 0) (some m) (merge_loop (suc fuel) m at) test ∙ merged,
      size1 ∙ omega arith,
      omega arith,
      takes_first fuel m1 at size real (omega arith) free1 (omega arith),
      omega arith,
    )

-- What `cut_dynamic` leaves when it makes the first block.
abbrev first_block : MemblockEntry → Pmm → MemblockEntry × Pmm
first_block block s = (
  block_addstart block mem_dynamic_min_size,
  record s {
    m_dyn_base = block.addr;
    m_dyn_total = mem_dynamic_min_size;
    m_dyn_first_block = block.addr;
    memory =
        store32
          (store32 (store32 s.memory (block.addr + 8) 1) (block.addr + 12)
            (mem_dynamic_min_size - mem_block_size))
          block.addr 0;
  },
)

cut_dynamic_first :
    (block : MemblockEntry) (s : Pmm)
    → (leb mem_dynamic_min_size block.len && s.m_dyn_first_block == 0) ≡ true
    → cut_dynamic block s ≡ first_block block s
unfolding cut_dynamic
cut_dynamic_first block s cuts =
    if_true (leb mem_dynamic_min_size block.len && s.m_dyn_first_block == 0) (first_block block s)
      (block, s) cuts

-- The first block that `cut_dynamic` makes, of an entry not at 0 with a megabyte or more, counts the
-- bytes of its megabyte as words: `kmalloc` of more than 2 ^ 18 - 4 and up to 2 ^ 20 - 33 of them
-- returns data that end behind the megabyte.
pub kmalloc_outside :
    (fuel : ℕ) (block : MemblockEntry) (s : Pmm) (size : ℕ)
    → 2 ^ 20 ≤ block.len
    → s.m_dyn_first_block ≡ 0
    → 0 < block.addr
    → 2 ^ 18 < size + 4
    → size + 33 ≤ 2 ^ 20
    → let s' = (cut_dynamic block s).1 in
      (m' : Memory) × (kmalloc (suc fuel) s'.memory s'.m_dyn_first_block size
        ≡ ok (block.addr + 16, m'))
      × (s'.m_dyn_base + s'.m_dyn_total < end_of block.addr size)
kmalloc_outside fuel block s size long none_yet real large fits =
    let base = block.addr in
    let m1 = store32 s.memory (base + 8) 1 in
    let m2 = store32 m1 (base + 12) (2 ^ 20 - 16) in
    let m3 = store32 m2 base 0 in
    let free : load32 m3 (base + 8) ≡ 1 =
      load32-store32_ne m2 base 0 (base + 8) (omega arith)
      ∙ load32-store32_ne m1 (base + 12) (2 ^ 20 - 16) (base + 8) (omega arith)
      ∙ load32-store32_self s.memory (base + 8) 1 (omega arith) in
    let sized : load32 m3 (base + 12) ≡ 2 ^ 20 - 16 =
      load32-store32_ne m2 base 0 (base + 12) (omega arith)
      ∙ load32-store32_self m1 (base + 12) (2 ^ 20 - 16) (omega arith) in
    subst
      (λ (r : MemblockEntry × Pmm).
        (m' : Memory) × (kmalloc (suc fuel) r.1.memory r.1.m_dyn_first_block size
          ≡ ok (base + 16, m'))
        × (r.1.m_dyn_base + r.1.m_dyn_total < end_of base size))
      (sym (cut_dynamic_first block s (ground arith)))
      (
        make_second (make_third m3 base (end_of base size)) base (end_of base size) size,
        takes_first fuel m3 base size real (omega arith) free (omega arith),
        omega arith,
      )
