-- ===== src/Dmm/Alloc.antt =====
-- `kmalloc` does on memory what `alloc` does on the list of blocks.
use unix_p.Prelude.{
  ℕ, zero, suc, ◌+◌, ◌-◌, ◌*◌, ◌%◌, ◌^◌, ◌≤◌, ◌<◌, ◌≡◌, refl, sym, ap, subst, ◌∙◌, inl, inr, Bool,
  Bool-cases, true, false, ◌&&◌, not, List, [], ◌∷◌, length, arith, leb, ◌==◌, u32,
}
use unix_p.Prelude.Memory.{Memory, read, load32}
use unix_p.Pmm.{ok}
use unix_p.Dmm.Header.{
  IsHeader-same, make_second-IsHeader, make_second-SameBut, make_third-IsHeader, make_third-SameBut,
}
use unix_p.Dmm.Layout.{
  Block, flag, end_of, link, IsLayout, alloc, InUse, IsLayout-le, IsLayout-same,
}
use unix_p.Dmm.{make_third, make_second, split_block, alloc_loop, kaligned_alloc, kmalloc}

-- What an allocation from `at` on leaves: the new layout, and the bytes in use and before `at` as
-- they were.
abbrev pub IsAllocation : Memory → (end at : ℕ) → List Block → List Block → Memory → Type 0
IsAllocation m end at bs bs' m' =
    IsLayout m' end at bs'
    × ((a : ℕ) → InUse at bs a → read m' a ≡ read m a)
    × ((a : ℕ) → a < at → read m' a ≡ read m a)

pub InUse-above : (at : ℕ) (bs : List Block) (a : ℕ) → InUse at bs a → at + 16 ≤ a
InUse-above at [] a h = absurd h
InUse-above at (b ∷ bs) a (inl h) = omega arith
InUse-above at (b ∷ bs) a (inr h) =
    let further = InUse-above (end_of at b.size) bs a h in omega arith

-- Without an alignment the new block takes the place of the old one.
pub split_block_aligned :
    (m : Memory) (at size : ℕ)
    → split_block m at size 1
      ≡ (at + 16, make_second (make_third m at (end_of at size)) at (end_of at size) size)
unfolding split_block
split_block_aligned m at size =
    let second : (at + 16 + 4 * 1 - 4 - ((at + 16 + 4 * 1 - 4) % 1 + 16)) ≡ at = omega arith in
    let same_block : (at == at) ≡ true = ground arith in rw second (rw same_block refl)

-- The two headers that stand for the block at `at` afterwards.
cut_in_two-IsAllocation :
    (m : Memory) (end at size : ℕ) (b : Block) (bs : List Block)
    → IsLayout m end at (b ∷ bs)
    → end < 2 ^ 32
    → b.is_free ≡ true
    → size + 17 ≤ b.size
    → IsAllocation m end at
        (b ∷ bs)
        (record { is_free = false; size = size }
          ∷ record { is_free = true; size = b.size - (size + 4) }
          ∷ bs)
        (make_second (make_third m at (end_of at size)) at (end_of at size) size)
cut_in_two-IsAllocation m end at size b bs (header, rest) small free fits =
    let behind = IsLayout-le m end (end_of at b.size) bs rest in
    let third = end_of at size in
    let m1 = make_third m at third in
    let m2 = make_second m1 at third size in
    let same_end : end_of third (b.size - (size + 4)) ≡ end_of at b.size = omega arith in
    let linked : link end third ≡ third = ground arith in
    let front = make_second-SameBut m1 at third size in
    let back = make_third-SameBut m at third in
    let second_header = make_second-IsHeader m1 at third size (omega arith) (omega arith) in
    let third_header =
      IsHeader-same m2 m1 third (link end (end_of at b.size)) 1 (b.size - (size + 4))
        (λ k lo hi. front k (inr (omega arith)))
        (make_third-IsHeader m at size b.size (link end (end_of at b.size)) (flag b.is_free) header
          (omega arith) (omega arith)) in
    (
      (
        (second_header.0 ∙ sym linked, second_header.1, second_header.2),
        (
          (
            third_header.0 ∙ ap (λ (t : ℕ). link end t) (sym same_end),
            third_header.1,
            third_header.2,
          ),
          subst (λ (t : ℕ). IsLayout m2 end t bs) (sym same_end)
              (IsLayout-same m2 m end (end_of at b.size) bs
                (λ a lo. front a (inr (omega arith)) ∙ back a (inr (omega arith))) rest),
        ),
      ),
      λ a used. elim used [
        | inl (taken, _, _) ↦ ground arith
        | inr later ↦
            let above = InUse-above (end_of at b.size) bs a later in
            front a (inr (omega arith)) ∙ back a (inr (omega arith))
      ],
      λ a below. front a (inl below) ∙ back a (inl (omega arith)),
    )

-- Whether the block serves.
abbrev pub serves : (size : ℕ) → Block → Bool
serves size b = b.is_free && leb (size + 17) b.size

-- Its test in the code.
tested :
    (m : Memory) (at size : ℕ) (b : Block)
    → load32 m (at + 8) ≡ flag b.is_free
    → load32 m (at + 12) ≡ b.size
    → size + 17 < 2 ^ 32
    → (not (load32 m (at + 8) == 0) && leb (u32 (1 + 16 + size)) (load32 m (at + 12)))
      ≡ serves size b
tested m at size b f s fits =
    let wanted : u32 (1 + 16 + size) ≡ size + 17 = omega arith in rw (f, s, wanted) (ground arith)

pub alloc-serves :
    (at size : ℕ) (b : Block) (bs : List Block)
    → serves size b ≡ true
    → alloc at size (b ∷ bs) ≡ (
      at + 16,
      record { is_free = false; size = size }
          ∷ record { is_free = true; size = b.size - (size + 4) }
          ∷ bs,
    )
unfolding alloc
alloc-serves at size b bs yes_it_does = rw yes_it_does refl

pub alloc_passes :
    (at size : ℕ) (b : Block) (bs : List Block)
    → serves size b ≡ false
    → alloc at size (b ∷ bs)
      ≡ ((alloc (end_of at b.size) size bs).0, b ∷ (alloc (end_of at b.size) size bs).1)
unfolding alloc
alloc_passes at size b bs it_does_not = rw it_does_not refl

pub loop_serves :
    (fuel : ℕ) (m : Memory) (at size : ℕ)
    → (at == 0) ≡ false
    → (not (load32 m (at + 8) == 0) && leb (u32 (1 + 16 + size)) (load32 m (at + 12))) ≡ true
    → alloc_loop (suc fuel) m at size 1 ≡ ok (split_block m at size 1)
unfolding alloc_loop
loop_serves fuel m at size real test = rw (real, test) refl

loop_passes :
    (fuel : ℕ) (m : Memory) (at size : ℕ)
    → (at == 0) ≡ false
    → (not (load32 m (at + 8) == 0) && leb (u32 (1 + 16 + size)) (load32 m (at + 12))) ≡ false
    → alloc_loop (suc fuel) m at size 1 ≡ alloc_loop fuel m (load32 m at) size 1
unfolding alloc_loop
loop_passes fuel m at size real test = rw (real, test) refl

loop_ends : (fuel : ℕ) (m : Memory) (size : ℕ) → alloc_loop (suc fuel) m 0 size 1 ≡ ok (0, m)
unfolding alloc_loop
loop_ends fuel m size = refl

pub alloc_none : (at size : ℕ) → alloc at size [] ≡ (0, [])
unfolding alloc
alloc_none at size = refl

-- What the walk from the block at `at` on returns.
abbrev Allocates : (fuel : ℕ) → Memory → (end at size : ℕ) → List Block → ℕ × List Block → Type 0
Allocates fuel m end at size bs result =
    (m' : Memory) × (alloc_loop fuel m (link end at) size 1 ≡ ok (result.0, m'))
    × IsAllocation m end at bs result.1 m'

alloc_loop-alloc :
    (bs : List Block) (fuel : ℕ) (m : Memory) (end at size : ℕ)
    → IsLayout m end at bs
    → 0 < at
    → end < 2 ^ 32
    → size + 17 < 2 ^ 32
    → length bs < fuel
    → Allocates fuel m end at size bs (alloc at size bs)
alloc_loop-alloc [] zero m end at size layout real small fits enough = absurd (omega arith)
alloc_loop-alloc (_ ∷ _) zero m end at size layout real small fits enough = absurd (omega arith)
alloc_loop-alloc [] (suc fuel) m end at size layout real small fits enough =
    let null : link end at ≡ 0 = ground arith in
    subst (λ (r : ℕ × List Block). Allocates (suc fuel) m end at size [] r)
      (sym (alloc_none at size))
      (
        m,
        ap (λ (p : ℕ). alloc_loop (suc fuel) m p size 1) null ∙ loop_ends fuel m size,
        (layout, λ a used. refl, λ a below. refl),
      )
alloc_loop-alloc (b ∷ bs) (suc fuel) m end at size ((n, f, s), rest) real small fits enough =
    let behind = IsLayout-le m end (end_of at b.size) bs rest in
    let here : link end at ≡ at = ground arith in
    let start = ap (λ (p : ℕ). alloc_loop (suc fuel) m p size 1) here in
    let some_block : (at == 0) ≡ false = ground arith in
    let test = tested m at size b f s fits in
    elim (Bool-cases (serves size b)) [
      | inl takes ↦
          let cut =
            cut_in_two-IsAllocation m end at size b bs ((n, f, s), rest) small (ground arith)
              (ground arith) in
          subst (λ (r : ℕ × List Block). Allocates (suc fuel) m end at size (b ∷ bs) r)
            (sym (alloc-serves at size b bs takes))
            (
              make_second (make_third m at (end_of at size)) at (end_of at size) size,
              start
                  ∙ loop_serves fuel m at size some_block (test ∙ takes)
                  ∙ ap (λ (r : ℕ × Memory). ok r) (split_block_aligned m at size),
              cut,
            )
      | inr passes ↦
          let (m', returns, (layout', used', below')) =
            alloc_loop-alloc bs fuel m end (end_of at b.size) size rest (omega arith) small fits
              (omega arith) in
          subst (λ (r : ℕ × List Block). Allocates (suc fuel) m end at size (b ∷ bs) r)
            (sym (alloc_passes at size b bs passes))
            (
              m',
              start
                  ∙ loop_passes fuel m at size some_block (test ∙ passes)
                  ∙ ap (λ (p : ℕ). alloc_loop fuel m p size 1) n
                  ∙ returns,
              (
                (
                  IsHeader-same m' m at (link end (end_of at b.size)) (flag b.is_free) b.size
                      (λ k lo hi. below' k (omega arith)) (n, f, s),
                  layout',
                ),
                λ a used. elim used [
                  | inl (_, _, inside) ↦ below' a inside
                  | inr later ↦ used' a later
                ],
                λ a below. below' a (omega arith),
              ),
            )
    ]

-- `kmalloc` of a size from 1 to 2 ^ 32 - 18, on memory that holds a list of blocks one behind the
-- other, ends on more rounds than blocks. It returns what `alloc` returns on the list: the data of the
-- first free block of at least size + 17 words, which is cut in two, or NULL. The memory then holds
-- the list that `alloc` leaves, and no byte of a block in use, nor any before the blocks, has changed.
pub kmalloc-alloc :
    (fuel : ℕ) (m : Memory) (end first size : ℕ) (bs : List Block)
    → IsLayout m end first bs
    → 0 < first
    → end < 2 ^ 32
    → 0 < size
    → size + 17 < 2 ^ 32
    → length bs < fuel
    → (m' : Memory) × (kmalloc fuel m (link end first) size ≡ ok ((alloc first size bs).0, m'))
      × IsAllocation m end first bs ((alloc first size bs).1) m'
unfolding kmalloc kaligned_alloc
kmalloc-alloc fuel m end first size bs layout real small wanted fits enough =
    let (m', returns, allocation) =
      alloc_loop-alloc bs fuel m end first size layout real small fits enough in
    let some_words : (size == 0) ≡ false = ground arith in (m', rw some_words returns, allocation)
