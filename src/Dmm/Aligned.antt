-- ===== src/Dmm/Aligned.antt =====
-- Where `kaligned_alloc` puts the data.
use unix_p.Prelude.{
  ℕ, zero, suc, ◌+◌, ◌-◌, ◌*◌, ◌%◌, ◌/◌, ◌^◌, ◌≤◌, ◌<◌, ◌≡◌, refl, ap, ◌∙◌, ◌⊎◌, inl, inr,
  Bool-cases, true, false, ◌&&◌, not, List, [], ◌∷◌, length, arith, leb, ◌==◌, u32,
}
use unix_p.Prelude.Memory.{Memory, load32}
use native.Mathlib.Nat.{div-add-mod, mod-lt, mul-mod_left}
use unix_p.Pmm.{Outcome, ok}
use unix_p.Dmm.Layout.{end_of}
use unix_p.Dmm.Merge.{Node}
use unix_p.Dmm.Chain.{IsChain}
use unix_p.Dmm.{split_block, alloc_loop, kaligned_alloc}

-- The `size` words at `p`, and a header behind them, lie in the data of a free block.
abbrev pub Inside : (size p : ℕ) → List Node → Type 0
Inside size p [] = ⊥
Inside size p ((a, b) ∷ bs) =
    ((b.is_free ≡ true) × (a + 16 ≤ p) × (p + 4 * size + 16 ≤ end_of a b.size)) ⊎ Inside size p bs

-- NULL, or an aligned address of `size` words in a free block.
abbrev pub IsAligned : (alignment size p : ℕ) → List Node → Type 0
IsAligned alignment size p bs = (p ≡ 0) ⊎ ((p % alignment ≡ 0) × Inside size p bs)

round_down-mod : (x n : ℕ) → (x - x % n) % n ≡ 0
round_down-mod x n =
    let same : x - x % n ≡ x / n * n = omega (arith, div-add-mod x n) in
    ap (λ (y : ℕ). y % n) same ∙ mul-mod_left (x / n) n

split_block-address :
    (m : Memory) (block size alignment : ℕ)
    → 0 < alignment
    → let x = block + 16 + 4 * alignment - 4 in
      ((split_block m block size alignment).0 ≡ x - x % alignment)
      × (block + 16 ≤ x - x % alignment)
      × (x - x % alignment + 4 ≤ block + 16 + 4 * alignment)
unfolding split_block
split_block-address m block size alignment positive =
    let x = block + 16 + 4 * alignment - 4 in
    let below = mod-lt x positive in (omega arith, omega arith, omega arith)

loop_serves :
    (fuel : ℕ) (m : Memory) (at size alignment : ℕ)
    → (at == 0) ≡ false
    → (alignment == 0) ≡ false
    → (not (load32 m (at + 8) == 0) && leb (u32 (alignment + 16 + size)) (load32 m (at + 12)))
      ≡ true
    → alloc_loop (suc fuel) m at size alignment ≡ ok (split_block m at size alignment)
unfolding alloc_loop
loop_serves fuel m at size alignment real positive test = rw (real, test, positive) refl

loop_passes :
    (fuel : ℕ) (m : Memory) (at size alignment : ℕ)
    → (at == 0) ≡ false
    → (not (load32 m (at + 8) == 0) && leb (u32 (alignment + 16 + size)) (load32 m (at + 12)))
      ≡ false
    → alloc_loop (suc fuel) m at size alignment ≡ alloc_loop fuel m (load32 m at) size alignment
unfolding alloc_loop
loop_passes fuel m at size alignment real test = rw (real, test) refl

loop_ends :
    (fuel : ℕ) (m : Memory) (size alignment : ℕ)
    → alloc_loop (suc fuel) m 0 size alignment ≡ ok (0, m)
unfolding alloc_loop
loop_ends fuel m size alignment = refl

-- What a call returns.
abbrev Returns : Outcome (ℕ × Memory) → (alignment size : ℕ) → List Node → Type 0
Returns call alignment size bs =
    (p : ℕ) × (m' : Memory) × (call ≡ ok (p, m')) × IsAligned alignment size p bs

alloc_loop-Returns :
    (bs : List Node) (fuel : ℕ) (m : Memory) (at size alignment : ℕ)
    → IsChain m at bs
    → 0 < alignment
    → alignment + 16 + size < 2 ^ 32
    → length bs < fuel
    → Returns (alloc_loop fuel m at size alignment) alignment size bs
alloc_loop-Returns bs zero m at size alignment chain positive fits enough = absurd (omega arith)
alloc_loop-Returns [] (suc fuel) m at size alignment chain positive fits enough = (
  0,
  m,
  ap (λ (q : ℕ). alloc_loop (suc fuel) m q size alignment) chain ∙ loop_ends fuel m size alignment,
  inl refl,
)
alloc_loop-Returns ((a, b) ∷ bs) (suc fuel) m at size alignment (here, (real, f, s), _, rest)
      positive fits enough =
    let start = ap (λ (q : ℕ). alloc_loop (suc fuel) m q size alignment) here in
    let some_block : (a == 0) ≡ false = ground arith in
    elim (Bool-cases
      (not (load32 m (a + 8) == 0) && leb (u32 (alignment + 16 + size)) (load32 m (a + 12)))) [
        | inl serves ↦
            let some_alignment : (alignment == 0) ≡ false = ground arith in
            let (address, low, high) = split_block-address m a size alignment positive in
            let x = a + 16 + 4 * alignment - 4 in
            let free : b.is_free ≡ true = ground arith in
            let wanted : alignment + 16 + size ≤ b.size = ground arith in
            (
              (split_block m a size alignment).0,
              (split_block m a size alignment).1,
              start ∙ loop_serves fuel m a size alignment some_block some_alignment serves,
              inr (
                ap (λ (y : ℕ). y % alignment) address ∙ round_down-mod x alignment,
                inl (free, omega arith, omega arith),
              ),
            )
        | inr passes ↦
            let (p, m', returns, aligned) =
              alloc_loop-Returns bs fuel m (load32 m a) size alignment rest positive fits
                (omega arith) in
            (
              p,
              m',
              start ∙ loop_passes fuel m a size alignment some_block passes ∙ returns,
              elim aligned [
                | inl null ↦ inl null
                | inr (multiple, inside) ↦ inr (multiple, inr inside)
              ],
            )
      ]

-- `kaligned_alloc` of one word or more at an alignment of 1 or more, whose sum with 16 is below 2 ^ 32,
-- on memory in which the `next` pointers lead through a list of blocks, ends on more rounds than blocks;
-- it returns NULL, or a multiple of the alignment, of which the words, and a header behind them, lie in
-- the data of a block that was free.
pub kaligned_alloc-IsAligned :
    (fuel : ℕ) (m : Memory) (first size alignment : ℕ) (bs : List Node)
    → IsChain m first bs
    → 0 < size
    → 0 < alignment
    → alignment + 16 + size < 2 ^ 32
    → length bs < fuel
    → (p : ℕ) × (m' : Memory) × (kaligned_alloc fuel m first size alignment ≡ ok (p, m'))
      × IsAligned alignment size p bs
unfolding kaligned_alloc
kaligned_alloc-IsAligned fuel m first size alignment bs chain wanted positive fits enough =
    let some_words : (size == 0) ≡ false = ground arith in
    rw some_words (alloc_loop-Returns bs fuel m first size alignment chain positive fits enough)
