-- ===== src/Dmm/Merge.antt =====
-- Merging on the list of blocks: what `merge_blocks` does to one run of free blocks, and the walk of
-- `kfree` to all of them.
use unix_p.Prelude.{
  ℕ, ◌+◌, ◌≤◌, ◌<◌, ◌≡◌, refl, sym, ap, subst, ◌∙◌, ◌⊎◌, inl, inr, Bool-cases, true, false, ◌&&◌,
  List, [], ◌∷◌, ◌++◌, length, arith, if◌then◌else◌, if_true, if_false, u32,
}
use unix_p.Dmm.Layout.{Block}

-- A block and the address of its header.
abbrev pub Node : Type 0
Node = ℕ × Block

-- The block with the next one added; the code adds 16 for the header of four words.
abbrev pub grow : Block → Block → Block
grow b c = record { is_free = b.is_free; size = u32 (b.size + (c.size + 16)) }

abbrev pub freed : Block → Block
freed b = record { is_free = true; size = b.size }

-- A block with the free ones behind it added, and what is left.
unfoldable pub coalesce : Block → List Node → Block × List Node
coalesce b [] = (b, [])
coalesce b ((a, c) ∷ bs) = if c.is_free then coalesce (grow b c) bs else (b, (a, c) ∷ bs)

-- The block at `a` absorbs the free ones behind it if it is free, and so on behind them.
unfoldable pub sweep : (a : ℕ) → Block → List Node → List Node
sweep a b [] = (a, b) ∷ []
sweep a b ((a', c) ∷ bs) =
    if b.is_free && c.is_free then sweep a (grow b c) bs else (a, b) ∷ sweep a' c bs

unfoldable pub merge_all : List Node → List Node
unfolding sweep
merge_all [] = []
merge_all ((a, b) ∷ bs) = sweep a b bs

-- What `merge_blocks` makes of the block at `a`.
abbrev pub touch : (a : ℕ) → Block → List Node → List Node
touch a b bs = if b.is_free then (a, (coalesce b bs).0) ∷ (coalesce b bs).1 else (a, b) ∷ bs

pub coalesce_none : (b : Block) → coalesce b [] ≡ (b, [])
unfolding coalesce
coalesce_none b = refl

pub coalesce_free :
    (b : Block) (a : ℕ) (c : Block) (bs : List Node)
    → c.is_free ≡ true
    → coalesce b ((a, c) ∷ bs) ≡ coalesce (grow b c) bs
unfolding coalesce
coalesce_free b a c bs free = if_true c.is_free (coalesce (grow b c) bs) (b, (a, c) ∷ bs) free

pub coalesce_taken :
    (b : Block) (a : ℕ) (c : Block) (bs : List Node)
    → c.is_free ≡ false
    → coalesce b ((a, c) ∷ bs) ≡ (b, (a, c) ∷ bs)
unfolding coalesce
coalesce_taken b a c bs taken = if_false c.is_free (coalesce (grow b c) bs) (b, (a, c) ∷ bs) taken

pub sweep_on :
    (a : ℕ) (b : Block) (a' : ℕ) (c : Block) (bs : List Node)
    → b.is_free ≡ true
    → c.is_free ≡ true
    → sweep a b ((a', c) ∷ bs) ≡ sweep a (grow b c) bs
unfolding sweep
sweep_on a b a' c bs free next =
    if_true (b.is_free && c.is_free) (sweep a (grow b c) bs) ((a, b) ∷ sweep a' c bs) (ground arith)

pub sweep_stop :
    (a : ℕ) (b : Block) (a' : ℕ) (c : Block) (bs : List Node)
    → (b.is_free && c.is_free) ≡ false
    → sweep a b ((a', c) ∷ bs) ≡ (a, b) ∷ sweep a' c bs
unfolding sweep
sweep_stop a b a' c bs apart =
    if_false (b.is_free && c.is_free) (sweep a (grow b c) bs) ((a, b) ∷ sweep a' c bs) apart

pub coalesce-length : (b : Block) (bs : List Node) → length ((coalesce b bs).1) ≤ length bs
unfolding coalesce
coalesce-length b [] = omega arith
coalesce-length b ((a, c) ∷ bs) = ground (arith, coalesce-length (grow b c) bs)

pub sweep_used :
    (a : ℕ) (b : Block) (bs : List Node) → b.is_free ≡ false → sweep a b bs ≡ (a, b) ∷ merge_all bs
unfolding sweep merge_all
sweep_used a b [] taken = refl
sweep_used a b ((a', c) ∷ bs) taken = sweep_stop a b a' c bs (ground arith)

-- The list that a run of free blocks leaves.
abbrev pub Run : Type 0
Run = Block × List Node

-- The run that begins with a free block is merged whole.
pub sweep-coalesce :
    (a : ℕ) (b : Block) (bs : List Node)
    → b.is_free ≡ true
    → sweep a b bs ≡ (a, (coalesce b bs).0) ∷ merge_all ((coalesce b bs).1)
unfolding merge_all sweep coalesce
sweep-coalesce a b [] free = refl
sweep-coalesce a b ((a', c) ∷ bs) free = elim (Bool-cases c.is_free) [
  | inl next ↦
      sweep_on a b a' c bs free next
      ∙ sweep-coalesce a (grow b c) bs free
      ∙ ap (λ (r : Run). (a, r.0) ∷ merge_all r.1) (sym (coalesce_free b a' c bs next))
  | inr taken ↦
      sweep_stop a b a' c bs (ground arith)
      ∙ ap (λ (r : Run). (a, r.0) ∷ merge_all r.1) (sym (coalesce_taken b a' c bs taken))
]

grow_assoc : (b c d : Block) → grow b (grow c d) ≡ grow (grow b c) d
grow_assoc b c d = ap (λ (t : ℕ). record { is_free = b.is_free; size = t }) (omega arith)

-- A run that is merged from its second block on is merged the same from its first.
sweep-grow :
    (a : ℕ) (b c : Block) (bs : List Node)
    → b.is_free ≡ true
    → sweep a (grow b (coalesce c bs).0) ((coalesce c bs).1) ≡ sweep a (grow b c) bs
unfolding sweep coalesce
sweep-grow a b c [] free = refl
sweep-grow a b c ((a', d) ∷ bs) free = elim (Bool-cases d.is_free) [
  | inl next ↦
      ap (λ (r : Run). sweep a (grow b r.0) r.1) (coalesce_free c a' d bs next)
      ∙ sweep-grow a b (grow c d) bs free
      ∙ ap (λ (t : Block). sweep a t bs) (grow_assoc b c d)
      ∙ sym (sweep_on a (grow b c) a' d bs free next)
  | inr taken ↦ ap (λ (r : Run). sweep a (grow b r.0) r.1) (coalesce_taken c a' d bs taken)
]

-- The walk from a block that has absorbed those behind it.
sweep_of_coalesce :
    (a : ℕ) (b : Block) (bs : List Node)
    → b.is_free ≡ true
    → sweep a (coalesce b bs).0 ((coalesce b bs).1) ≡ sweep a b bs
unfolding sweep coalesce
sweep_of_coalesce a b [] free = refl
sweep_of_coalesce a b ((a', c) ∷ bs) free = elim (Bool-cases c.is_free) [
  | inl next ↦
      ap (λ (r : Run). sweep a r.0 r.1) (coalesce_free b a' c bs next)
      ∙ sweep_of_coalesce a (grow b c) bs free
      ∙ sym (sweep_on a b a' c bs free next)
  | inr taken ↦ ap (λ (r : Run). sweep a r.0 r.1) (coalesce_taken b a' c bs taken)
]

coalesce-is_free : (b : Block) (bs : List Node) → (coalesce b bs).0.is_free ≡ b.is_free
unfolding coalesce
coalesce-is_free b [] = refl
coalesce-is_free b ((a, c) ∷ bs) = elim (Bool-cases c.is_free) [
  | inl free ↦
      ap (λ (r : Run). r.0.is_free) (coalesce_free b a c bs free) ∙ coalesce-is_free (grow b c) bs
  | inr taken ↦ ap (λ (r : Run). r.0.is_free) (coalesce_taken b a c bs taken)
]

-- Neither does it matter for the block in front.
sweep-touch :
    (a0 : ℕ) (b0 : Block) (a : ℕ) (b : Block) (bs : List Node)
    → b.is_free ≡ true
    → sweep a0 b0 ((a, (coalesce b bs).0) ∷ (coalesce b bs).1) ≡ sweep a0 b0 ((a, b) ∷ bs)
sweep-touch a0 b0 a b bs free =
    let (c, cs) = coalesce b bs in
    let same = coalesce-is_free b bs in
    elim (Bool-cases b0.is_free) [
      | inl run ↦
          sweep_on a0 b0 a c cs run (same ∙ free)
          ∙ sweep-grow a0 b0 b bs run
          ∙ sym (sweep_on a0 b0 a b bs run free)
      | inr apart ↦
          sweep_stop a0 b0 a c cs (ground arith)
          ∙ ap (λ (t : List Node). (a0, b0) ∷ t) (sweep_of_coalesce a b bs free)
          ∙ sym (sweep_stop a0 b0 a b bs (ground arith))
    ]

sweep-prefix :
    (pre : List Node) (a0 : ℕ) (b0 : Block) (a : ℕ) (b : Block) (bs : List Node)
    → b.is_free ≡ true
    → sweep a0 b0 (pre ++ ((a, (coalesce b bs).0) ∷ (coalesce b bs).1))
      ≡ sweep a0 b0 (pre ++ ((a, b) ∷ bs))
sweep-prefix [] a0 b0 a b bs free = sweep-touch a0 b0 a b bs free
sweep-prefix ((a1, b1) ∷ pre) a0 b0 a b bs free = elim (Bool-cases (b0.is_free && b1.is_free)) [
  | inl run ↦
      let first : b0.is_free ≡ true = ground arith in
      let second : b1.is_free ≡ true = ground arith in
      sweep_on a0 b0 a1 b1 (pre ++ ((a, (coalesce b bs).0) ∷ (coalesce b bs).1)) first second
      ∙ sweep-prefix pre a0 (grow b0 b1) a b bs free
      ∙ sym (sweep_on a0 b0 a1 b1 (pre ++ ((a, b) ∷ bs)) first second)
  | inr apart ↦
      sweep_stop a0 b0 a1 b1 (pre ++ ((a, (coalesce b bs).0) ∷ (coalesce b bs).1)) apart
      ∙ ap (λ (t : List Node). (a0, b0) ∷ t) (sweep-prefix pre a1 b1 a b bs free)
      ∙ sym (sweep_stop a0 b0 a1 b1 (pre ++ ((a, b) ∷ bs)) apart)
]

merged :
    (pre : List Node) (a : ℕ) (b : Block) (bs : List Node)
    → b.is_free ≡ true
    → merge_all (pre ++ ((a, (coalesce b bs).0) ∷ (coalesce b bs).1))
      ≡ merge_all (pre ++ ((a, b) ∷ bs))
unfolding merge_all
merged [] a b bs free = sweep_of_coalesce a b bs free
merged ((a0, b0) ∷ pre) a b bs free = sweep-prefix pre a0 b0 a b bs free

-- The merge before the walk does not change what the walk leaves.
pub merge_all-touch :
    (pre : List Node) (a : ℕ) (b : Block) (bs : List Node)
    → merge_all (pre ++ touch a b bs) ≡ merge_all (pre ++ ((a, b) ∷ bs))
unfolding merge_all
merge_all-touch pre a b bs = elim (Bool-cases b.is_free) [
  | inl free ↦
      ap (λ (t : List Node). merge_all (pre ++ t))
        (if_true b.is_free ((a, (coalesce b bs).0) ∷ (coalesce b bs).1) ((a, b) ∷ bs) free)
      ∙ merged pre a b bs free
  | inr taken ↦
      ap (λ (t : List Node). merge_all (pre ++ t))
        (if_false b.is_free ((a, (coalesce b bs).0) ∷ (coalesce b bs).1) ((a, b) ∷ bs) taken)
]

-- Byte `x` lies in none of the headers.
abbrev pub Outside : List Node → (x : ℕ) → Type 0
Outside [] x = Unit {0}
Outside ((a, b) ∷ bs) x = ((x < a) ⊎ (a + 16 ≤ x)) × Outside bs x

pub coalesce-Outside :
    (b : Block) (bs : List Node) (x : ℕ) → Outside bs x → Outside ((coalesce b bs).1) x
unfolding coalesce
coalesce-Outside b [] x out = tt
coalesce-Outside b ((a, c) ∷ bs) x out = elim (Bool-cases c.is_free) [
  | inl free ↦
      subst (λ (r : Run). Outside r.1 x) (sym (coalesce_free b a c bs free))
        (coalesce-Outside (grow b c) bs x out.1)
  | inr taken ↦ subst (λ (r : Run). Outside r.1 x) (sym (coalesce_taken b a c bs taken)) out
]
