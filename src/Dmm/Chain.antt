-- ===== src/Dmm/Chain.antt =====
-- The headers that the `next` pointers lead through, in ascending order. Unlike in a layout, nothing
-- is said of where their data ends.
use unix_p.Prelude.{ℕ, ◌+◌, ◌≤◌, ◌<◌, ◌≡◌, sym, subst, ◌∙◌, List, [], ◌∷◌, ◌++◌, arith}
use unix_p.Prelude.Memory.{Memory, read, load32}
use unix_p.Dmm.Header.{load32_same}
use unix_p.Dmm.Layout.{Block, flag}
use unix_p.Dmm.Merge.{Node}

-- The first header is at `low` or above.
abbrev pub Above : (low : ℕ) → List Node → Type 0
Above low [] = Unit {0}
Above low ((a, b) ∷ bs) = low ≤ a

-- The header of `b` at `a`, but for the pointer.
abbrev pub IsBlock : Memory → (a : ℕ) → Block → Type 0
IsBlock m a b = (0 < a) × (load32 m (a + 8) ≡ flag b.is_free) × (load32 m (a + 12) ≡ b.size)

abbrev pub IsChain : Memory → (at : ℕ) → List Node → Type 0
IsChain m at [] = at ≡ 0
IsChain m at ((a, b) ∷ bs) =
    (at ≡ a) × IsBlock m a b × Above (a + 16) bs × IsChain m (load32 m a) bs

pub Above-le : (low high : ℕ) (bs : List Node) → low ≤ high → Above high bs → Above low bs
Above-le low high [] le above = tt
Above-le low high ((a, b) ∷ bs) le above = omega arith

-- A chain stays if its headers do.
pub IsChain-same :
    (bs : List Node) (m' m : Memory) (low at : ℕ)
    → Above low bs
    → ((a : ℕ) → low ≤ a → read m' a ≡ read m a)
    → IsChain m at bs
    → IsChain m' at bs
IsChain-same [] m' m low at above same h = h
IsChain-same ((a, b) ∷ bs) m' m low at above same (here, (real, f, s), further, rest) =
    let word : (x : ℕ) → low ≤ x → load32 m' x ≡ load32 m x =
      λ x lo. load32_same m' m x (λ k lo' hi. same k (omega arith)) in
    (
      here,
      (real, word (a + 8) (omega arith) ∙ f, word (a + 12) (omega arith) ∙ s),
      further,
      subst (λ (p : ℕ). IsChain m' p bs) (sym (word a above))
          (IsChain-same bs m' m low (load32 m a) (Above-le low (a + 16) bs (omega arith) further)
            same rest),
    )

-- The header of the node in front of a change that lies behind it.
pub IsBlock-below :
    (m' m : Memory) (a : ℕ) (b : Block)
    → ((x : ℕ) → x < a + 16 → read m' x ≡ read m x)
    → IsBlock m a b
    → IsBlock m' a b
IsBlock-below m' m a b same (real, f, s) = (
  real,
  load32_same m' m (a + 8) (λ k lo hi. same k (omega arith)) ∙ f,
  load32_same m' m (a + 12) (λ k lo hi. same k (omega arith)) ∙ s,
)

-- The end of a chain may be changed if nothing before it is.
pub IsChain-replace :
    (pre : List Node) (m' m : Memory) (at low a : ℕ) (b b' : Block) (bs bs' : List Node)
    → Above low (pre ++ ((a, b) ∷ bs))
    → IsChain m at (pre ++ ((a, b) ∷ bs))
    → IsChain m' a ((a, b') ∷ bs')
    → ((x : ℕ) → x < a → read m' x ≡ read m x)
    → (low ≤ a) × Above low (pre ++ ((a, b') ∷ bs')) × IsChain m' at (pre ++ ((a, b') ∷ bs'))
IsChain-replace [] m' m at low a b b' bs bs' above (here, _, _, _) changed same =
    (above, above, subst (λ (p : ℕ). IsChain m' p ((a, b') ∷ bs')) (sym here) changed)
IsChain-replace ((c, d) ∷ pre) m' m at low a b b' bs bs' above (here, block, further, rest) changed
      same =
    let (in_front, above', chain) =
      IsChain-replace pre m' m (load32 m c) (c + 16) a b b' bs bs' further rest changed same in
    let link : load32 m' c ≡ load32 m c = load32_same m' m c (λ k lo hi. same k (omega arith)) in
    (
      omega arith,
      above,
      (
        here,
        IsBlock-below m' m c d (λ x lo. same x (omega arith)) block,
        above',
        subst (λ (p : ℕ). IsChain m' p (pre ++ ((a, b') ∷ bs'))) (sym link) chain,
      ),
    )
