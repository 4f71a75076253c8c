-- ===== src/Dmm/Free.antt =====
-- The mark on a block, and the merge and the walk behind it, on the chain from the first block.
use unix_p.Prelude.{
  ℕ, ◌+◌, ◌≤◌, ◌<◌, ◌≡◌, refl, sym, ap, subst, ◌∙◌, ◌⊎◌, inl, inr, Option, some, ◌>>=◌, List, [],
  ◌∷◌, ◌++◌, length, arith,
}
use unix_p.Prelude.Memory.{
  Memory, read, load32, store32, load32-store32_self, load32-store32_ne, read-store32_ne,
}
use unix_p.Dmm.Layout.{Block}
use unix_p.Dmm.Merge.{Node, Outside, freed, merge_all, merge_all-touch}
use unix_p.Dmm.Chain.{IsChain, IsChain-same, IsChain-replace}
use unix_p.Dmm.Walk.{Above-zero, merge_blocks-touch, merge_walk-merge_all}
use unix_p.Dmm.{merge_blocks, merge_walk}

-- The part of a chain from one of its nodes on.
pub IsChain-drop :
    (pre : List Node) (m : Memory) (at a : ℕ) (b : Block) (bs : List Node)
    → IsChain m at (pre ++ ((a, b) ∷ bs))
    → IsChain m a ((a, b) ∷ bs)
IsChain-drop [] m at a b bs (_, block, above, rest) = (refl, block, above, rest)
IsChain-drop ((c, d) ∷ pre) m at a b bs (_, _, _, rest) =
    IsChain-drop pre m (load32 m c) a b bs rest

-- A change of one node's tail that adds no header.
Outside-replace :
    (pre : List Node) (a : ℕ) (b b' : Block) (bs bs' : List Node) (x : ℕ)
    → (Outside bs x → Outside bs' x)
    → Outside (pre ++ ((a, b) ∷ bs)) x
    → Outside (pre ++ ((a, b') ∷ bs')) x
Outside-replace [] a b b' bs bs' x keeps (out, rest) = (out, keeps rest)
Outside-replace ((c, d) ∷ pre) a b b' bs bs' x keeps (out, rest) =
    (out, Outside-replace pre a b b' bs bs' x keeps rest)

Outside-at :
    (pre : List Node) (a : ℕ) (b : Block) (bs : List Node) (x : ℕ)
    → Outside (pre ++ ((a, b) ∷ bs)) x
    → (x < a) ⊎ (a + 16 ≤ x)
Outside-at [] a b bs x (out, rest) = out
Outside-at ((c, d) ∷ pre) a b bs x (out, rest) = Outside-at pre a b bs x rest

length-suffix :
    (pre : List Node) (a : ℕ) (b : Block) (bs : List Node)
    → length bs < length (pre ++ ((a, b) ∷ bs))
length-suffix [] a b bs = omega arith
length-suffix (_ ∷ pre) a b bs = let rest = length-suffix pre a b bs in omega arith

length-replace :
    (pre : List Node) (a : ℕ) (b b' : Block) (bs bs' : List Node)
    → length bs' ≤ length bs
    → length (pre ++ ((a, b') ∷ bs')) ≤ length (pre ++ ((a, b) ∷ bs))
length-replace [] a b b' bs bs' shorter = omega arith
length-replace (_ ∷ pre) a b b' bs bs' shorter =
    let rest = length-replace pre a b b' bs bs' shorter in omega arith

-- The memory after: the chain of these blocks, and nothing changed outside the headers.
abbrev pub Leaves : Option Memory → Memory → (first : ℕ) → (bs result : List Node) → Type 0
Leaves call m first bs result =
    (m' : Memory) × (call ≡ some m')
    × IsChain m' first result
    × ((x : ℕ) → Outside bs x → read m' x ≡ read m x)

-- The merge of one block of the chain, and the walk behind it.
pub merge_and_walk :
    (fuel : ℕ) (pre : List Node) (m : Memory) (first a : ℕ) (b : Block) (bs : List Node)
    → IsChain m first (pre ++ ((a, b) ∷ bs))
    → length (pre ++ ((a, b) ∷ bs)) < fuel
    → Leaves
        (merge_blocks fuel m a >>= λ m'. merge_walk fuel fuel m' first)
        m
        first
        (pre ++ ((a, b) ∷ bs))
        (merge_all (pre ++ ((a, b) ∷ bs)))
merge_and_walk fuel pre m first a b bs chain enough =
    let here = IsChain-drop pre m first a b bs chain in
    let short = length-suffix pre a b bs in
    let (m1, run, returns, touched, shorter, chain1, same1, _, out1) =
      merge_blocks-touch bs fuel m a b here (omega arith) in
    let (_, above, whole) =
      IsChain-replace pre m1 m first 0 a b run.0 bs run.1 (Above-zero (pre ++ ((a, b) ∷ bs))) chain
        chain1 (λ x lo. same1 x (inl lo)) in
    let few = length-replace pre a b run.0 bs run.1 shorter in
    let (m', walked, chain', _, same') =
      merge_walk-merge_all fuel (pre ++ ((a, run.0) ∷ run.1)) fuel m1 first 0 whole above
        (omega arith) (omega arith) in
    let same_list : merge_all (pre ++ ((a, run.0) ∷ run.1)) ≡ merge_all (pre ++ ((a, b) ∷ bs)) =
      ap (λ (t : List Node). merge_all (pre ++ t)) (sym touched) ∙ merge_all-touch pre a b bs in
    (
      m',
      ap (λ (r : Option Memory). r >>= λ m2. merge_walk fuel fuel m2 first) returns ∙ walked,
      subst (λ (t : List Node). IsChain m' first t) same_list chain',
      λ x out.
          same' x (Outside-replace pre a b run.0 bs run.1 x (out1 x) out)
          ∙ same1 x (Outside-at pre a b bs x out),
    )

-- The mark.
pub store_free-IsChain :
    (m : Memory) (a : ℕ) (b : Block) (bs : List Node)
    → IsChain m a ((a, b) ∷ bs)
    → IsChain (store32 m (a + 8) 1) a ((a, freed b) ∷ bs)
store_free-IsChain m a b bs (here, (real, f, s), above, rest) =
    let m1 = store32 m (a + 8) 1 in
    let link : load32 m1 a ≡ load32 m a = load32-store32_ne m (a + 8) 1 a (omega arith) in
    (
      refl,
      (
        real,
        load32-store32_self m (a + 8) 1 (omega arith),
        load32-store32_ne m (a + 8) 1 (a + 12) (omega arith) ∙ s,
      ),
      above,
      subst (λ (p : ℕ). IsChain m1 p bs) (sym link)
          (IsChain-same bs m1 m (a + 16) (load32 m a) above
            (λ x lo. read-store32_ne m (a + 8) 1 x (inr (omega arith))) rest),
    )
