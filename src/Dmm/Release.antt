-- ===== src/Dmm/Release.antt =====
-- The block that is freed: its mark, the merge and the walk on the whole chain.
use unix_p.Prelude.{
  ℕ, suc, ◌+◌, ◌≤◌, ◌<◌, ◌≡◌, refl, sym, subst, ◌∙◌, ◌⊎◌, inl, true, false, Option, some, ◌>>=◌,
  List, [], ◌∷◌, ◌++◌, length, arith, ◌==◌, if◌then◌else◌,
}
use unix_p.Prelude.Memory.{Memory, read, load32, store32, read-store32_ne}
use unix_p.Dmm.Header.{load32_same}
use unix_p.Dmm.Layout.{Block}
use unix_p.Dmm.Merge.{Node, Outside, freed, merge_all}
use unix_p.Dmm.Merged.{mark, has}
use unix_p.Dmm.Chain.{IsChain, IsChain-replace, IsBlock-below}
use unix_p.Dmm.Walk.{Above-zero}
use unix_p.Dmm.Free.{IsChain-drop, Leaves, merge_and_walk, store_free-IsChain}
use unix_p.Dmm.{merge_blocks, merge_walk, free_block, kfree_loop}

-- The marked list in place of the list, for a chain that is freed.
pub Leaves-of_marked :
    (call : Option Memory) (m m1 : Memory) (first : ℕ) (bs marked result : List Node)
    → ((x : ℕ) → Outside bs x → (read m1 x ≡ read m x) × Outside marked x)
    → Leaves call m1 first marked result
    → Leaves call m first bs result
Leaves-of_marked call m m1 first bs marked result same (m', returns, chain, same') =
    (m', returns, chain, λ x out. same' x ((same x out).1) ∙ (same x out).0)

Outside-second :
    (pre : List Node) (p : ℕ) (bp : Block) (a : ℕ) (b : Block) (bs : List Node) (x : ℕ)
    → Outside (pre ++ ((p, bp) ∷ (a, b) ∷ bs)) x
    → ((x < a) ⊎ (a + 16 ≤ x)) × Outside (pre ++ ((p, bp) ∷ (a, freed b) ∷ bs)) x
Outside-second [] p bp a b bs x (in_front, (out, rest)) = (out, (in_front, (out, rest)))
Outside-second ((c, d) ∷ pre) p bp a b bs x (out, rest) =
    let (here, more) = Outside-second pre p bp a b bs x rest in (here, (out, more))

pub mark_found :
    (ptr a : ℕ) (b : Block) (bs : List Node)
    → (a + 16 == ptr) ≡ true
    → (mark ptr ((a, b) ∷ bs) ≡ (a, freed b) ∷ bs) × (has ptr ((a, b) ∷ bs) ≡ true)
unfolding mark has
mark_found ptr a b bs found = (rw found refl, rw found refl)

pub mark_passes :
    (ptr a : ℕ) (b : Block) (bs : List Node)
    → (a + 16 == ptr) ≡ false
    → (mark ptr ((a, b) ∷ bs) ≡ (a, b) ∷ mark ptr bs) × (has ptr ((a, b) ∷ bs) ≡ has ptr bs)
unfolding mark has
mark_passes ptr a b bs passed = (rw passed refl, rw passed refl)

pub mark_none : (ptr : ℕ) → (mark ptr [] ≡ []) × (has ptr [] ≡ false)
unfolding mark has
mark_none ptr = (refl, refl)

length-second :
    (pre : List Node) (p : ℕ) (bp : Block) (a : ℕ) (b : Block) (bs : List Node)
    → length (pre ++ ((p, bp) ∷ (a, freed b) ∷ bs)) ≡ length (pre ++ ((p, bp) ∷ (a, b) ∷ bs))
length-second [] p bp a b bs = refl
length-second (_ ∷ pre) p bp a b bs = let rest = length-second pre p bp a b bs in omega arith

-- What is left if the block is looked for in `bs`, behind the others.
abbrev pub found_or : (ptr : ℕ) → List Node → (p : ℕ) → Block → List Node → List Node
found_or ptr pre p bp bs =
    if has ptr bs then merge_all (pre ++ ((p, bp) ∷ mark ptr bs)) else pre ++ ((p, bp) ∷ bs)

pub loop_ends :
    (left fuel : ℕ) (m : Memory) (first prev ptr : ℕ)
    → kfree_loop (suc left) fuel m first 0 prev ptr ≡ some m
unfolding kfree_loop
loop_ends left fuel m first prev ptr = refl

pub loop_finds :
    (left fuel : ℕ) (m : Memory) (first a p ptr : ℕ)
    → 0 < a
    → 0 < p
    → (a + 16 == ptr) ≡ true
    → kfree_loop (suc left) fuel m first a p ptr
      ≡ (merge_blocks fuel (store32 m (a + 8) 1) p >>= λ m'. merge_walk fuel fuel m' first)
unfolding kfree_loop free_block
loop_finds left fuel m first a p ptr real in_front found =
    let some_block : (a == 0) ≡ false = ground arith in
    let some_prev : (p == 0) ≡ false = ground arith in rw (some_block, found, some_prev) refl

pub loop_passes :
    (left fuel : ℕ) (m : Memory) (first a p ptr : ℕ)
    → 0 < a
    → (a + 16 == ptr) ≡ false
    → kfree_loop (suc left) fuel m first a p ptr ≡ kfree_loop left fuel m first (load32 m a) a ptr
unfolding kfree_loop
loop_passes left fuel m first a p ptr real passed =
    let some_block : (a == 0) ≡ false = ground arith in rw (some_block, passed) refl

-- The block behind `p` is the one: it is marked, and `merge_blocks` begins at `p`.
pub found-Leaves :
    (fuel : ℕ) (pre : List Node) (m : Memory) (first p : ℕ) (bp : Block) (a : ℕ) (b : Block)
    (bs : List Node)
    → IsChain m first (pre ++ ((p, bp) ∷ (a, b) ∷ bs))
    → length (pre ++ ((p, bp) ∷ (a, b) ∷ bs)) < fuel
    → Leaves
        (merge_blocks fuel (store32 m (a + 8) 1) p >>= λ m'. merge_walk fuel fuel m' first)
        m
        first
        (pre ++ ((p, bp) ∷ (a, b) ∷ bs))
        (merge_all (pre ++ ((p, bp) ∷ (a, freed b) ∷ bs)))
found-Leaves fuel pre m first p bp a b bs chain enough =
    let m1 = store32 m (a + 8) 1 in
    let (_, block, above, (linked, block', above', rest)) =
      IsChain-drop pre m first p bp ((a, b) ∷ bs) chain in
    let same : (x : ℕ) → (x < a) ⊎ (a + 16 ≤ x) → read m1 x ≡ read m x =
      λ x out. read-store32_ne m (a + 8) 1 x (ground arith) in
    let link : load32 m1 p ≡ a =
      load32_same m1 m p (λ k lo hi. same k (inl (omega arith))) ∙ linked in
    let marked = store_free-IsChain m a b bs (refl, block', above', rest) in
    let (_, _, whole) =
      IsChain-replace pre m1 m first 0 p bp bp ((a, b) ∷ bs) ((a, freed b) ∷ bs)
        (Above-zero (pre ++ ((p, bp) ∷ (a, b) ∷ bs))) chain
        (
          refl,
          IsBlock-below m1 m p bp (λ x lo. same x (inl (omega arith))) block,
          above,
          subst (λ (q : ℕ). IsChain m1 q ((a, freed b) ∷ bs)) (sym link) marked,
        )
        (λ x lo. same x (inl (omega arith))) in
    Leaves-of_marked (merge_blocks fuel m1 p >>= λ m'. merge_walk fuel fuel m' first) m m1 first
      (pre ++ ((p, bp) ∷ (a, b) ∷ bs)) (pre ++ ((p, bp) ∷ (a, freed b) ∷ bs))
      (merge_all (pre ++ ((p, bp) ∷ (a, freed b) ∷ bs)))
      (λ x out. let (apart, out') = Outside-second pre p bp a b bs x out in (same x apart, out'))
      (merge_and_walk fuel pre m1 first p bp ((a, freed b) ∷ bs) whole
        (let same_length = length-second pre p bp a b bs in omega arith))
