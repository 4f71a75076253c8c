-- ===== src/Dmm/Merged.antt =====
-- The list of blocks that `kfree` leaves: what is released, and that no free blocks are neighbours.
use unix_p.Prelude.{
  ℕ, ◌+◌, ◌≡◌, refl, sym, subst, inl, inr, Bool, Bool-cases, false, ◌&&◌, ◌||◌, List, [], ◌∷◌,
  arith, ◌==◌, if◌then◌else◌,
}
use unix_p.Dmm.Layout.{Block}
use unix_p.Dmm.Merge.{Node, sweep, merge_all, sweep_on, sweep_stop, freed, grow}

-- No two neighbours are both free, nor is the first if `front` is.
abbrev pub IsMergedAfter : (front : Bool) → List Node → Type 0
IsMergedAfter front [] = Unit {0}
IsMergedAfter front ((a, b) ∷ bs) = ((front && b.is_free) ≡ false) × IsMergedAfter b.is_free bs

abbrev pub IsMerged : List Node → Type 0
IsMerged = IsMergedAfter false

sweep-IsMergedAfter :
    (front : Bool) (a : ℕ) (b : Block) (bs : List Node)
    → (front && b.is_free) ≡ false
    → IsMergedAfter front (sweep a b bs)
unfolding sweep
sweep-IsMergedAfter front a b [] apart = (apart, tt)
sweep-IsMergedAfter front a b ((a', c) ∷ bs) apart = elim (Bool-cases (b.is_free && c.is_free)) [
  | inl run ↦
      subst (λ (t : List Node). IsMergedAfter front t)
        (sym (sweep_on a b a' c bs (ground arith) (ground arith)))
        (sweep-IsMergedAfter front a (grow b c) bs apart)
  | inr stop ↦
      subst (λ (t : List Node). IsMergedAfter front t) (sym (sweep_stop a b a' c bs stop))
        (apart, sweep-IsMergedAfter b.is_free a' c bs stop)
]

pub merge_all-IsMerged : (bs : List Node) → IsMerged (merge_all bs)
unfolding merge_all
merge_all-IsMerged [] = tt
merge_all-IsMerged ((a, b) ∷ bs) = sweep-IsMergedAfter false a b bs refl

-- The block whose data is at `ptr` marked free.
unfoldable pub mark : (ptr : ℕ) → List Node → List Node
mark ptr [] = []
mark ptr ((a, b) ∷ bs) = if a + 16 == ptr then (a, freed b) ∷ bs else (a, b) ∷ mark ptr bs

unfoldable pub has : (ptr : ℕ) → List Node → Bool
has ptr [] = false
has ptr ((a, b) ∷ bs) = (a + 16 == ptr) || has ptr bs

-- A block is freed: it is marked, and every run of free blocks is merged. A pointer to no block
-- changes nothing.
unfoldable pub release : (ptr : ℕ) → List Node → List Node
unfolding mark has merge_all
release ptr bs = if has ptr bs then merge_all (mark ptr bs) else bs
