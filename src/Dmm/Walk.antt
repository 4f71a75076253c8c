-- ===== src/Dmm/Walk.antt =====
-- `merge_blocks`, and the walk of `kfree` that merges every run, on a chain.
use unix_p.Prelude.{
  ℕ, zero, suc, ◌+◌, ◌≤◌, ◌<◌, ◌≡◌, refl, sym, subst, ◌∙◌, inl, inr, Bool-cases, true, false,
  Option, some, List, [], ◌∷◌, length, arith, ◌==◌, if_true, if_false,
}
use unix_p.Prelude.Memory.{Memory, read, load32}
use unix_p.Dmm.Header.{SameBut, load32_same}
use unix_p.Dmm.Layout.{Block}
use unix_p.Dmm.Merge.{
  Node, Run, Outside, coalesce-Outside, touch, coalesce, coalesce-length, sweep_used,
  sweep-coalesce, sweep, merge_all,
}
use unix_p.Dmm.Chain.{Above, IsChain, IsBlock-below}
use unix_p.Dmm.Runs.{merge_loop-coalesce}
use unix_p.Dmm.{merge_loop, merge_blocks, merge_walk}

-- `merge_blocks` of a block does what `touch` does on the list.
pub merge_blocks-touch :
    (bs : List Node) (fuel : ℕ) (m : Memory) (a : ℕ) (b : Block)
    → IsChain m a ((a, b) ∷ bs)
    → length bs < fuel
    → (m' : Memory) × (run : Run) × (merge_blocks fuel m a ≡ some m')
      × (touch a b bs ≡ (a, run.0) ∷ run.1)
      × (length run.1 ≤ length bs)
      × IsChain m' a ((a, run.0) ∷ run.1)
      × SameBut a m' m
      × (sweep a b bs ≡ (a, run.0) ∷ merge_all run.1)
      × ((x : ℕ) → Outside bs x → Outside run.1 x)
unfolding merge_blocks
merge_blocks-touch bs fuel m a b chain enough =
    let (here, (real, f, s), above, rest) = chain in
    elim (Bool-cases b.is_free) [
      | inl free ↦
          let test : (load32 m (a + 8) == 0) ≡ false = ground arith in
          let (m', returns, chain', same) = merge_loop-coalesce bs fuel m a b chain enough in
          (
            m',
            coalesce b bs,
            if_false (load32 m (a + 8) == 0) (some m) (merge_loop fuel m a) test ∙ returns,
            if_true b.is_free ((a, (coalesce b bs).0) ∷ (coalesce b bs).1) ((a, b) ∷ bs) free,
            coalesce-length b bs,
            chain',
            same,
            sweep-coalesce a b bs free,
            coalesce-Outside b bs,
          )
      | inr taken ↦
          let test : (load32 m (a + 8) == 0) ≡ true = ground arith in
          (
            m,
            (b, bs),
            if_true (load32 m (a + 8) == 0) (some m) (merge_loop fuel m a) test,
            if_false b.is_free ((a, (coalesce b bs).0) ∷ (coalesce b bs).1) ((a, b) ∷ bs) taken,
            omega arith,
            chain,
            λ x out. refl,
            sweep_used a b bs taken,
            λ x out. out,
          )
    ]

pub Above-zero : (bs : List Node) → Above 0 bs
Above-zero [] = tt
Above-zero ((a, b) ∷ bs) = omega arith

walk_ends : (fuel merges : ℕ) (m : Memory) → merge_walk (suc fuel) merges m 0 ≡ some m
unfolding merge_walk
walk_ends fuel merges m = refl

walk_goes :
    (fuel merges : ℕ) (m m' : Memory) (a : ℕ)
    → 0 < a
    → merge_blocks merges m a ≡ some m'
    → merge_walk (suc fuel) merges m a ≡ merge_walk fuel merges m' (load32 m' a)
unfolding merge_walk
walk_goes fuel merges m m' a real merged =
    let test : (a == 0) ≡ false = ground arith in rw (test, merged) refl

-- What the walk leaves: every run merged, and nothing changed outside the headers.
abbrev pub Walked :
    (walk : Option Memory) → Memory → (at low : ℕ) → (bs result : List Node) → Type 0
Walked walk m at low bs result =
    (m' : Memory) × (walk ≡ some m')
    × IsChain m' at result
    × Above low result
    × ((x : ℕ) → Outside bs x → read m' x ≡ read m x)

below-Outside :
    (bs : List Node) (m : Memory) (at low x : ℕ)
    → IsChain m at bs
    → Above low bs
    → x < low
    → Outside bs x
below-Outside [] m at low x chain above below = tt
below-Outside ((a, b) ∷ bs) m at low x (_, _, further, rest) above below =
    (inl (omega arith), below-Outside bs m (load32 m a) (a + 16) x rest further (omega arith))

pub merge_walk-merge_all :
    (fuel : ℕ) (bs : List Node) (merges : ℕ) (m : Memory) (at low : ℕ)
    → IsChain m at bs
    → Above low bs
    → length bs < fuel
    → length bs < merges
    → Walked (merge_walk fuel merges m at) m at low bs (merge_all bs)
unfolding merge_all
merge_walk-merge_all zero bs merges m at low chain above enough enough' = absurd (omega arith)
merge_walk-merge_all (suc fuel) [] merges m at low chain above enough enough' =
    subst (λ (p : ℕ). Walked (merge_walk (suc fuel) merges m p) m p low [] []) (sym chain)
      (m, walk_ends fuel merges m, refl, tt, λ x out. refl)
merge_walk-merge_all (suc fuel) ((a, b) ∷ bs) merges m at low (here, block, further, rest) above
      enough enough' =
    let (m1, run, returns, touched, shorter, (here1, block1, further1, rest1), same1, swept, out1) =
      merge_blocks-touch bs merges m a b (refl, block, further, rest) (omega arith) in
    let (m', walked, chain', above', same') =
      merge_walk-merge_all fuel run.1 merges m1 (load32 m1 a) (a + 16) rest1 further1 (omega arith)
        (omega arith) in
    let below : (x : ℕ) → x < a + 16 → read m' x ≡ read m1 x =
      λ x lo. same' x (below-Outside run.1 m1 (load32 m1 a) (a + 16) x rest1 further1 lo) in
    let link : load32 m' a ≡ load32 m1 a = load32_same m' m1 a (λ k lo hi. below k (omega arith)) in
    subst
      (λ (p : ℕ). Walked (merge_walk (suc fuel) merges m p) m p low ((a, b) ∷ bs) (sweep a b bs))
      (sym here)
      (subst (λ (t : List Node). Walked (merge_walk (suc fuel) merges m a) m a low ((a, b) ∷ bs) t)
        (sym swept)
        (
          m',
          walk_goes fuel merges m m1 a block.0 returns ∙ walked,
          (
            refl,
            IsBlock-below m' m1 a run.0 below block1,
            above',
            subst (λ (p : ℕ). IsChain m' p (merge_all run.1)) (sym link) chain',
          ),
          above,
          λ x out. same' x (out1 x out.1) ∙ same1 x out.0,
        ))
