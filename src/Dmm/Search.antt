-- ===== src/Dmm/Search.antt =====
-- `kfree` does on memory what `release` does on the list of blocks.
use mathlib.Core.List.{append_assoc}
use native.Mathlib.Decide.{ℕ_discrete}
use unix_p.Prelude.{
  ℕ, zero, suc, ◌+◌, ◌<◌, ◌≡◌, refl, sym, ap, subst, ◌∙◌, inl, inr, Bool, Bool-cases, true, false,
  Option, some, ◌>>=◌, List, [], ◌∷◌, ◌++◌, length, arith, ◌==◌, if◌then◌else◌, if_true, if_false,
}
use unix_p.Prelude.Memory.{Memory, load32, store32, read-store32_ne}
use unix_p.Dmm.Layout.{Block}
use unix_p.Dmm.Merge.{Node, Outside, freed, merge_all}
use unix_p.Dmm.Merged.{IsMerged, merge_all-IsMerged, mark, has, release}
use unix_p.Dmm.Chain.{IsChain}
use unix_p.Dmm.Free.{IsChain-drop, Leaves, merge_and_walk, store_free-IsChain}
use unix_p.Dmm.Release.{
  mark_found, mark_passes, mark_none, found_or, loop_ends, loop_finds, loop_passes, found-Leaves,
  Leaves-of_marked,
}
use unix_p.Dmm.{merge_blocks, merge_walk, free_block, kfree_loop, kfree}

-- The same for an equal call, an equal list and an equal result.
Leaves-by :
    (call call' : Option Memory) (m : Memory) (first : ℕ) (bs bs' result result' : List Node)
    → call ≡ call'
    → bs ≡ bs'
    → result ≡ result'
    → Leaves call' m first bs' result'
    → Leaves call m first bs result
Leaves-by call call' m first bs bs' result result' same_call same_list same_result
      (m', returns, chain, same) =
    (
      m',
      same_call ∙ returns,
      subst (λ (t : List Node). IsChain m' first t) (sym same_result) chain,
      λ x out. same x (subst (λ (t : List Node). Outside t x) same_list out),
    )

found_or_found :
    (ptr : ℕ) (pre : List Node) (p : ℕ) (bp : Block) (a : ℕ) (b : Block) (bs : List Node)
    → (a + 16 == ptr) ≡ true
    → found_or ptr pre p bp ((a, b) ∷ bs) ≡ merge_all (pre ++ ((p, bp) ∷ (a, freed b) ∷ bs))
found_or_found ptr pre p bp a b bs found =
    let (marked, present) = mark_found ptr a b bs found in
    if_true (has ptr ((a, b) ∷ bs)) (merge_all (pre ++ ((p, bp) ∷ mark ptr ((a, b) ∷ bs))))
      (pre ++ ((p, bp) ∷ (a, b) ∷ bs)) present
    ∙ ap (λ (t : List Node). merge_all (pre ++ ((p, bp) ∷ t))) marked

found_or_passes :
    (ptr : ℕ) (pre : List Node) (p : ℕ) (bp : Block) (a : ℕ) (b : Block) (bs : List Node)
    → (a + 16 == ptr) ≡ false
    → found_or ptr pre p bp ((a, b) ∷ bs) ≡ found_or ptr (pre ++ ((p, bp) ∷ [])) a b bs
found_or_passes ptr pre p bp a b bs passed =
    let (marked, present) = mark_passes ptr a b bs passed in
    ap
      (λ (t : List Node).
        if has ptr ((a, b) ∷ bs)
        then merge_all (pre ++ ((p, bp) ∷ t))
        else pre ++ ((p, bp) ∷ (a, b) ∷ bs))
      marked
    ∙ ap
        (λ (h : Bool).
          if h
          then merge_all (pre ++ ((p, bp) ∷ (a, b) ∷ mark ptr bs))
          else pre ++ ((p, bp) ∷ (a, b) ∷ bs))
        present
    ∙ ap (λ (t : List Node). if has ptr bs then merge_all t else pre ++ ((p, bp) ∷ (a, b) ∷ bs))
        (sym (append_assoc pre ((p, bp) ∷ []) ((a, b) ∷ mark ptr bs)))
    ∙ ap
        (λ (t : List Node).
          if has ptr bs then merge_all ((pre ++ ((p, bp) ∷ [])) ++ ((a, b) ∷ mark ptr bs)) else t)
        (sym (append_assoc pre ((p, bp) ∷ []) ((a, b) ∷ bs)))

-- The search from the second block on: `p` is the block before.
kfree_loop-found_or :
    (bs : List Node) (left fuel : ℕ) (pre : List Node) (m : Memory) (first p ptr : ℕ) (bp : Block)
    → IsChain m first (pre ++ ((p, bp) ∷ bs))
    → length bs < left
    → length (pre ++ ((p, bp) ∷ bs)) < fuel
    → Leaves
        (kfree_loop left fuel m first (load32 m p) p ptr)
        m
        first
        (pre ++ ((p, bp) ∷ bs))
        (found_or ptr pre p bp bs)
kfree_loop-found_or [] zero fuel pre m first p ptr bp chain enough enough' = absurd (omega arith)
kfree_loop-found_or (_ ∷ _) zero fuel pre m first p ptr bp chain enough enough' =
    absurd (omega arith)
kfree_loop-found_or [] (suc left) fuel pre m first p ptr bp chain enough enough' =
    let (_, _, _, ends) = IsChain-drop pre m first p bp [] chain in
    let stays =
      if_false (has ptr []) (merge_all (pre ++ ((p, bp) ∷ mark ptr []))) (pre ++ ((p, bp) ∷ []))
        ((mark_none ptr).1) in
    subst
      (λ (t : List Node).
        Leaves (kfree_loop (suc left) fuel m first (load32 m p) p ptr) m first
          (pre ++ ((p, bp) ∷ [])) t)
      (sym stays)
      (
        m,
        ap (λ (q : ℕ). kfree_loop (suc left) fuel m first q p ptr) ends
            ∙ loop_ends left fuel m first p ptr,
        chain,
        λ x out. refl,
      )
kfree_loop-found_or ((a, b) ∷ bs) (suc left) fuel pre m first p ptr bp chain enough enough' =
    let whole = pre ++ ((p, bp) ∷ (a, b) ∷ bs) in
    let pre' = pre ++ ((p, bp) ∷ []) in
    let (_, (in_front, _, _), _, (linked, (real, _, _), _, _)) =
      IsChain-drop pre m first p bp ((a, b) ∷ bs) chain in
    let start = ap (λ (q : ℕ). kfree_loop (suc left) fuel m first q p ptr) linked in
    elim (Bool-cases (a + 16 == ptr)) [
      | inl found ↦
          Leaves-by (kfree_loop (suc left) fuel m first (load32 m p) p ptr)
            (merge_blocks fuel (store32 m (a + 8) 1) p >>= λ m'. merge_walk fuel fuel m' first) m
            first whole whole (found_or ptr pre p bp ((a, b) ∷ bs))
            (merge_all (pre ++ ((p, bp) ∷ (a, freed b) ∷ bs)))
            (start ∙ loop_finds left fuel m first a p ptr real in_front found) refl
            (found_or_found ptr pre p bp a b bs found)
            (found-Leaves fuel pre m first p bp a b bs chain enough')
      | inr passed ↦
          let same : whole ≡ pre' ++ ((a, b) ∷ bs) =
            sym (append_assoc pre ((p, bp) ∷ []) ((a, b) ∷ bs)) in
          Leaves-by (kfree_loop (suc left) fuel m first (load32 m p) p ptr)
            (kfree_loop left fuel m first (load32 m a) a ptr) m first whole (pre' ++ ((a, b) ∷ bs))
            (found_or ptr pre p bp ((a, b) ∷ bs)) (found_or ptr pre' a b bs)
            (start ∙ loop_passes left fuel m first a p ptr real passed) same
            (found_or_passes ptr pre p bp a b bs passed)
            (kfree_loop-found_or bs left fuel pre' m first a ptr b
              (subst (λ (t : List Node). IsChain m first t) same chain) (omega arith)
              (subst (λ (t : List Node). length t < fuel) same enough'))
    ]

has-zero : (bs : List Node) → has 0 bs ≡ false
unfolding has
has-zero [] = refl
has-zero ((a, b) ∷ bs) =
    let never : (a + 16 == 0) ≡ false = ground arith in rw (never, has-zero bs) refl

release_absent : (ptr : ℕ) (bs : List Node) → has ptr bs ≡ false → release ptr bs ≡ bs
unfolding release
release_absent ptr bs absent = if_false (has ptr bs) (merge_all (mark ptr bs)) bs absent

release_found :
    (ptr a : ℕ) (b : Block) (bs : List Node)
    → (a + 16 == ptr) ≡ true
    → release ptr ((a, b) ∷ bs) ≡ merge_all ((a, freed b) ∷ bs)
unfolding release
release_found ptr a b bs found =
    let (marked, present) = mark_found ptr a b bs found in
    if_true (has ptr ((a, b) ∷ bs)) (merge_all (mark ptr ((a, b) ∷ bs))) ((a, b) ∷ bs) present
    ∙ ap merge_all marked

release_later :
    (ptr a : ℕ) (b : Block) (bs : List Node)
    → (a + 16 == ptr) ≡ false
    → release ptr ((a, b) ∷ bs) ≡ found_or ptr [] a b bs
unfolding release
release_later ptr a b bs passed =
    let (marked, present) = mark_passes ptr a b bs passed in
    ap (λ (t : List Node). if has ptr ((a, b) ∷ bs) then merge_all t else (a, b) ∷ bs) marked
    ∙ ap (λ (h : Bool). if h then merge_all ((a, b) ∷ mark ptr bs) else (a, b) ∷ bs) present

first_finds :
    (left fuel : ℕ) (m : Memory) (a ptr : ℕ)
    → 0 < a
    → (a + 16 == ptr) ≡ true
    → kfree_loop (suc left) fuel m a a 0 ptr
      ≡ (merge_blocks fuel (store32 m (a + 8) 1) a >>= λ m'. merge_walk fuel fuel m' a)
unfolding kfree_loop free_block
first_finds left fuel m a ptr real found =
    let some_block : (a == 0) ≡ false = ground arith in rw (some_block, found) refl

-- The search from the first block on, which none is in front of.
kfree_loop-release :
    (bs : List Node) (left fuel : ℕ) (m : Memory) (first ptr : ℕ)
    → IsChain m first bs
    → length bs < left
    → length bs < fuel
    → Leaves (kfree_loop left fuel m first first 0 ptr) m first bs (release ptr bs)
kfree_loop-release bs zero fuel m first ptr chain enough enough' = absurd (omega arith)
kfree_loop-release [] (suc left) fuel m first ptr chain enough enough' =
    Leaves-by (kfree_loop (suc left) fuel m first first 0 ptr) (some m) m first [] []
      (release ptr []) []
      (ap (λ (q : ℕ). kfree_loop (suc left) fuel m first q 0 ptr) chain
        ∙ loop_ends left fuel m first 0 ptr)
      refl (release_absent ptr [] (mark_none ptr).1) (m, refl, chain, λ x out. refl)
kfree_loop-release ((a, b) ∷ bs) (suc left) fuel m first ptr (here, (real, f, s), above, rest)
      enough enough' =
    let m1 = store32 m (a + 8) 1 in
    let chain : IsChain m a ((a, b) ∷ bs) = (refl, (real, f, s), above, rest) in
    subst
      (λ (q : ℕ).
        Leaves (kfree_loop (suc left) fuel m q q 0 ptr) m q ((a, b) ∷ bs)
          (release ptr ((a, b) ∷ bs)))
      (sym here)
      (elim (Bool-cases (a + 16 == ptr)) [
        | inl found ↦
            Leaves-by (kfree_loop (suc left) fuel m a a 0 ptr)
              (merge_blocks fuel m1 a >>= λ m'. merge_walk fuel fuel m' a) m a ((a, b) ∷ bs)
              ((a, b) ∷ bs) (release ptr ((a, b) ∷ bs)) (merge_all ((a, freed b) ∷ bs))
              (first_finds left fuel m a ptr real found) refl (release_found ptr a b bs found)
              (Leaves-of_marked (merge_blocks fuel m1 a >>= λ m'. merge_walk fuel fuel m' a) m m1 a
                ((a, b) ∷ bs) ((a, freed b) ∷ bs) (merge_all ((a, freed b) ∷ bs))
                (λ x out. (read-store32_ne m (a + 8) 1 x (ground arith), out))
                (merge_and_walk fuel [] m1 a a (freed b) bs (store_free-IsChain m a b bs chain)
                  enough'))
        | inr passed ↦
            Leaves-by (kfree_loop (suc left) fuel m a a 0 ptr)
              (kfree_loop left fuel m a (load32 m a) a ptr) m a ((a, b) ∷ bs) ((a, b) ∷ bs)
              (release ptr ((a, b) ∷ bs)) (found_or ptr [] a b bs)
              (loop_passes left fuel m a a 0 ptr real passed) refl (release_later ptr a b bs passed)
              (kfree_loop-found_or bs left fuel [] m a a ptr b chain (omega arith) enough')
      ])

release-IsMerged : (ptr : ℕ) (bs : List Node) → has ptr bs ≡ true → IsMerged (release ptr bs)
unfolding release
release-IsMerged ptr bs present =
    subst IsMerged (sym (if_true (has ptr bs) (merge_all (mark ptr bs)) bs present))
      (merge_all-IsMerged (mark ptr bs))

-- `kfree` on memory in which the `next` pointers lead through a list of blocks, in ascending order and
-- no header in another, ends on more rounds than blocks. They then lead through the list that `release`
-- leaves: the block whose data the pointer is has been marked free and every run of free blocks is one
-- block, so that no two neighbours are free; or, if there is no such block, all is as before. No byte
-- outside the headers has changed.
pub kfree-release :
    (fuel : ℕ) (m : Memory) (first ptr : ℕ) (bs : List Node)
    → IsChain m first bs
    → length bs < fuel
    → Leaves (kfree fuel m first ptr) m first bs (release ptr bs)
      × (has ptr bs ≡ true → IsMerged (release ptr bs))
unfolding kfree
kfree-release fuel m first ptr bs chain enough = (
  elim (ℕ_discrete ptr 0) [
    | yes null ↦
        let test : (ptr == 0) ≡ true = ground arith in
        Leaves-by (kfree fuel m first ptr) (some m) m first bs bs (release ptr bs) bs (rw test refl)
          refl (release_absent ptr bs (ap (λ (q : ℕ). has q bs) null ∙ has-zero bs))
          (m, refl, chain, λ x out. refl)
    | no real ↦
        let test : (ptr == 0) ≡ false = ground arith in
        Leaves-by (kfree fuel m first ptr) (kfree_loop fuel fuel m first first 0 ptr) m first bs bs
          (release ptr bs) (release ptr bs) (rw test refl) refl refl
          (kfree_loop-release bs fuel fuel m first ptr chain enough enough)
  ],
  release-IsMerged ptr bs,
)
