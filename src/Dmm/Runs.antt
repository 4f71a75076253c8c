-- ===== src/Dmm/Runs.antt =====
-- The merge of one run of free blocks, and the walk that merges every run, on a chain.
use unix_p.Prelude.{
  ℕ, zero, suc, ◌+◌, ◌≤◌, ◌<◌, ◌≡◌, refl, sym, ap, subst, ◌∙◌, inl, inr, Bool-cases, true, false,
  ◌||◌, Option, some, List, [], ◌∷◌, length, arith, ◌==◌, if◌then◌else◌, u32,
}
use unix_p.Prelude.Memory.{
  Memory, load32, load32-lt, store32, load32-store32_self, load32-store32_ne, read-store32_ne,
}
use unix_p.Dmm.Header.{SameBut}
use unix_p.Dmm.Layout.{Block, flag}
use unix_p.Dmm.Merge.{Node, Run, grow, coalesce, coalesce_none, coalesce_free, coalesce_taken}
use unix_p.Dmm.Chain.{IsChain, IsChain-same, Above-le}
use unix_p.Dmm.{merge_next, merge_loop}

zero_or_itself : (n : ℕ) → (if n == 0 then 0 else n) ≡ n
zero_or_itself n = ground arith

-- What a round of the merge writes.
merge_next_lem :
    (m : Memory) (a c x y : ℕ)
    → load32 m a ≡ c
    → load32 m (a + 12) ≡ x
    → load32 m (c + 12) ≡ y
    → a + 16 ≤ c
    → merge_next m a ≡ store32 (store32 m (a + 12) (u32 (x + (y + 16)))) a (load32 m c)
unfolding merge_next
merge_next_lem m a c x y linked s s' above =
    let m' = store32 m (a + 12) (u32 (x + (y + 16))) in
    let still : load32 m' a ≡ c =
      load32-store32_ne m (a + 12) (u32 (x + (y + 16))) a (omega arith) ∙ linked in
    let beyond : load32 m' c ≡ load32 m c =
      load32-store32_ne m (a + 12) (u32 (x + (y + 16))) c (omega arith) in
    rw (linked, s, s')
      (rw still (rw beyond (ap (λ (t : ℕ). store32 m' a t) (zero_or_itself (load32 m c)))))

-- One round of the merge.
merge_next-IsChain :
    (m : Memory) (a : ℕ) (b : Block) (c : ℕ) (d : Block) (bs : List Node)
    → IsChain m a ((a, b) ∷ (c, d) ∷ bs)
    → IsChain (merge_next m a) a ((a, grow b d) ∷ bs) × SameBut a (merge_next m a) m
merge_next-IsChain m a b c d bs (_, (real, f, s), above, (linked, (real', f', s'), above', rest)) =
    let size = u32 (b.size + (d.size + 16)) in
    let m1 = store32 m (a + 12) size in
    let m2 = store32 m1 a (load32 m c) in
    let sized : load32 m (c + 12) ≡ d.size = s' in
    let same : SameBut a m2 m = λ x out.
      read-store32_ne m1 a (load32 m c) x (ground arith)
      ∙ read-store32_ne m (a + 12) size x (ground arith) in
    let link : load32 m2 a ≡ load32 m c = load32-store32_self m1 a (load32 m c) (load32-lt m c) in
    let chain : IsChain m2 a ((a, grow b d) ∷ bs) = (
      refl,
      (
        real,
        load32-store32_ne m1 a (load32 m c) (a + 8) (omega arith)
            ∙ load32-store32_ne m (a + 12) size (a + 8) (omega arith)
            ∙ f,
        load32-store32_ne m1 a (load32 m c) (a + 12) (omega arith)
            ∙ load32-store32_self m (a + 12) size (omega arith),
      ),
      Above-le (a + 16) (c + 16) bs (omega arith) above',
      subst (λ (p : ℕ). IsChain m2 p bs) (sym link)
          (IsChain-same bs m2 m (c + 16) (load32 m c) above' (λ x lo. same x (inr (omega arith)))
            rest),
    ) in
    subst (λ (t : Memory). IsChain t a ((a, grow b d) ∷ bs) × SameBut a t m)
      (sym (merge_next_lem m a c b.size d.size linked s sized above)) (chain, same)

-- What the loop leaves of the run, on the list.
abbrev pub Merges : (loop : Option Memory) → Memory → (a : ℕ) → Run → Type 0
Merges loop m a run =
    (m' : Memory) × (loop ≡ some m') × IsChain m' a ((a, run.0) ∷ run.1) × SameBut a m' m

loop_stops :
    (fuel : ℕ) (m : Memory) (a : ℕ)
    → (load32 m a == 0 || load32 m (load32 m a + 8) == 0) ≡ true
    → merge_loop (suc fuel) m a ≡ some m
unfolding merge_loop
loop_stops fuel m a test = rw test refl

loop_merges :
    (fuel : ℕ) (m : Memory) (a : ℕ)
    → (load32 m a == 0 || load32 m (load32 m a + 8) == 0) ≡ false
    → merge_loop (suc fuel) m a ≡ merge_loop fuel (merge_next m a) a
unfolding merge_loop
loop_merges fuel m a test = rw test refl

-- `merge_loop` merges the run, as `coalesce` does, and ends on more rounds than blocks follow.
pub merge_loop-coalesce :
    (bs : List Node) (fuel : ℕ) (m : Memory) (a : ℕ) (b : Block)
    → IsChain m a ((a, b) ∷ bs)
    → length bs < fuel
    → Merges (merge_loop fuel m a) m a (coalesce b bs)
merge_loop-coalesce [] zero m a b chain enough = absurd (omega arith)
merge_loop-coalesce (_ ∷ _) zero m a b chain enough = absurd (omega arith)
merge_loop-coalesce [] (suc fuel) m a b (here, block, above, ends) enough =
    let stop : (load32 m a == 0 || load32 m (load32 m a + 8) == 0) ≡ true = ground arith in
    subst (λ (r : Run). Merges (merge_loop (suc fuel) m a) m a r) (sym (coalesce_none b))
      (m, loop_stops fuel m a stop, (here, block, above, ends), λ x out. refl)
merge_loop-coalesce ((c, d) ∷ bs) (suc fuel) m a b chain enough =
    let (here, block, above, (linked, (real', f', s'), above', rest)) = chain in
    let at_c : load32 m (load32 m a + 8) ≡ flag d.is_free =
      ap (λ (p : ℕ). load32 m (p + 8)) linked ∙ f' in
    elim (Bool-cases d.is_free) [
      | inl free ↦
          let test : (load32 m a == 0 || load32 m (load32 m a + 8) == 0) ≡ false = ground arith in
          let (merged, same) = merge_next-IsChain m a b c d bs chain in
          let (m', returns, chain', same') =
            merge_loop-coalesce bs fuel (merge_next m a) a (grow b d) merged (omega arith) in
          subst (λ (r : Run). Merges (merge_loop (suc fuel) m a) m a r)
            (sym (coalesce_free b c d bs free))
            (m', loop_merges fuel m a test ∙ returns, chain', λ x out. same' x out ∙ same x out)
      | inr taken ↦
          let test : (load32 m a == 0 || load32 m (load32 m a + 8) == 0) ≡ true = ground arith in
          subst (λ (r : Run). Merges (merge_loop (suc fuel) m a) m a r)
            (sym (coalesce_taken b c d bs taken))
            (m, loop_stops fuel m a test, chain, λ x out. refl)
    ]
