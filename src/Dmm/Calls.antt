-- ===== src/Dmm/Calls.antt =====
-- Any sequence of calls of `kmalloc`, between which the callers write to what they were given. Calls of
-- `kfree` are not in it: a merged block reaches into the next one, as Faults shows.
use unix_p.Prelude.{
  ℕ, suc, ◌+◌, ◌-◌, ◌*◌, ◌^◌, ◌≤◌, ◌<◌, ◌≡◌, ◌≢◌, sym, ap, subst, ◌∙◌, ◌⊎◌, inl, inr, Bool-cases,
  List, [], ◌∷◌, length, arith,
}
use unix_p.Prelude.Memory.{Memory, read}
use unix_p.Pmm.{Outcome, ok, fault, out_of_fuel}
use unix_p.Dmm.Header.{IsHeader-same}
use unix_p.Dmm.Layout.{Block, flag, end_of, link, IsLayout, alloc, InUse}
use unix_p.Dmm.Alloc.{serves, alloc-serves, alloc_passes, alloc_none, InUse-above, kmalloc-alloc}
use unix_p.Dmm.Fresh.{alloc-IsFresh}
use unix_p.Dmm.{kmalloc}

-- Byte `a` belongs to one of these areas, each an address and a number of words.
abbrev pub Owned : List (ℕ × ℕ) → (a : ℕ) → Type 0
Owned [] a = ⊥
Owned ((ptr, size) ∷ given) a = ((ptr ≤ a) × (a < ptr + 4 * size)) ⊎ Owned given a

-- No byte belongs to two of them.
abbrev pub AreApart : List (ℕ × ℕ) → Type 0
AreApart [] = Unit {0}
AreApart ((ptr, size) ∷ given) =
    ((a : ℕ) → ptr ≤ a → a < ptr + 4 * size → Owned given a → ⊥) × AreApart given

-- The memories that calls of `kmalloc` lead to from `m0`, and the areas that they have returned.
pub data Reach (first blocks : ℕ) (m0 : Memory) : Memory → List (ℕ × ℕ) → Type 0 where
  start : Reach first blocks m0 m0 []
  serve :
      {m m' : Memory} {given : List (ℕ × ℕ)} {fuel size ptr : ℕ}
      → Reach first blocks m0 m given
      → 0 < size
      → size + 17 < 2 ^ 32
      → blocks + length given < fuel
      → kmalloc fuel m first size ≡ ok (ptr, m')
      → ptr ≢ 0
      → Reach first blocks m0 m' ((ptr, size) ∷ given)
  refuse :
      {m m' : Memory} {given : List (ℕ × ℕ)} {fuel size : ℕ}
      → Reach first blocks m0 m given
      → 0 < size
      → size + 17 < 2 ^ 32
      → blocks + length given < fuel
      → kmalloc fuel m first size ≡ ok (0, m')
      → Reach first blocks m0 m' given
  write_owned :
      {m m' : Memory} {given : List (ℕ × ℕ)}
      → Reach first blocks m0 m given
      → ((a : ℕ) → (Owned given a → ⊥) → read m' a ≡ read m a)
      → Reach first blocks m0 m' given

-- The memory holds blocks one behind the other, the areas are in use, and apart.
abbrev pub IsSound : (end first blocks : ℕ) → Memory → List (ℕ × ℕ) → Type 0
IsSound end first blocks m given =
    (bs : List Block) × IsLayout m end first bs
    × (length bs ≤ blocks + length given)
    × ((a : ℕ) → Owned given a → InUse first bs a)
    × AreApart given

-- The headers are in no block in use.
pub IsLayout-writes :
    (m' m : Memory) (end at : ℕ) (bs : List Block)
    → ((a : ℕ) → at ≤ a → (InUse at bs a → ⊥) → read m' a ≡ read m a)
    → IsLayout m end at bs
    → IsLayout m' end at bs
IsLayout-writes m' m end at [] same h = h
IsLayout-writes m' m end at (b ∷ bs) same (header, rest) = (
  IsHeader-same m' m at (link end (end_of at b.size)) (flag b.is_free) b.size
      (λ k lo hi. same k lo (λ used. let above = InUse-above at (b ∷ bs) k used in omega arith))
      header,
  IsLayout-writes m' m end (end_of at b.size) bs
      (λ a lo unused. same a (omega arith) (λ used. elim used [
        | inl (_, _, inside) ↦ absurd (omega arith)
        | inr later ↦ unused later
      ]))
      rest,
)

length-alloc : (bs : List Block) (at size : ℕ) → length ((alloc at size bs).1) ≤ suc (length bs)
length-alloc [] at size =
    let nothing = ap (λ (r : ℕ × List Block). length (r.1)) (alloc_none at size) in omega arith
length-alloc (b ∷ bs) at size = elim (Bool-cases (serves size b)) [
  | inl takes ↦
      let cut = ap (λ (r : ℕ × List Block). length (r.1)) (alloc-serves at size b bs takes) in
      omega arith
  | inr passes ↦
      let same = ap (λ (r : ℕ × List Block). length (r.1)) (alloc_passes at size b bs passes) in
      let rest = length-alloc bs (end_of at b.size) size in omega arith
]

-- A call that returns NULL leaves the list.
alloc_null : (bs : List Block) (at size : ℕ) → (alloc at size bs).0 ≡ 0 → (alloc at size bs).1 ≡ bs
alloc_null [] at size null = ap (λ (r : ℕ × List Block). r.1) (alloc_none at size)
alloc_null (b ∷ bs) at size null = elim (Bool-cases (serves size b)) [
  | inl takes ↦
      let ptr = ap (λ (r : ℕ × List Block). r.0) (alloc-serves at size b bs takes) in
      absurd (omega arith)
  | inr passes ↦
      let ptr = ap (λ (r : ℕ × List Block). r.0) (alloc_passes at size b bs passes) in
      ap (λ (r : ℕ × List Block). r.1) (alloc_passes at size b bs passes)
      ∙ ap (λ (t : List Block). b ∷ t) (alloc_null bs (end_of at b.size) size (sym ptr ∙ null))
]

-- What was in use stays in use.
alloc-InUse : (bs : List Block) (at size a : ℕ) → InUse at bs a → InUse at ((alloc at size bs).1) a
alloc-InUse [] at size a used = absurd used
alloc-InUse (b ∷ bs) at size a used = elim (Bool-cases (serves size b)) [
  | inl takes ↦
      let same_end : end_of (end_of at size) (b.size - (size + 4)) ≡ end_of at b.size =
        ground arith in
      subst (λ (r : ℕ × List Block). InUse at (r.1) a) (sym (alloc-serves at size b bs takes))
        (elim used [
          | inl (taken, _, _) ↦ absurd (ground arith)
          | inr later ↦ inr (inr (subst (λ (e : ℕ). InUse e bs a) (sym same_end) later))
        ])
  | inr passes ↦
      subst (λ (r : ℕ × List Block). InUse at (r.1) a) (sym (alloc_passes at size b bs passes))
        (elim used [
          | inl here ↦ inl here
          | inr later ↦ inr (alloc-InUse bs (end_of at b.size) size a later)
        ])
]

abbrev value_of : ℕ × Memory → Outcome (ℕ × Memory) → ℕ × Memory
value_of r (ok r') = r'
value_of r fault = r
value_of r out_of_fuel = r

module _ (end first blocks : ℕ) (m0 : Memory) (real : 0 < first) (more : first < end)
    (small : end < 2 ^ 32) where
  -- What one call does.
  abbrev Called : Memory → (size : ℕ) → List Block → (ptr : ℕ) → Memory → Type 0
  Called m size bs ptr m' =
      (ptr ≡ (alloc first size bs).0) × IsLayout m' end first ((alloc first size bs).1)

  called :
      (m m' : Memory) (fuel size ptr : ℕ) (bs : List Block)
      → IsLayout m end first bs
      → 0 < size
      → size + 17 < 2 ^ 32
      → length bs < fuel
      → kmalloc fuel m first size ≡ ok (ptr, m')
      → Called m size bs ptr m'
  called m m' fuel size ptr bs layout wanted fits enough result =
      let (m1, returns, (layout', _, _)) =
        kmalloc-alloc fuel m end first size bs layout real small wanted fits enough in
      let here : link end first ≡ first = ground arith in
      let same : ok (ptr, m') ≡ ok ((alloc first size bs).0, m1) =
        sym result ∙ ap (λ (p : ℕ). kmalloc fuel m p size) (sym here) ∙ returns in
      (
        ap (λ (o : Outcome (ℕ × Memory)). (value_of (ptr, m') o).0) same,
        subst (λ (t : Memory). IsLayout t end first ((alloc first size bs).1))
            (sym (ap (λ (o : Outcome (ℕ × Memory)). (value_of (ptr, m') o).1) same)) layout',
      )

  IsSound-serve :
      (m m' : Memory) (given : List (ℕ × ℕ)) (fuel size ptr : ℕ)
      → 0 < size
      → size + 17 < 2 ^ 32
      → blocks + length given < fuel
      → kmalloc fuel m first size ≡ ok (ptr, m')
      → ptr ≢ 0
      → IsSound end first blocks m given
      → IsSound end first blocks m' ((ptr, size) ∷ given)
  IsSound-serve m m' given fuel size ptr wanted fits enough result real_one
        (bs, layout, few, used, apart) =
      let (at, layout') = called m m' fuel size ptr bs layout wanted fits (omega arith) result in
      let grown = length-alloc bs first size in
      let (_, fresh) : (first + 16 ≤ ptr)
          × ((a : ℕ)
              → ptr ≤ a
              → a < ptr + 4 * size
              → (InUse first bs a → ⊥) × InUse first ((alloc first size bs).1) a) =
        subst
          (λ (p : ℕ).
            (first + 16 ≤ p)
            × ((a : ℕ)
                → p ≤ a
                → a < p + 4 * size
                → (InUse first bs a → ⊥) × InUse first ((alloc first size bs).1) a))
          (sym at)
          (elim (alloc-IsFresh bs first size) [
            | inl null ↦ absurd (real_one (at ∙ null))
            | inr h ↦ h
          ]) in
      (
        (alloc first size bs).1,
        layout',
        omega arith,
        λ a owned. elim owned [
          | inl (lo, hi) ↦ (fresh a lo hi).1
          | inr later ↦ alloc-InUse bs first size a (used a later)
        ],
        (λ a lo hi owned. (fresh a lo hi).0 (used a owned), apart),
      )

  IsSound-refuse :
      (m m' : Memory) (given : List (ℕ × ℕ)) (fuel size : ℕ)
      → 0 < size
      → size + 17 < 2 ^ 32
      → blocks + length given < fuel
      → kmalloc fuel m first size ≡ ok (0, m')
      → IsSound end first blocks m given
      → IsSound end first blocks m' given
  IsSound-refuse m m' given fuel size wanted fits enough result (bs, layout, few, used, apart) =
      let (at, layout') = called m m' fuel size 0 bs layout wanted fits (omega arith) result in
      (
        bs,
        subst (λ (t : List Block). IsLayout m' end first t) (alloc_null bs first size (sym at))
            layout',
        few,
        used,
        apart,
      )

  IsSound-write :
      (m m' : Memory) (given : List (ℕ × ℕ))
      → ((a : ℕ) → (Owned given a → ⊥) → read m' a ≡ read m a)
      → IsSound end first blocks m given
      → IsSound end first blocks m' given
  IsSound-write m m' given same (bs, layout, few, used, apart) = (
    bs,
    IsLayout-writes m' m end first bs (λ a lo unused. same a (λ owned. unused (used a owned)))
        layout,
    few,
    used,
    apart,
  )

  Reach-IsSound :
      (m : Memory) (given : List (ℕ × ℕ))
      → IsSound end first blocks m0 []
      → Reach first blocks m0 m given
      → IsSound end first blocks m given
  Reach-IsSound m given sound start = sound
  Reach-IsSound m given sound
        (serve {m = m1} {m' = m2} {given = g} {fuel} {size} {ptr} before wanted fits enough result
          real_one) =
      IsSound-serve m1 m2 g fuel size ptr wanted fits enough result real_one
        (Reach-IsSound m1 g sound before)
  Reach-IsSound m given sound
        (refuse {m = m1} {m' = m2} {given = g} {fuel} {size} before wanted fits enough result) =
      IsSound-refuse m1 m2 g fuel size wanted fits enough result (Reach-IsSound m1 g sound before)
  Reach-IsSound m given sound (write_owned {m = m1} {m' = m2} {given = g} before same) =
      IsSound-write m1 m2 g same (Reach-IsSound m1 g sound before)

-- From memory that holds a list of blocks one behind the other, whatever calls of `kmalloc` of sizes
-- from 1 to 2 ^ 32 - 18 are made, and whatever is written to what they have returned, in any order, the
-- memory still holds blocks one behind the other; every byte of what was returned is in a block in use,
-- and no byte was returned twice.
pub kmalloc-IsSound :
    (m0 m : Memory) (end first : ℕ) (bs : List Block) (given : List (ℕ × ℕ))
    → IsLayout m0 end first bs
    → 0 < first
    → first < end
    → end < 2 ^ 32
    → Reach first (length bs) m0 m given
    → IsSound end first (length bs) m given
kmalloc-IsSound m0 m end first bs given layout real more small reached =
    Reach-IsSound end first (length bs) m0 real more small m given
      (bs, layout, omega arith, λ a owned. absurd owned, tt) reached
