-- ===== src/Dmm/Fresh.antt =====
-- The data that `kmalloc` returns were in no block in use.
use unix_p.Prelude.{
  ℕ, ◌+◌, ◌*◌, ◌^◌, ◌≤◌, ◌<◌, ◌≡◌, refl, sym, subst, ◌⊎◌, inl, inr, Bool-cases, List, [], ◌∷◌,
  length, arith,
}
use unix_p.Prelude.Memory.{Memory}
use unix_p.Pmm.{ok}
use unix_p.Dmm.Layout.{Block, end_of, link, IsLayout, alloc, InUse}
use unix_p.Dmm.Alloc.{serves, alloc-serves, alloc_passes, alloc_none, InUse-above, kmalloc-alloc}
use unix_p.Dmm.{kmalloc}

-- The `size` words at `ptr` were in no block in use, and are in one now; or `ptr` is NULL.
abbrev pub IsFresh : (at size : ℕ) → List Block → ℕ × List Block → Type 0
IsFresh at size bs (ptr, bs') =
    (ptr ≡ 0)
    ⊎ ((at + 16 ≤ ptr)
        × ((a : ℕ) → ptr ≤ a → a < ptr + 4 * size → (InUse at bs a → ⊥) × InUse at bs' a))

pub alloc-IsFresh : (bs : List Block) (at size : ℕ) → IsFresh at size bs (alloc at size bs)
alloc-IsFresh [] at size =
    subst (λ (r : ℕ × List Block). IsFresh at size [] r) (sym (alloc_none at size)) (inl refl)
alloc-IsFresh (b ∷ bs) at size = elim (Bool-cases (serves size b)) [
  | inl takes ↦
      subst (λ (r : ℕ × List Block). IsFresh at size (b ∷ bs) r)
        (sym (alloc-serves at size b bs takes))
        (inr (
          omega arith,
          λ a lo hi. (
            λ used. elim used [
              | inl (taken, _, _) ↦ ground arith
              | inr later ↦ let above = InUse-above (end_of at b.size) bs a later in ground arith
            ],
            inl (refl, lo, omega arith),
          ),
        ))
  | inr passes ↦
      subst (λ (r : ℕ × List Block). IsFresh at size (b ∷ bs) r)
        (sym (alloc_passes at size b bs passes))
        (elim (alloc-IsFresh bs (end_of at b.size) size) [
          | inl null ↦ inl null
          | inr (above, fresh) ↦ inr (
            omega arith,
            λ a lo hi.
                let (unused, now) = fresh a lo hi in
                (
                  λ used. elim used [
                    | inl (_, _, inside) ↦ absurd (omega arith)
                    | inr later ↦ unused later
                  ],
                  inr now,
                ),
          )
        ])
]

-- On memory that holds a list of blocks one behind the other, `kmalloc` of a size from 1 to 2 ^ 32 - 18
-- returns NULL, or the address of `size` words of which no byte was in a block in use and every byte is
-- in one now.
kmalloc-IsFresh :
    (fuel : ℕ) (m : Memory) (end first size : ℕ) (bs : List Block)
    → IsLayout m end first bs
    → 0 < first
    → end < 2 ^ 32
    → 0 < size
    → size + 17 < 2 ^ 32
    → length bs < fuel
    → (m' : Memory) × (result : ℕ × List Block) × (kmalloc fuel m (link end first) size
        ≡ ok (result.0, m'))
      × IsLayout m' end first result.1
      × IsFresh first size bs result
kmalloc-IsFresh fuel m end first size bs layout real small wanted fits enough =
    let (m', returns, (layout', _, _)) =
      kmalloc-alloc fuel m end first size bs layout real small wanted fits enough in
    (m', alloc first size bs, returns, layout', alloc-IsFresh bs first size)
