-- ===== src/Tar/Init.antt =====
-- What `tar_init` leaves on memory that holds the allocator's blocks.
use unix_p.Prelude.{
  ℕ, ◌+◌, ◌*◌, ◌^◌, ◌≤◌, ◌<◌, ◌≡◌, ◌≢◌, refl, ◌∙◌, ◌⊎◌, inl, inr, true, false, List, length, arith,
  ◌==◌,
}
use native.Mathlib.Decide.{dec_lt, dec_le}
use unix_p.Prelude.Memory.{
  Memory, read, load32, store32, read-store32_ne, load32-store32_self, load32-store32_ne,
}
use unix_p.Pmm.{ok, fault}
use unix_p.Dmm.Layout.{Block, link, IsLayout, alloc, InUse}
use unix_p.Dmm.Alloc.{kmalloc-alloc}
use unix_p.Dmm.Fresh.{alloc-IsFresh}
use unix_p.Dmm.Calls.{IsLayout-writes}
use unix_p.Dmm.{kmalloc}
use unix_p.Tar.{tar_init}

abbrev filled : Memory → (tar tar_ptr tar_size : ℕ) → Memory
filled m tar tar_ptr tar_size = store32 (store32 m tar tar_ptr) (tar + 4) tar_size

tar_init-filled :
    (fuel first tar_ptr tar_size tar : ℕ) (m m1 : Memory)
    → kmalloc fuel m first 8 ≡ ok (tar, m1)
    → tar ≢ 0
    → tar_init fuel m first tar_ptr tar_size ≡ ok (tar, filled m1 tar tar_ptr tar_size)
unfolding tar_init
tar_init-filled fuel first tar_ptr tar_size tar m m1 returns real =
    let test : (tar == 0) ≡ false = ground arith in rw (tar_init, returns, test) refl

tar_init-null :
    (fuel first tar_ptr tar_size tar : ℕ) (m m1 : Memory)
    → kmalloc fuel m first 8 ≡ ok (tar, m1)
    → tar ≡ 0
    → tar_init fuel m first tar_ptr tar_size ≡ fault
unfolding tar_init
tar_init-null fuel first tar_ptr tar_size tar m m1 returns null =
    let test : (tar == 0) ≡ true = ground arith in rw (tar_init, returns, test) refl

read-filled :
    (m : Memory) (tar tar_ptr tar_size a : ℕ)
    → (a < tar) ⊎ (tar + 8 ≤ a)
    → read (filled m tar tar_ptr tar_size) a ≡ read m a
read-filled m tar tar_ptr tar_size a out =
    read-store32_ne (store32 m tar tar_ptr) (tar + 4) tar_size a (ground arith)
    ∙ read-store32_ne m tar tar_ptr a (ground arith)

-- The structure is in a new block: both fields are there, the blocks stand one behind the other, and no
-- byte of a block that was in use has changed.
abbrev pub IsStored :
    Memory → (end first tar tar_ptr tar_size : ℕ) → (bs bs' : List Block) → Memory → Type 0
IsStored m end first tar tar_ptr tar_size bs bs' m' =
    (load32 m' tar ≡ tar_ptr)
    × (load32 m' (tar + 4) ≡ tar_size)
    × IsLayout m' end first bs'
    × ((a : ℕ) → InUse first bs a → read m' a ≡ read m a)

filled-IsStored :
    (m m1 : Memory) (end first tar tar_ptr tar_size : ℕ) (bs bs' : List Block)
    → tar_ptr < 2 ^ 32
    → tar_size < 2 ^ 32
    → IsLayout m1 end first bs'
    → ((a : ℕ) → InUse first bs a → read m1 a ≡ read m a)
    → ((a : ℕ) → tar ≤ a → a < tar + 4 * 8 → (InUse first bs a → ⊥) × InUse first bs' a)
    → IsStored m end first tar tar_ptr tar_size bs bs' (filled m1 tar tar_ptr tar_size)
filled-IsStored m m1 end first tar tar_ptr tar_size bs bs' small small' layout used fresh = (
  load32-store32_ne (store32 m1 tar tar_ptr) (tar + 4) tar_size tar (omega arith)
      ∙ load32-store32_self m1 tar tar_ptr small,
  load32-store32_self (store32 m1 tar tar_ptr) (tar + 4) tar_size small',
  IsLayout-writes (filled m1 tar tar_ptr tar_size) m1 end first bs'
      (λ a lo unused.
        read-filled m1 tar tar_ptr tar_size a (outside a (λ from to. unused (fresh a from to).1)))
      layout,
  λ a taken.
      read-filled m1 tar tar_ptr tar_size a (outside a (λ from to. (fresh a from to).0 taken))
      ∙ used a taken,
)
  where
    outside : (a : ℕ) → (tar ≤ a → a < tar + 4 * 8 → ⊥) → (a < tar) ⊎ (tar + 8 ≤ a)
    outside a not_in = elim (dec_lt a tar) [
      | yes below ↦ inl below
      | no from ↦ elim (dec_le (tar + 8) a) [
        | yes behind ↦ inr behind
        | no inside ↦ absurd (not_in (omega arith) (omega arith))
      ]
    ]

-- On memory that holds a list of blocks one behind the other, `tar_init` of a 32-bit address and size
-- ends on more rounds than blocks: where `kmalloc` of 8 finds no block, in an access through NULL;
-- else it returns the new block's data, where both fields stand, the memory holds the list of blocks
-- that the allocation leaves, and no byte of a block that was in use has changed.
pub tar_init-IsStored :
    (fuel : ℕ) (m : Memory) (end first tar_ptr tar_size : ℕ) (bs : List Block)
    → IsLayout m end first bs
    → 0 < first
    → end < 2 ^ 32
    → length bs < fuel
    → tar_ptr < 2 ^ 32
    → tar_size < 2 ^ 32
    → let (tar, bs') = alloc first 8 bs in
      ((tar ≡ 0) × (tar_init fuel m (link end first) tar_ptr tar_size ≡ fault))
      ⊎ ((m' : Memory) × (tar_init fuel m (link end first) tar_ptr tar_size ≡ ok (tar, m'))
          × IsStored m end first tar tar_ptr tar_size bs bs' m')
tar_init-IsStored fuel m end first tar_ptr tar_size bs layout real low enough small small' =
    let tar = (alloc first 8 bs).0 in
    let (m1, returns, (layout', used, _)) =
      kmalloc-alloc fuel m end first 8 bs layout real low (omega arith) (omega arith) enough in
    elim (alloc-IsFresh bs first 8) [
      | inl null ↦
          inl (null, tar_init-null fuel (link end first) tar_ptr tar_size tar m m1 returns null)
      | inr (above, fresh) ↦ inr (
        filled m1 tar tar_ptr tar_size,
        tar_init-filled fuel (link end first) tar_ptr tar_size tar m m1 returns
            (λ null. omega arith),
        filled-IsStored m m1 end first tar tar_ptr tar_size bs ((alloc first 8 bs).1) small small'
            layout' used fresh,
      )
    ]
