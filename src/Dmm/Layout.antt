-- ===== src/Dmm/Layout.antt =====
-- The list of blocks that stands in memory, and what an allocation is on it.
use unix_p.Prelude.{
  ℕ, ◌+◌, ◌-◌, ◌*◌, ◌≤◌, ◌<◌, ◌≡◌, ◌⊎◌, Bool, true, false, ◌&&◌, List, [], ◌∷◌, arith, leb, ◌==◌,
  if◌then◌else◌,
}
use unix_p.Prelude.Memory.{Memory, read}
use unix_p.Dmm.Header.{IsHeader, IsHeader-same}

-- A block as the client sees it; its size counts words.
pub record Block : Type 0 where
  pub is_free : Bool
  pub size : ℕ

abbrev pub flag : Bool → ℕ
flag b = if b then 1 else 0

-- Where a block of `size` words at `at` ends.
abbrev pub end_of : (at size : ℕ) → ℕ
end_of at size = at + 16 + 4 * size

-- The pointer to the block at `at`, which is null behind the last.
abbrev pub link : (end at : ℕ) → ℕ
link end at = if at == end then 0 else at

-- From `at` up to `end` the memory holds these blocks, each behind the last.
abbrev pub IsLayout : Memory → (end at : ℕ) → List Block → Type 0
IsLayout m end at [] = at ≡ end
IsLayout m end at (b ∷ bs) =
    IsHeader m at (link end (end_of at b.size)) (flag b.is_free) b.size
    × IsLayout m end (end_of at b.size) bs

-- The first free block that is large enough is cut in two. With it, the address of its data, or 0.
unfoldable pub alloc : (at size : ℕ) → List Block → ℕ × List Block
alloc at size [] = (0, [])
alloc at size (b ∷ bs) =
    let (ptr, bs') = alloc (end_of at b.size) size bs in
    if b.is_free && leb (size + 17) b.size
    then (
      at + 16,
      record { is_free = false; size = size }
          ∷ record { is_free = true; size = b.size - (size + 4) }
          ∷ bs,
    )
    else (ptr, b ∷ bs')

-- Byte `a` belongs to the data of a block that is in use.
abbrev pub InUse : (at : ℕ) → List Block → (a : ℕ) → Type 0
InUse at [] a = ⊥
InUse at (b ∷ bs) a =
    ((b.is_free ≡ false) × (at + 16 ≤ a) × (a < end_of at b.size)) ⊎ InUse (end_of at b.size) bs a

pub IsLayout-le : (m : Memory) (end at : ℕ) (bs : List Block) → IsLayout m end at bs → at ≤ end
IsLayout-le m end at [] h = omega arith
IsLayout-le m end at (b ∷ bs) (_, rest) =
    let further = IsLayout-le m end (end_of at b.size) bs rest in omega arith

-- A layout stays if its bytes do.
pub IsLayout-same :
    (m' m : Memory) (end at : ℕ) (bs : List Block)
    → ((a : ℕ) → at ≤ a → read m' a ≡ read m a)
    → IsLayout m end at bs
    → IsLayout m' end at bs
IsLayout-same m' m end at [] same h = h
IsLayout-same m' m end at (b ∷ bs) same (header, rest) = (
  IsHeader-same m' m at (link end (end_of at b.size)) (flag b.is_free) b.size (λ k lo hi. same k lo)
      header,
  IsLayout-same m' m end (end_of at b.size) bs (λ a lo. same a (omega arith)) rest,
)
