-- ===== src/Dmm/Header.antt =====
-- What the writes to one header change.
use unix_p.Prelude.{ℕ, ◌+◌, ◌-◌, ◌*◌, ◌/◌, ◌^◌, ◌≤◌, ◌<◌, ◌≡◌, ◌∙◌, ◌⊎◌, arith, u32, sub_u32}
use unix_p.Prelude.Memory.{
  Memory, read, load32, load32-lt, store32, load32-store32_self, load32-store32_ne, read-store32_ne,
}
use unix_p.Tools.Fill.{tmemset, read-tmemset}
use unix_p.Dmm.{make_third, make_second}

-- The memories agree outside the 16 bytes of the header at `h`.
abbrev pub SameBut : (h : ℕ) → Memory → Memory → Type 0
SameBut h m' m = (a : ℕ) → (a < h) ⊎ (h + 16 ≤ a) → read m' a ≡ read m a

pub load32_same :
    (m' m : Memory) (a : ℕ)
    → ((k : ℕ) → a ≤ k → k < a + 4 → read m' k ≡ read m k)
    → load32 m' a ≡ load32 m a
unfolding load32
load32_same m' m a same = ground (arith, same a, same (a + 1), same (a + 2), same (a + 3))

pub load32-SameBut :
    (h : ℕ) (m' m : Memory) (a : ℕ)
    → SameBut h m' m
    → (a + 4 ≤ h) ⊎ (h + 16 ≤ a)
    → load32 m' a ≡ load32 m a
load32-SameBut h m' m a same apart = load32_same m' m a (λ k lo hi. same k (ground arith))

-- A header with these fields.
abbrev pub IsHeader : Memory → (at next free size : ℕ) → Type 0
IsHeader m at next free size =
    (load32 m at ≡ next) × (load32 m (at + 8) ≡ free) × (load32 m (at + 12) ≡ size)

pub IsHeader-same :
    (m' m : Memory) (at next free size : ℕ)
    → ((k : ℕ) → at ≤ k → k < at + 16 → read m' k ≡ read m k)
    → IsHeader m at next free size
    → IsHeader m' at next free size
IsHeader-same m' m at next free size same (n, f, s) = (
  load32_same m' m at (λ k lo hi. same k lo (omega arith)) ∙ n,
  load32_same m' m (at + 8) (λ k lo hi. same k (omega arith) (omega arith)) ∙ f,
  load32_same m' m (at + 12) (λ k lo hi. same k (omega arith) (omega arith)) ∙ s,
)

pub make_second-IsHeader :
    (m : Memory) (second third size : ℕ)
    → third < 2 ^ 32
    → size < 2 ^ 32
    → IsHeader (make_second m second third size) second third 0 size
unfolding make_second
make_second-IsHeader m second third size small1 small2 =
    let m1 = store32 m (second + 12) size in
    let m2 = store32 m1 second third in
    let m3 = store32 m2 (second + 8) 0 in
    (
      load32-store32_ne m3 (second + 4) 0 second (omega arith)
          ∙ load32-store32_ne m2 (second + 8) 0 second (omega arith)
          ∙ load32-store32_self m1 second third small1,
      load32-store32_ne m3 (second + 4) 0 (second + 8) (omega arith)
          ∙ load32-store32_self m2 (second + 8) 0 (omega arith),
      load32-store32_ne m3 (second + 4) 0 (second + 12) (omega arith)
          ∙ load32-store32_ne m2 (second + 8) 0 (second + 12) (omega arith)
          ∙ load32-store32_ne m1 second third (second + 12) (omega arith)
          ∙ load32-store32_self m (second + 12) size small2,
    )

pub make_second-SameBut :
    (m : Memory) (second third size : ℕ) → SameBut second (make_second m second third size) m
unfolding make_second
make_second-SameBut m second third size a out =
    let m1 = store32 m (second + 12) size in
    let m2 = store32 m1 second third in
    let m3 = store32 m2 (second + 8) 0 in
    read-store32_ne m3 (second + 4) 0 a (ground arith)
    ∙ read-store32_ne m2 (second + 8) 0 a (ground arith)
    ∙ read-store32_ne m1 second third a (ground arith)
    ∙ read-store32_ne m (second + 12) size a (ground arith)

pub make_third-SameBut : (m : Memory) (block third : ℕ) → SameBut third (make_third m block third) m
unfolding make_third
make_third-SameBut m block third a out =
    let m1 = tmemset m third 0 16 in
    let v2 = sub_u32 (load32 m1 (block + 12)) (u32 ((third + 16 - (block + 16)) / 4)) in
    let m2 = store32 m1 (third + 12) v2 in
    let m3 = store32 m2 third (load32 m2 block) in
    read-store32_ne m3 (third + 8) 1 a (ground arith)
    ∙ read-store32_ne m2 third (load32 m2 block) a (ground arith)
    ∙ read-store32_ne m1 (third + 12) v2 a (ground arith)
    ∙ read-tmemset m third 0 16 a
    ∙ ground arith

-- The free block that a block of `s` words leaves behind a new one of `size`.
pub make_third-IsHeader :
    (m : Memory) (block size s next free : ℕ)
    → IsHeader m block next free s
    → size + 4 ≤ s
    → block + 16 + 4 * size < 2 ^ 32
    → IsHeader
        (make_third m block (block + 16 + 4 * size))
        (block + 16 + 4 * size)
        next
        1
        (s - (size + 4))
unfolding make_third
make_third-IsHeader m block size s next free (n, f, sz) fits small =
    let third = block + 16 + 4 * size in
    let m1 = tmemset m third 0 16 in
    let v2 = sub_u32 (load32 m1 (block + 12)) (u32 ((third + 16 - (block + 16)) / 4)) in
    let m2 = store32 m1 (third + 12) v2 in
    let m3 = store32 m2 third (load32 m2 block) in
    let kept : (a : ℕ) → a + 4 ≤ third → load32 m1 a ≡ load32 m a =
      λ a below. load32_same m1 m a (λ k lo hi. read-tmemset m third 0 16 k ∙ ground arith) in
    let next' : load32 m2 block ≡ next =
      load32-store32_ne m1 (third + 12) v2 block (omega arith) ∙ kept block (omega arith) ∙ n in
    let size' : v2 ≡ s - (size + 4) =
      let now : load32 m1 (block + 12) ≡ s = kept (block + 12) (omega arith) ∙ sz in
      let bound = load32-lt m1 (block + 12) in omega arith in
    (
      load32-store32_ne m3 (third + 8) 1 third (omega arith)
          ∙ load32-store32_self m2 third (load32 m2 block) (load32-lt m2 block)
          ∙ next',
      load32-store32_self m3 (third + 8) 1 (omega arith),
      load32-store32_ne m3 (third + 8) 1 (third + 12) (omega arith)
          ∙ load32-store32_ne m2 third (load32 m2 block) (third + 12) (omega arith)
          ∙ load32-store32_self m1 (third + 12) v2 (omega arith)
          ∙ size',
    )
