-- ===== src/Prelude/Memory.antt =====
-- Byte-addressable memory, with 16-bit and 32-bit accesses in the little-endian order of the machine.
use Prim.Native.Nat.{ℕ, ◌+◌, ◌*◌, ◌/◌, ◌%◌, ◌^◌, ◌≤◌, ◌<◌}
use mathlib.Core.Path.{◌≡◌}
use mathlib.Core.Logic.{◌⊎◌}
use native.Mathlib.Omega.{arith}
use unix_p.Prelude.Tests.{u8, ◌==◌, if◌then◌else◌}

-- A cell holds a number, of which an access sees the low eight bits.
abbrev pub Memory : Type 0
Memory = ℕ → ℕ

unfoldable pub read : Memory → ℕ → ℕ
read m a = u8 (m a)

unfoldable pub write : Memory → ℕ → ℕ → Memory
write m a v b = if a == b then v else m b

pub read-lt : (m : Memory) (a : ℕ) → read m a < 256
unfolding read
read-lt m a = omega arith

pub read-write :
    (m : Memory) (a v b : ℕ) → read (write m a v) b ≡ (if a == b then u8 v else read m b)
unfolding read write
read-write m a v b = ground arith

unfoldable pub load32 : Memory → ℕ → ℕ
load32 m a = read m a + read m (a + 1) * 2 ^ 8 + read m (a + 2) * 2 ^ 16 + read m (a + 3) * 2 ^ 24

unfoldable pub store32 : Memory → ℕ → ℕ → Memory
store32 m a v =
    write (write (write (write m a v) (a + 1) (v / 2 ^ 8)) (a + 2) (v / 2 ^ 16)) (a + 3)
      (v / 2 ^ 24)

pub load32-lt : (m : Memory) (a : ℕ) → load32 m a < 2 ^ 32
unfolding load32
load32-lt m a = omega (arith, read-lt)

-- A store is seen in its four bytes, and nowhere else.
pub read-store32_ne :
    (m : Memory) (a v b : ℕ) → (b < a) ⊎ (a + 4 ≤ b) → read (store32 m a v) b ≡ read m b
unfolding store32 read write
read-store32_ne m a v b out = ground arith

pub load32-store32_self : (m : Memory) (a v : ℕ) → v < 2 ^ 32 → load32 (store32 m a v) a ≡ v
unfolding load32 store32 read write
load32-store32_self m a v fits = ground arith

pub load32-store32_ne :
    (m : Memory) (a v b : ℕ) → (b + 4 ≤ a) ⊎ (a + 4 ≤ b) → load32 (store32 m a v) b ≡ load32 m b
unfolding load32 store32 read write
load32-store32_ne m a v b apart = ground arith

unfoldable pub load16 : Memory → ℕ → ℕ
load16 m a = read m a + read m (a + 1) * 2 ^ 8

unfoldable pub store16 : Memory → ℕ → ℕ → Memory
store16 m a v = write (write m a v) (a + 1) (v / 2 ^ 8)

pub load16-lt : (m : Memory) (a : ℕ) → load16 m a < 2 ^ 16
unfolding load16
load16-lt m a = omega (arith, read-lt)

pub read-store16_ne :
    (m : Memory) (a v b : ℕ) → (b < a) ⊎ (a + 2 ≤ b) → read (store16 m a v) b ≡ read m b
unfolding store16 read write
read-store16_ne m a v b out = ground arith

pub load16-store16_self : (m : Memory) (a v : ℕ) → load16 (store16 m a v) a ≡ v % 2 ^ 16
unfolding load16 store16 read write
load16-store16_self m a v = ground arith

pub load16-store16_ne :
    (m : Memory) (a v b : ℕ) → (b + 2 ≤ a) ⊎ (a + 2 ≤ b) → load16 (store16 m a v) b ≡ load16 m b
unfolding load16 store16 read write
load16-store16_ne m a v b apart = ground arith
