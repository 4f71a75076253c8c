-- ===== src/Tools/Fill.antt =====
-- `tmemset`, `tmemsetw` and `tmemsetd` of kernel/tools/t_mem.c. Each returns its pointer, which
-- the models leave out; a loop recurs on the rounds that are left.
use unix_p.Prelude.{
  ℕ, zero, suc, ◌+◌, ◌-◌, ◌*◌, ◌≤◌, ◌<◌, ◌≡◌, refl, ◌∙◌, inl, ◌==◌, ◌^◌, ◌/◌, ◌&&◌, arith, ltb, leb,
  u8, if◌then◌else◌, ◌⊎◌,
}
use native.Mathlib.Decide.{dec_lt, ℕ_discrete}
use unix_p.Prelude.Memory.{
  load32, load32-store32_self, load32-store32_ne, Memory, read, write, read-write, store32,
  read-store32_ne, store16,
}

tmemset_loop : ℕ → ℕ → ℕ → ℕ → Memory → Memory
tmemset_loop zero i ptr n m = m
tmemset_loop (suc left) i ptr n m = tmemset_loop left (i + 1) ptr n (write m (ptr + i) n)

unfoldable pub tmemset : Memory → ℕ → ℕ → ℕ → Memory
unfolding tmemset_loop
tmemset m ptr n size = tmemset_loop size 0 ptr n m

tmemsetw_loop : ℕ → ℕ → ℕ → ℕ → Memory → Memory
tmemsetw_loop zero i ptr n m = m
tmemsetw_loop (suc left) i ptr n m = tmemsetw_loop left (i + 1) ptr n (store16 m (ptr + 2 * i) n)

unfoldable pub tmemsetw : Memory → ℕ → ℕ → ℕ → Memory
unfolding tmemsetw_loop
tmemsetw m ptr n size = tmemsetw_loop size 0 ptr n m

tmemsetd_loop : ℕ → ℕ → ℕ → ℕ → Memory → Memory
tmemsetd_loop zero i ptr n m = m
tmemsetd_loop (suc left) i ptr n m = tmemsetd_loop left (i + 1) ptr n (store32 m (ptr + 4 * i) n)

unfoldable pub tmemsetd : Memory → ℕ → ℕ → ℕ → Memory
unfolding tmemsetd_loop
tmemsetd m ptr n size = tmemsetd_loop size 0 ptr n m

read-tmemset_loop :
    (left i ptr n : ℕ) (m : Memory) (a : ℕ)
    → read (tmemset_loop left i ptr n m) a
      ≡ (if leb (ptr + i) a && ltb a (ptr + i + left) then u8 n else read m a)
unfolding tmemset_loop
read-tmemset_loop zero i ptr n m a = ground arith
read-tmemset_loop (suc left) i ptr n m a = ground (
  arith,
  read-tmemset_loop left (i + 1) ptr n (write m (ptr + i) n) a,
  read-write m (ptr + i) n a,
)

-- `tmemset` writes the byte to each of the `size` addresses from `ptr` on, and to no other.
pub read-tmemset :
    (m : Memory) (ptr n size a : ℕ)
    → read (tmemset m ptr n size) a ≡ (if leb ptr a && ltb a (ptr + size) then u8 n else read m a)
unfolding tmemset
read-tmemset m ptr n size a = ground (arith, read-tmemset_loop size 0 ptr n m a)

tmemsetd_loop-below :
    (left i ptr n : ℕ) (m : Memory) (a : ℕ)
    → (a < ptr + 4 * i) ⊎ (ptr + 4 * (i + left) ≤ a)
    → read (tmemsetd_loop left i ptr n m) a ≡ read m a
unfolding tmemsetd_loop
tmemsetd_loop-below zero i ptr n m a out = refl
tmemsetd_loop-below (suc left) i ptr n m a out = ground (
  arith,
  tmemsetd_loop-below left (i + 1) ptr n (store32 m (ptr + 4 * i) n) a,
  read-store32_ne m (ptr + 4 * i) n a,
)

read-store16 :
    (m : Memory) (d v a : ℕ)
    → read (store16 m d v) a
      ≡ (if a == d then u8 v else if a == d + 1 then u8 (v / 2 ^ 8) else read m a)
unfolding store16 read write
read-store16 m d v a = ground arith

tmemsetw_loop-out :
    (left i ptr n : ℕ) (m : Memory) (a : ℕ)
    → (a < ptr + 2 * i) ⊎ (ptr + 2 * (i + left) ≤ a)
    → read (tmemsetw_loop left i ptr n m) a ≡ read m a
unfolding tmemsetw_loop
tmemsetw_loop-out zero i ptr n m a out = refl
tmemsetw_loop-out (suc left) i ptr n m a out = ground (
  arith,
  tmemsetw_loop-out left (i + 1) ptr n (store16 m (ptr + 2 * i) n) a,
  read-store16 m (ptr + 2 * i) n a,
)

tmemsetw_loop-in :
    (left i ptr n : ℕ) (m : Memory) (k : ℕ)
    → i ≤ k
    → k < i + left
    → (read (tmemsetw_loop left i ptr n m) (ptr + 2 * k) ≡ u8 n)
      × (read (tmemsetw_loop left i ptr n m) (ptr + 2 * k + 1) ≡ u8 (n / 2 ^ 8))
unfolding tmemsetw_loop
tmemsetw_loop-in zero i ptr n m k lo hi = absurd (omega arith)
tmemsetw_loop-in (suc left) i ptr n m k lo hi =
    let m1 = store16 m (ptr + 2 * i) n in
    elim (dec_lt i k) [
      | yes later ↦ tmemsetw_loop-in left (i + 1) ptr n m1 k (omega arith) (omega arith)
      | no past ↦
          let here : k ≡ i = omega arith in
          rw here (
            tmemsetw_loop-out left (i + 1) ptr n m1 (ptr + 2 * i) (inl (omega arith))
                ∙ ground (arith, read-store16 m (ptr + 2 * i) n (ptr + 2 * i)),
            tmemsetw_loop-out left (i + 1) ptr n m1 (ptr + 2 * i + 1) (inl (omega arith))
                ∙ ground (arith, read-store16 m (ptr + 2 * i) n (ptr + 2 * i + 1)),
          )
    ]

-- `tmemsetw` writes the unit to each of the `size` places from `ptr` on, and changes no other byte.
pub tmemsetw_lem :
    (m : Memory) (ptr n size : ℕ)
    → ((k : ℕ)
        → k < size
        → (read (tmemsetw m ptr n size) (ptr + 2 * k) ≡ u8 n)
          × (read (tmemsetw m ptr n size) (ptr + 2 * k + 1) ≡ u8 (n / 2 ^ 8)))
      × ((a : ℕ) → (a < ptr) ⊎ (ptr + 2 * size ≤ a) → read (tmemsetw m ptr n size) a ≡ read m a)
unfolding tmemsetw
tmemsetw_lem m ptr n size = (
  λ k lo. tmemsetw_loop-in size 0 ptr n m k (omega arith) (omega arith),
  λ a out. tmemsetw_loop-out size 0 ptr n m a (ground arith),
)

load32-tmemsetd_loop :
    (left i ptr n : ℕ) (m : Memory) (k : ℕ)
    → n < 2 ^ 32
    → load32 (tmemsetd_loop left i ptr n m) (ptr + 4 * k)
      ≡ (if leb i k && ltb k (i + left) then n else load32 m (ptr + 4 * k))
unfolding tmemsetd_loop
load32-tmemsetd_loop zero i ptr n m k fits = ground arith
load32-tmemsetd_loop (suc left) i ptr n m k fits =
    let rest = load32-tmemsetd_loop left (i + 1) ptr n (store32 m (ptr + 4 * i) n) k fits in
    elim (ℕ_discrete k i) [
      | yes here ↦
          let one = load32-store32_self m (ptr + 4 * i) n fits in rest ∙ ground (arith, here, one)
      | no away ↦
          let one = load32-store32_ne m (ptr + 4 * i) n (ptr + 4 * k) (ground arith) in ground arith
    ]

-- The words of an array from `base` on, behind `tmemsetd` of `size` of them from number `first` on.
pub load32-tmemsetd :
    (m : Memory) (base first n size k : ℕ)
    → n < 2 ^ 32
    → load32 (tmemsetd m (base + 4 * first) n size) (base + 4 * k)
      ≡ (if leb first k && ltb k (first + size) then n else load32 m (base + 4 * k))
unfolding tmemsetd load32
load32-tmemsetd m base first n size k fits = elim (dec_lt k first) [
  | yes before ↦
      let below = λ (a : ℕ) (low : a < base + 4 * first).
        tmemsetd_loop-below size 0 (base + 4 * first) n m a (inl (omega arith)) in
      let b0 = below (base + 4 * k) (omega arith) in
      let b1 = below (base + 4 * k + 1) (omega arith) in
      let b2 = below (base + 4 * k + 2) (omega arith) in
      let b3 = below (base + 4 * k + 3) (omega arith) in ground (arith, b0, b1, b2, b3)
  | no inside ↦
      let at : base + 4 * k ≡ base + 4 * first + 4 * (k - first) = omega arith in
      let loop = load32-tmemsetd_loop size 0 (base + 4 * first) n m (k - first) fits in
      rw at (loop ∙ ground arith)
]
