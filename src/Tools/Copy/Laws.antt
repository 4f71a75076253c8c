-- ===== src/Tools/Copy/Laws.antt =====
-- What the copies and the comparison do.
use unix_p.Prelude.{
  ℕ, zero, suc, ◌+◌, ◌-◌, ◌*◌, ◌^◌, ◌≤◌, ◌<◌, ◌≡◌, refl, ap, ◌∙◌, ◌↔◌, ◌⊎◌, ◌&&◌, Option, none,
  some, true, false, arith, ltb, leb, ◌==◌, if◌then◌else◌, u16,
}
use native.Mathlib.Decide.{dec_lt}
use unix_p.Prelude.Int.{pos}
use unix_p.Prelude.Memory.{
  Memory, read, read-lt, write, read-write, load16, store16, load32, load32-lt, store32,
  load32-store32_self, load32-store32_ne,
}
use unix_p.Tools.Mirror.{swapped, mirror, mirror_base, mirror_done, mirror_step}
use unix_p.Tools.Copy.{
  tmemcpy_loop, tmemcpy, tmemcpyw_loop, tmemcpyw, tmemcpyd_inv_loop, tmemcpyd_inv, tmemcmp_loop,
  tmemcmp, swap32,
}

-- A forward copy reads no byte that it has written: the target does not start inside the source.
abbrev pub IsForward : (dest src n : ℕ) → Type 0
IsForward dest src n = (dest ≤ src) ⊎ (src + n ≤ dest)

-- Byte `a` of a memory into which `n` bytes from `src` were copied to `dest`.
abbrev pub copied : Memory → (dest src n a : ℕ) → ℕ
copied m dest src n a =
    if leb dest a && ltb a (dest + n) then read m (src + (a - dest)) else read m a

read-tmemcpy_loop :
    (left i dest src n : ℕ) (m : Memory) (a : ℕ)
    → i + left ≡ n
    → IsForward dest src n
    → read (tmemcpy_loop left i dest src m) a
      ≡ (if leb (dest + i) a && ltb a (dest + n) then read m (src + (a - dest)) else read m a)
unfolding tmemcpy_loop
read-tmemcpy_loop zero i dest src n m a ends fwd = ground arith
read-tmemcpy_loop (suc left) i dest src n m a ends fwd = ground (
  arith,
  read-tmemcpy_loop left (i + 1) dest src n (write m (dest + i) (read m (src + i))) a,
  read-write m (dest + i) (read m (src + i)) a,
  read-write m (dest + i) (read m (src + i)) (src + (a - dest)),
  read-lt m (src + i),
)

-- If the target does not start inside the source, `tmemcpy` copies the `n` bytes as they were, and
-- changes no other.
pub read-tmemcpy :
    (m : Memory) (dest src n a : ℕ)
    → IsForward dest src n
    → read (tmemcpy m dest src n) a ≡ copied m dest src n a
unfolding tmemcpy
read-tmemcpy m dest src n a fwd = ground (arith, read-tmemcpy_loop n 0 dest src n m a)

read-store16-load16 :
    (m : Memory) (d s a : ℕ)
    → read (store16 m d (load16 m s)) a
      ≡ (if a == d then read m s else if a == d + 1 then read m (s + 1) else read m a)
unfolding store16 load16 read write
read-store16-load16 m d s a = ground arith

-- From round `i` on, a copy of 16-bit units that has enough fuel ends.
abbrev pub IsCopied16 : Memory → (dest src i n : ℕ) → Option Memory → Type 0
IsCopied16 m dest src i n none = ⊥
IsCopied16 m dest src i n (some m') =
    (a : ℕ)
    → read m' a ≡ (
        if leb (dest + 2 * i) a && ltb a (dest + 2 * n)
        then read m (src + (a - dest))
        else read m a)

IsCopied16-cons :
    (m : Memory) (dest src i n : ℕ) (r : Option Memory)
    → i < n
    → IsForward dest src (2 * n)
    → IsCopied16 (store16 m (dest + 2 * i) (load16 m (src + 2 * i))) dest src (i + 1) n r
    → IsCopied16 m dest src i n r
IsCopied16-cons m dest src i n none more fwd h = h
IsCopied16-cons m dest src i n (some m') more fwd h = λ a. ground (
  arith,
  h a,
  read-store16-load16 m (dest + 2 * i) (src + 2 * i) a,
  read-store16-load16 m (dest + 2 * i) (src + 2 * i) (src + (a - dest)),
)

tmemcpyw_loop-IsCopied16 :
    (fuel i dest src n : ℕ) (m : Memory)
    → n < 2 ^ 16
    → i ≤ n
    → n < i + fuel
    → IsForward dest src (2 * n)
    → IsCopied16 m dest src i n (tmemcpyw_loop fuel i n dest src m)
unfolding tmemcpyw_loop
tmemcpyw_loop-IsCopied16 zero i dest src n m small below enough fwd = absurd (omega arith)
tmemcpyw_loop-IsCopied16 (suc fuel) i dest src n m small below enough fwd = elim (dec_lt i n) [
  | yes more ↦
      let goes_on : ltb i n ≡ true = ground arith in
      let next : u16 (i + 1) ≡ i + 1 = omega arith in
      let m1 = store16 m (dest + 2 * i) (load16 m (src + 2 * i)) in
      rw (goes_on, next)
        (IsCopied16-cons m dest src i n (tmemcpyw_loop fuel (i + 1) n dest src m1) more fwd (
          tmemcpyw_loop-IsCopied16 fuel (i + 1) dest src n m1 small (omega arith) (omega arith)
            fwd))
  | no done ↦ let ends : ltb i n ≡ false = ground arith in rw ends (λ a. ground arith)
]

-- For fewer than 2 ^ 16 units, on more rounds than units, and a target that does not start inside
-- the source, `tmemcpyw` ends, having copied the units as they were and changed no other byte.
pub tmemcpyw-IsCopied16 :
    (fuel : ℕ) (m : Memory) (dest src n : ℕ)
    → n < 2 ^ 16
    → n < fuel
    → IsForward dest src (2 * n)
    → IsCopied16 m dest src 0 n (tmemcpyw fuel m dest src n)
unfolding tmemcpyw
tmemcpyw-IsCopied16 fuel m dest src n small enough fwd =
    tmemcpyw_loop-IsCopied16 fuel 0 dest src n m small (omega arith) (omega arith) fwd

tmemcpyw_loop-eq-none :
    (fuel i dest src n : ℕ) (m : Memory)
    → i < 2 ^ 16
    → 2 ^ 16 ≤ n
    → tmemcpyw_loop fuel i n dest src m ≡ none
unfolding tmemcpyw_loop
tmemcpyw_loop-eq-none zero i dest src n m low high = refl
tmemcpyw_loop-eq-none (suc fuel) i dest src n m low high =
    let goes_on : ltb i n ≡ true = ground arith in
    rw goes_on (tmemcpyw_loop-eq-none fuel (u16 (i + 1)) dest src n _ (omega arith) high)

-- For 2 ^ 16 units or more `tmemcpyw` never ends: no number of rounds is enough.
pub tmemcpyw-eq-none :
    (fuel : ℕ) (m : Memory) (dest src n : ℕ) → 2 ^ 16 ≤ n → tmemcpyw fuel m dest src n ≡ none
unfolding tmemcpyw
tmemcpyw-eq-none fuel m dest src n high =
    tmemcpyw_loop-eq-none fuel 0 dest src n m (omega arith) high

load32-store32_slot :
    (m : Memory) (arr i k v : ℕ)
    → v < 2 ^ 32
    → load32 (store32 m (arr + 4 * i) v) (arr + 4 * k)
      ≡ (if k == i then v else load32 m (arr + 4 * k))
load32-store32_slot m arr i k v small = ground (
  arith,
  load32-store32_self m (arr + 4 * i) v,
  load32-store32_ne m (arr + 4 * i) v (arr + 4 * k),
)

load32-swap32 :
    (m : Memory) (arr i j k : ℕ)
    → load32 (swap32 m (arr + 4 * i) (arr + 4 * j)) (arr + 4 * k)
      ≡ load32 m (arr + 4 * swapped i j k)
load32-swap32 m arr i j k =
    let m1 = store32 m (arr + 4 * i) (load32 m (arr + 4 * j)) in
    ground (
      arith,
      load32-store32_slot m1 arr j k (load32 m (arr + 4 * i)),
      load32-store32_slot m arr i k (load32 m (arr + 4 * j)),
      load32-lt m (arr + 4 * i),
      load32-lt m (arr + 4 * j),
    )

tmemcpyd_inv_loop-mirror :
    (end start arr k : ℕ) (m : Memory)
    → load32 (tmemcpyd_inv_loop arr start end m) (arr + 4 * k)
      ≡ load32 m (arr + 4 * mirror start end k)
unfolding tmemcpyd_inv_loop
tmemcpyd_inv_loop-mirror zero start arr k m = rw mirror_base
tmemcpyd_inv_loop-mirror (suc end) start arr k m =
    let m1 = swap32 m (arr + 4 * start) (arr + 4 * suc end) in
    elim (dec_lt start (suc end)) [
      | yes more ↦
          let goes_on : ltb start (suc end) ≡ true = ground arith in
          rw goes_on (
            tmemcpyd_inv_loop-mirror end (start + 1) arr k m1
            ∙ load32-swap32 m arr start (suc end) (mirror (start + 1) end k)
            ∙ ap (λ (t : ℕ). load32 m (arr + 4 * t)) (mirror_step start end k more))
      | no done ↦
          let ends : ltb start (suc end) ≡ false = ground arith in
          rw (ends, mirror_done start (suc end) k (omega arith))
    ]

-- `tmemcpyd_inv` of `n` words, `n` below 2 ^ 31, reverses `n` + 1: the words 0 to `n` of the array
-- change places end for end, the one behind the array among them, and no later word changes. From 2 ^
-- 31 on it changes no word.
pub tmemcpyd_inv_lem :
    (m : Memory) (arr n k : ℕ)
    → load32 (tmemcpyd_inv m arr n) (arr + 4 * k)
      ≡ load32 m (arr + 4 * (if leb k n && ltb n (2 ^ 31) then n - k else k))
unfolding tmemcpyd_inv mirror
tmemcpyd_inv_lem m arr n k = elim (dec_lt n (2 ^ 31)) [
  | yes positive ↦
      let test : ltb n (2 ^ 31) ≡ true = ground arith in
      rw test (
        tmemcpyd_inv_loop-mirror n 0 arr k m
        ∙ ap (λ (t : ℕ). load32 m (arr + 4 * t)) (ground arith))
  | no negative ↦
      let test : ltb n (2 ^ 31) ≡ false = ground arith in
      let stays : (if leb k n && false then n - k else k) ≡ k = ground arith in
      rw (test, stays) refl
]

-- The two areas agree from byte `i` on, for `left` bytes.
abbrev pub Agree : Memory → (s1 s2 i left : ℕ) → Type 0
Agree m s1 s2 i left = (k : ℕ) → i ≤ k → k < i + left → read m (s1 + k) ≡ read m (s2 + k)

tmemcmp_loop-Agree :
    (left i s1 s2 : ℕ) (m : Memory) → tmemcmp_loop left i s1 s2 m ≡ pos 0 → Agree m s1 s2 i left
unfolding tmemcmp_loop
tmemcmp_loop-Agree zero i s1 s2 m h k lo hi = absurd (omega arith)
tmemcmp_loop-Agree (suc left) i s1 s2 m h k lo hi = elim (dec_lt i k) [
  | yes later ↦
      let rest : tmemcmp_loop left (i + 1) s1 s2 m ≡ pos 0 = ground arith in
      tmemcmp_loop-Agree left (i + 1) s1 s2 m rest k (omega arith) (omega arith)
  | no here ↦ let now : k ≡ i = omega arith in rw now (ground arith)
]

Agree-tmemcmp_loop :
    (left i s1 s2 : ℕ) (m : Memory) → Agree m s1 s2 i left → tmemcmp_loop left i s1 s2 m ≡ pos 0
unfolding tmemcmp_loop
Agree-tmemcmp_loop zero i s1 s2 m h = refl
Agree-tmemcmp_loop (suc left) i s1 s2 m h = ground (
  arith,
  h i,
  Agree-tmemcmp_loop left (i + 1) s1 s2 m (λ k lo hi. h k (omega arith) (omega arith)),
)

-- `tmemcmp` returns 0 exactly if the two areas agree in all `n` bytes.
pub tmemcmp_iff : (m : Memory) (s1 s2 n : ℕ) → (tmemcmp m s1 s2 n ≡ pos 0) ↔ Agree m s1 s2 0 n
unfolding tmemcmp
tmemcmp_iff m s1 s2 n = (tmemcmp_loop-Agree n 0 s1 s2 m, Agree-tmemcmp_loop n 0 s1 s2 m)
