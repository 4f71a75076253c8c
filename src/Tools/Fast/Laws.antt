-- ===== src/Tools/Fast/Laws.antt =====
-- What `tfastcpy` copies.
use unix_p.Prelude.{
  ℕ, zero, suc, ◌+◌, ◌-◌, ◌^◌, ◌≤◌, ◌<◌, ◌≡◌, ◌⊎◌, refl, sym, subst, ◌∙◌, true, false, none, some,
  arith, ltb, ◌==◌, u32, sub_u32,
}
use unix_p.Prelude.Memory.{Memory, read, write, read-write, read-lt}
use unix_p.Tools.Copy.{tmemcpy}
use unix_p.Tools.Copy.Laws.{copied, read-tmemcpy}
use unix_p.Tools.Fast.{copy_units, units_loop, bytes_loop, rounds_of, tfastcpy}

-- The two areas of `n` bytes lie apart, and below 2 ^ 32.
abbrev pub Apart : (dest src n : ℕ) → Type 0
Apart dest src n = ((src + n ≤ dest) ⊎ (dest + n ≤ src)) × (dest + n < 2 ^ 32) × (src + n < 2 ^ 32)

bytes_loop_done :
    (fuel sa dst src : ℕ) (m : Memory) → sa ≤ src → bytes_loop (suc fuel) sa dst src m ≡ some m
unfolding bytes_loop
bytes_loop_done fuel sa dst src m past =
    let test : ltb src sa ≡ false = ground arith in rw test refl

bytes_loop_more :
    (fuel sa dst src : ℕ) (m : Memory)
    → src < sa
    → dst + 1 < 2 ^ 32
    → src + 1 < 2 ^ 32
    → bytes_loop (suc fuel) sa dst src m
      ≡ bytes_loop fuel sa (dst + 1) (src + 1) (write m (dst + 1) (read m (src + 1)))
unfolding bytes_loop
bytes_loop_more fuel sa dst src m before low_dst low_src =
    let test : ltb src sa ≡ true = ground arith in
    let d : u32 (dst + 1) ≡ dst + 1 = omega arith in
    let s : u32 (src + 1) ≡ src + 1 = omega arith in rw (test, d, s) refl

copied-write :
    (n dst src : ℕ) (m : Memory) (a : ℕ)
    → (src + suc n ≤ dst) ⊎ (dst + suc n ≤ src)
    → copied (write m dst (read m src)) (dst + 1) (src + 1) n a ≡ copied m dst src (suc n) a
copied-write n dst src m a side = ground (
  arith,
  read-write m dst (read m src) a,
  read-write m dst (read m src) (src + 1 + (a - (dst + 1))),
  read-lt m src,
)

bytes_loop-copied :
    (n fuel dst src : ℕ) (m : Memory)
    → n < fuel
    → Apart (dst + 1) (src + 1) n
    → (m' : Memory) × (bytes_loop fuel (src + n) dst src m ≡ some m')
      × ((a : ℕ) → read m' a ≡ copied m (dst + 1) (src + 1) n a)
bytes_loop-copied n zero dst src m enough apart = absurd (omega arith)
bytes_loop-copied zero (suc fuel) dst src m enough apart =
    (m, bytes_loop_done fuel (src + 0) dst src m (omega arith), λ a. ground arith)
bytes_loop-copied (suc n) (suc fuel) dst src m enough (side, low_dst, low_src) =
    let m1 = write m (dst + 1) (read m (src + 1)) in
    let more =
      bytes_loop_more fuel (src + suc n) dst src m (omega arith) (omega arith) (omega arith) in
    let end : src + suc n ≡ src + 1 + n = omega arith in
    let (m', rest, bytes) =
      bytes_loop-copied n fuel (dst + 1) (src + 1) m1 (omega arith)
        (ground arith, omega arith, omega arith) in
    (
      m',
      more ∙ subst (λ (sa : ℕ). bytes_loop fuel sa (dst + 1) (src + 1) m1 ≡ some m') (sym end) rest,
      λ a. bytes a ∙ copied-write n (dst + 1) (src + 1) m a side,
    )

units_loop_once :
    (fuel d1 s1 : ℕ) (m : Memory)
    → d1 < 2 ^ 32
    → s1 < 2 ^ 32
    → units_loop (suc fuel) 1 1 (sub_u32 d1 32) (sub_u32 s1 32) m
      ≡ some (d1, s1, tmemcpy m d1 s1 32)
unfolding units_loop copy_units
units_loop_once fuel d1 s1 m low_d low_s =
    let d : u32 (sub_u32 d1 32 + 32) ≡ d1 = omega arith in
    let s : u32 (sub_u32 s1 32 + 32) ≡ s1 = omega arith in rw (d, s) refl

tfastcpy_one_round :
    (fuel dst src s : ℕ) (m : Memory)
    → 32 ≤ s
    → s < 288
    → dst < 2 ^ 32
    → src + s < 2 ^ 32
    → tfastcpy (suc fuel) m dst src s
      ≡ bytes_loop (suc fuel) (src + s) dst src (tmemcpy m dst src 32)
unfolding tfastcpy
tfastcpy_one_round fuel dst src s m long short low_dst low_src =
    let rounds : rounds_of s ≡ 1 = omega arith in
    let end : u32 (src + s) ≡ src + s = omega arith in
    let first = units_loop_once fuel dst src m low_dst (omega arith) in rw (rounds, first, end) refl

copied_twice :
    (m m1 : Memory) (dst src s a : ℕ)
    → 32 ≤ s
    → (src + suc s ≤ dst) ⊎ (dst + suc s ≤ src)
    → ((b : ℕ) → read m1 b ≡ copied m dst src 32 b)
    → copied m1 (dst + 1) (src + 1) s a ≡ copied m dst src (suc s) a
copied_twice m m1 dst src s a long side first =
    ground (arith, first a, first (src + 1 + (a - (dst + 1))))

-- For 32 to 287 bytes, and areas of one byte more that lie apart and below 2 ^ 32, `tfastcpy` ends on
-- more rounds than bytes, having copied the bytes as they were and the one behind them too, and
-- changed no other.
pub tfastcpy-copied :
    (fuel dst src s : ℕ) (m : Memory)
    → 32 ≤ s
    → s < 288
    → s < fuel
    → Apart dst src (s + 1)
    → (m' : Memory) × (tfastcpy fuel m dst src s ≡ some m')
      × ((a : ℕ) → read m' a ≡ copied m dst src (s + 1) a)
tfastcpy-copied zero dst src s m long short enough apart = absurd (omega arith)
tfastcpy-copied (suc fuel) dst src s m long short enough (side, low_dst, low_src) =
    let unit = λ (b : ℕ). read-tmemcpy m dst src 32 b (ground arith) in
    let (m', rest, bytes) =
      bytes_loop-copied s (suc fuel) dst src (tmemcpy m dst src 32) enough
        (ground arith, omega arith, omega arith) in
    let one : s + 1 ≡ suc s = omega arith in
    (
      m',
      tfastcpy_one_round fuel dst src s m long short (omega arith) (omega arith) ∙ rest,
      λ a.
          bytes a
          ∙ rw one (copied_twice m (tmemcpy m dst src 32) dst src s a long (ground arith) unit),
    )

-- A round ends the loop only at `si` 1.
units_loop_short :
    (fuel units si d1 s1 : ℕ) (m : Memory)
    → fuel < si
    → si < 2 ^ 32
    → units_loop fuel units si d1 s1 m ≡ none
unfolding units_loop
units_loop_short zero units si d1 s1 m few fits = refl
units_loop_short (suc fuel) units si d1 s1 m few fits =
    let next : sub_u32 si 1 ≡ si - 1 = omega arith in
    let test : (si - 1 == 0) ≡ false = ground arith in
    let (d2, s2, m') = copy_units units d1 s1 m in
    let rest = units_loop_short fuel 8 (si - 1) d2 s2 m' (omega arith) (omega arith) in
    rw (next, test) rest

units_loop_wraps :
    (fuel units d1 s1 : ℕ) (m : Memory) → fuel < 2 ^ 32 → units_loop fuel units 0 d1 s1 m ≡ none
unfolding units_loop
units_loop_wraps zero units d1 s1 m few = refl
units_loop_wraps (suc fuel) units d1 s1 m few =
    let (d2, s2, m') = copy_units units d1 s1 m in
    units_loop_short fuel 8 (2 ^ 32 - 1) d2 s2 m' (omega arith) (omega arith)

-- For fewer than 32 bytes no number of rounds below 2 ^ 32, of 256 bytes each, is enough for `tfastcpy`.
tfastcpy-eq-none :
    (fuel dst src s : ℕ) (m : Memory) → s < 32 → fuel < 2 ^ 32 → tfastcpy fuel m dst src s ≡ none
unfolding tfastcpy
tfastcpy-eq-none fuel dst src s m short few =
    let rounds : rounds_of s ≡ 0 = omega arith in
    let never = units_loop_wraps fuel 8 (sub_u32 dst 32) (sub_u32 src 32) m few in
    rw (rounds, never) refl
