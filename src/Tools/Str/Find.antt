-- ===== src/Tools/Str/Find.antt =====
-- What `findch` finds.
use unix_p.Prelude.{
  ℕ, zero, suc, ◌+◌, ◌≤◌, ◌<◌, ◌≡◌, refl, ◌≢◌, some, true, false, arith, ◌==◌, ltb, u32, ◌^◌,
}
use native.Mathlib.Decide.{dec_lt, ℕ_discrete}
use unix_p.Prelude.Int.{ℤ, pos, negsuc}
use unix_p.Prelude.Memory.{Memory, read}
use unix_p.Tools.Str.Scan.{IsCString}
use unix_p.Tools.Str.{findch}

-- The first place from `i` on where the target stands, or -1 if it does not stand before the end.
abbrev pub IsFirst : Memory → (str i n target : ℕ) → ℤ → Type 0
IsFirst m str i n target (pos j) =
    (i ≤ j)
    × (j < n)
    × (read m (str + j) ≡ target)
    × ((k : ℕ) → i ≤ k → k < j → read m (str + k) ≢ target)
IsFirst m str i n target (negsuc zero) = (k : ℕ) → i ≤ k → k < n → read m (str + k) ≢ target
IsFirst m str i n target (negsuc (suc _)) = ⊥

absent_later :
    (m : Memory) (str i j target : ℕ)
    → read m (str + i) ≢ target
    → ((k : ℕ) → i + 1 ≤ k → k < j → read m (str + k) ≢ target)
    → (k : ℕ) → i ≤ k
    → k < j
    → read m (str + k) ≢ target
absent_later m str i j target here later k lo hi = elim (dec_lt i k) [
  | yes after ↦ later k (omega arith) hi
  | no past ↦ let at : k ≡ i = omega arith in rw at here
]

IsFirst-cons :
    (m : Memory) (str i n target : ℕ) (r : ℤ)
    → read m (str + i) ≢ target
    → IsFirst m str (i + 1) n target r
    → IsFirst m str i n target r
IsFirst-cons m str i n target (pos j) here (lo, hi, found, before) =
    (omega arith, hi, found, absent_later m str i j target here before)
IsFirst-cons m str i n target (negsuc zero) here absent = absent_later m str i n target here absent
IsFirst-cons m str i n target (negsuc (suc _)) here absent = absent

-- In a string of `n` characters, `n` below 2 ^ 31, `findch` from a place in it ends, and returns the first place from
-- there on where the target stands, or -1 if there is none.
pub findch-IsFirst :
    (left fuel i target : ℕ) (m : Memory) (str n : ℕ)
    → IsCString m str n
    → i + left ≡ n
    → left < fuel
    → n < 2 ^ 31
    → (r : ℤ) × (findch fuel i target m str ≡ some r) × IsFirst m str i n target r
unfolding findch
findch-IsFirst left zero i target m str n string at enough low = absurd (omega arith)
findch-IsFirst zero (suc fuel) i target m str n (chars, ends) at enough low =
    let same : i ≡ n = omega arith in
    let here : read m (str + i) ≡ 0 = rw same ends in
    (negsuc 0, rw here refl, λ k lo hi. absurd (omega arith))
findch-IsFirst (suc left) (suc fuel) i target m str n (chars, ends) at enough low =
    let goes_on : (read m (str + i) == 0) ≡ false = ground (arith, chars i) in
    elim (ℕ_discrete (read m (str + i)) target) [
      | yes found ↦
          let equal : (read m (str + i) == target) ≡ true = ground arith in
          (
            pos i,
            (let positive : ltb i (2 ^ 31) ≡ true = ground arith in
                rw (goes_on, equal, positive) refl),
            (omega arith, omega arith, found, λ k lo hi. absurd (omega arith)),
          )
      | no other ↦
          let unequal : (read m (str + i) == target) ≡ false = ground arith in
          let (r, returns, first) =
            findch-IsFirst left fuel (i + 1) target m str n (chars, ends) (omega arith)
              (omega arith) low in
          let next : u32 (i + 1) ≡ i + 1 = omega arith in
          (r, rw (goes_on, unequal, next) returns, IsFirst-cons m str i n target r other first)
    ]
