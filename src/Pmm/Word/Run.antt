-- ===== src/Pmm/Word/Run.antt =====
-- The search for a run of clear bits in a word, at `align_up` 1.
use unix_p.Prelude.{
  ℕ, zero, suc, ◌+◌, ◌-◌, ◌^◌, ◌≤◌, ◌<◌, ◌≡◌, refl, Bool, true, false, Option, none, some, ◌&&◌,
  arith, ltb, ◌==◌, if◌then◌else◌, Bool-cases, inl, inr,
}
use native.Mathlib.Nat.{mod-one}
use unix_p.Prelude.Bits.{bit_at, bit_and-two-pow_eq}
use unix_p.Pmm.Word.{scan_word, find_run, next_bit}
use unix_p.Pmm.Word.Bits.{next_bit-two-pow}

-- The `n` bits from bit `j` are clear.
abbrev pub IsClear : ℕ → ℕ → ℕ → Type 0
IsClear word j n = (k : ℕ) → j ≤ k → k < j + n → bit_at word k ≡ 0

-- What the search says of a word: where the first run of `count` clear bits is, or that there is none.
abbrev pub IsAnswer : ℕ → ℕ → Option (ℕ × ℕ) → Type 0
IsAnswer word count none = (b : ℕ) → b + count ≤ 32 → ¬ IsClear word b count
IsAnswer word count (some (j, firstj)) =
    (j ≡ firstj)
    × (firstj + count ≤ 32)
    × IsClear word firstj count
    × ((b : ℕ) → b < firstj → ¬ IsClear word b count)

-- Before round `j`: `streak` clear bits end at `j`, and no run starts before them.
record IsBefore (word count left j bit streak firstj : ℕ) : Type 0 where
  rounds : left + j ≡ 32
  mask : 0 < left → bit ≡ 2 ^ j
  short : streak < count
  within : streak ≤ j
  start : 0 < streak → firstj + streak ≡ j
  clear : IsClear word (j - streak) streak
  none_yet : (b : ℕ) → b + streak < j → ¬ IsClear word b count

module _ {word count left j bit streak firstj : ℕ}
    (inv : IsBefore word count (suc left) j bit streak firstj) where
  mask_now : bit ≡ 2 ^ j
  mask_now = inv.mask (omega arith)

  mask_next : 0 < left → next_bit bit ≡ 2 ^ (j + 1)
  mask_next more = rw mask_now (next_bit-two-pow j (omega (arith, inv.rounds)))

  -- A round that meets a set bit: no run of `count` bits starts up to it.
  IsBefore-used :
      (bit_at word j == 0) ≡ false → IsBefore word count left (j + 1) (next_bit bit) 0 firstj
  IsBefore-used used = record {
    rounds = omega arith;
    mask = mask_next;
    short = omega arith;
    within = omega arith;
    start = λ h. absurd (omega arith);
    clear = λ k lo hi. absurd (omega arith);
    none_yet = λ b early clear.
        ground (arith, inv.none_yet b, clear j, λ (h : b + streak < j). inv.none_yet b h clear);
  }

  extended : (bit_at word j == 0) ≡ true → IsClear word (j - streak) (streak + 1)
  extended free k lo hi = ground (arith, inv.clear k)

  -- A round that meets a clear bit lengthens the streak.
  IsBefore-free :
      (bit_at word j == 0) ≡ true
      → (streak + 1 == count) ≡ false
      → IsBefore word count left
          (j + 1)
          (next_bit bit)
          (streak + 1)
          (if streak == 0 then j else firstj)
  IsBefore-free free short = record {
    rounds = omega arith;
    mask = mask_next;
    short = ground arith;
    within = omega arith;
    start = ground arith;
    clear = λ k lo hi. extended free k (omega arith) (omega arith);
    none_yet = λ b early clear. inv.none_yet b (omega arith) clear;
  }

  -- The round that completes the run.
  IsAnswer-free :
      (bit_at word j == 0) ≡ true
      → (streak + 1 == count) ≡ true
      → IsAnswer word count (some (j - (streak + 1 - 1), if streak == 0 then j else firstj))
  IsAnswer-free free done =
      let same : j - (streak + 1 - 1) ≡ (if streak == 0 then j else firstj) = ground arith in
      let whole : streak + 1 ≡ count = ground arith in
      (
        same,
        rw (← same) (omega arith),
        rw (← same, ← whole) at_start,
        λ b early. inv.none_yet b (ground arith),
      )
    where
      at_start : IsClear word (j - (streak + 1 - 1)) (streak + 1)
      at_start k lo hi = extended free k (omega arith) (omega arith)

&&-false : (b : Bool) → (b && false) ≡ false
&&-false true = refl
&&-false false = refl

scan_word-IsAnswer :
    (word count left j bit streak firstj : ℕ) (seen : Bool)
    → IsBefore word count left j bit streak firstj
    → IsAnswer word count (scan_word word count 1 left j bit streak firstj seen).found
unfolding scan_word
scan_word-IsAnswer word count zero j bit streak firstj seen inv =
    λ b fits clear. inv.none_yet b (omega arith) clear
scan_word-IsAnswer word count (suc left) j bit streak firstj seen inv = rw mod-one (
    rw &&-false (elim (Bool-cases (streak == 0 && ltb (32 - j) count)) [
      | inl stop ↦ rw stop (λ b fits clear. inv.none_yet b (ground arith) clear)
      | inr go ↦ rw go (
          rw (mask_now inv) (
            rw bit_and-two-pow_eq (elim (Bool-cases (bit_at word j == 0)) [
              | inl free ↦ rw free (elim (Bool-cases (streak + 1 == count)) [
                | inl done ↦ rw done (IsAnswer-free inv free done)
                | inr short ↦ rw short (
                    scan_word-IsAnswer word count left (j + 1) (next_bit (2 ^ j)) (streak + 1)
                      (if streak == 0 then j else firstj) true
                      (rw (← mask_now inv) (IsBefore-free inv free short)))
              ])
              | inr used ↦ rw used (
                  scan_word-IsAnswer word count left (j + 1) (next_bit (2 ^ j)) 0 firstj seen
                    (rw (← mask_now inv) (IsBefore-used inv used)))
            ])))
    ]))

-- The search of one word at `align_up` 1, for one bit or more, finds the first run of that many clear
-- bits, at the place that it returns, or the word has none.
pub find_run-IsAnswer :
    (word count : ℕ) → 0 < count → IsAnswer word count (find_run word count 1).found
find_run-IsAnswer word count pos = scan_word-IsAnswer word count 32 0 1 0 0 false (record {
  rounds = omega arith;
  mask = λ h. refl;
  short = pos;
  within = omega arith;
  start = λ h. absurd (omega arith);
  clear = λ k lo hi. absurd (omega arith);
  none_yet = λ b early clear. omega arith;
})
