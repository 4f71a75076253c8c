-- ===== src/Tools/Str/DigitsLoop.antt =====
-- The loop of `uint_to_str` and `int_to_str` over the digits, in base 10 and 16.
use unix_p.Prelude.{
  ℕ, zero, suc, ◌+◌, ◌-◌, ◌/◌, ◌%◌, ◌^◌, ◌≤◌, ◌<◌, ◌≡◌, inl, inr, refl, sym, ap, subst, ◌∙◌, true,
  false, List, some, arith, length, ltb,
}
use native.Mathlib.Decide.{dec_lt}
use unix_p.Prelude.Memory.{Memory, read, write, read-write}
use unix_p.Tools.Str.Text.{Chars, SameBut}
use unix_p.Tools.Str.{digits_loop}
use unix_p.Tools.Str.Numeral.{
  digit_of, digits_of, IsBase, digit_char_lem, shrink, digit_real, digits_of_one, digits_of_more,
}

-- The loop has written these digits from `index` on.
abbrev pub IsWritten : Memory → (base v buf index bits fuel : ℕ) → List ℕ → Type 0
IsWritten m base v buf index bits fuel ds =
    (m' : Memory) × (digits_loop fuel base v index buf m ≡ some (m', index + length ds))
    × Chars m' (buf + index) ds
    × (length ds ≤ suc bits)
    × SameBut (buf + index) (length ds) m m'

digits_loop_one :
    (fuel base v index buf : ℕ) (m : Memory)
    → IsBase base
    → v / base ≡ 0
    → digits_loop (suc fuel) base v index buf m
      ≡ some (write m (buf + index) (digit_of (v % base)), index + 1)
unfolding digits_loop
digits_loop_one fuel base v index buf m known ends =
    let test : ltb 0 (v / base) ≡ false = ground arith in
    let char = digit_char_lem base v known in rw (test, char) refl

digits_loop_more :
    (fuel base v index buf : ℕ) (m : Memory)
    → IsBase base
    → 0 < v / base
    → digits_loop (suc fuel) base v index buf m
      ≡ digits_loop fuel base
          (v / base)
          (index + 1)
          buf
          (write m (buf + index) (digit_of (v % base)))
unfolding digits_loop
digits_loop_more fuel base v index buf m known more =
    let test : ltb 0 (v / base) ≡ true = ground arith in
    let char = digit_char_lem base v known in rw (test, char) refl

digit_small : (base v : ℕ) → IsBase base → digit_of (v % base) < 256
digit_small base v (inl ten) = rw ten (ground arith)
digit_small base v (inr sixteen) = rw sixteen (ground arith)

-- The first digit, and then the others.
written_cons :
    (m m' : Memory) (d at count : ℕ)
    → d < 256
    → SameBut (at + 1) count (write m at d) m'
    → (read m' at ≡ d) × SameBut at (suc count) m m'
written_cons m m' d at count byte same = (
  same at (inl (omega arith)) ∙ ground (arith, read-write m at d at),
  λ a out. ground (arith, same a (ground arith), read-write m at d a),
)

pub digits_loop-IsWritten :
    (bits room fuel base v index buf : ℕ) (m : Memory)
    → IsBase base
    → v < base ^ suc bits
    → bits < room
    → bits < fuel
    → IsWritten m base v buf index bits fuel (digits_of room base v)
digits_loop-IsWritten bits zero fuel base v index buf m known small roomy enough =
    absurd (omega arith)
digits_loop-IsWritten bits (suc room) zero base v index buf m known small roomy enough =
    absurd (omega arith)
digits_loop-IsWritten bits (suc room) (suc fuel) base v index buf m known small roomy enough =
    let d = digit_of (v % base) in
    let m1 = write m (buf + index) d in
    let byte = digit_small base v known in
    elim (dec_lt 0 (v / base)) [
      | no last ↦
          let (here, same) = written_cons m m1 d (buf + index) 0 byte (λ a out. refl) in
          subst (λ (ds : List ℕ). IsWritten m base v buf index bits (suc fuel) ds)
            (sym (digits_of_one room base v (omega arith)))
            (
              m1,
              digits_loop_one fuel base v index buf m known (omega arith),
              (here, digit_real base v, tt),
              omega arith,
              same,
            )
      | yes more ↦
          let (left, smaller) = shrink bits base v known small more in
          let bits' : suc (bits - 1) ≡ bits = omega arith in
          let (m', returns, chars, few, others) =
            digits_loop-IsWritten (bits - 1) room fuel base (v / base) (index + 1) buf m1 known
              (rw bits' smaller) (omega arith) (omega arith) in
          let ds = digits_of room base (v / base) in
          let at : buf + (index + 1) ≡ buf + index + 1 = omega arith in
          let (here, same) =
            written_cons m m' d (buf + index) (length ds) byte
              (subst (λ (b : ℕ). SameBut b (length ds) m1 m') at others) in
          subst (λ (l : List ℕ). IsWritten m base v buf index bits (suc fuel) l)
            (sym (digits_of_more room base v more))
            (
              m',
              digits_loop_more fuel base v index buf m known more
                  ∙ returns
                  ∙ ap (λ (k : ℕ). some (m', k)) (omega arith),
              (here, digit_real base v, subst (λ (b : ℕ). Chars m' b ds) at chars),
              omega arith,
              same,
            )
    ]
