-- ===== src/Tools/Str/Digits.antt =====
-- `str_to_uint` reads back what `uint_to_str` writes.
use unix_p.Prelude.{
  ℕ, zero, suc, ◌+◌, ◌-◌, ◌*◌, ◌/◌, ◌%◌, ◌^◌, ◌≤◌, ◌<◌, ◌≡◌, inl, refl, sym, ap, subst, ◌∙◌, ◌&&◌,
  List, [], ◌∷◌, ◌++◌, some, true, arith, length, leb, u32,
}
use mathlib.Core.List.{reverse, reverse-cons}
use native.Mathlib.Decide.{dec_lt}
use unix_p.Prelude.Memory.{Memory, read}
use unix_p.Tools.Str.Text.{Holds}
use unix_p.Tools.Str.Numeral.{
  digit_of, digits_of, digits_of_one, digits_of_more, numeral, shrink_ten,
}
use unix_p.Tools.Str.Convert.{uint_to_str-numeral}
use unix_p.Tools.Str.{uint_to_str, str_to_uint_loop, str_to_uint}

abbrev IsDecimal : List ℕ → Type 0
IsDecimal [] = Unit {0}
IsDecimal (c ∷ cs) = (48 ≤ c) × (c ≤ 57) × IsDecimal cs

IsDecimal-append : (xs ys : List ℕ) → IsDecimal xs → IsDecimal ys → IsDecimal (xs ++ ys)
IsDecimal-append [] ys before after = after
IsDecimal-append (x ∷ xs) ys (lo, hi, others) after = (lo, hi, IsDecimal-append xs ys others after)

-- The number that decimal digits stand for behind `acc`, as a `uint32_t`.
abbrev value : (acc : ℕ) → List ℕ → ℕ
value acc [] = acc
value acc (c ∷ cs) = value (u32 (acc * 10 + (c - 48))) cs

value-append :
    (xs : List ℕ) (acc d : ℕ) → value acc (xs ++ (d ∷ [])) ≡ u32 (value acc xs * 10 + (d - 48))
value-append [] acc d = refl
value-append (x ∷ xs) acc d = value-append xs (u32 (acc * 10 + (x - 48))) d

str_to_uint_loop-value :
    (cs : List ℕ) (fuel str acc : ℕ) (m : Memory)
    → Holds m str cs
    → IsDecimal cs
    → length cs < fuel
    → str_to_uint_loop fuel str acc m ≡ some (value acc cs)
unfolding str_to_uint_loop
str_to_uint_loop-value cs zero str acc m held decimal enough = absurd (omega arith)
str_to_uint_loop-value [] (suc fuel) str acc m (_, ends) decimal enough =
    let at : str ≡ str + 0 = omega arith in
    let here : read m str ≡ 0 = ap (λ (a : ℕ). read m a) at ∙ ends in rw here refl
str_to_uint_loop-value (c ∷ cs) (suc fuel) str acc m ((here, real, others), ends) (lo, hi, decimal)
      enough =
    let goes_on : (leb 48 c && leb c 57) ≡ true = ground arith in
    let at : str + 1 + length cs ≡ str + suc (length cs) = omega arith in
    rw (here, goes_on)
      (str_to_uint_loop-value cs fuel (str + 1) (u32 (acc * 10 + (c - 48))) m
        (others, ap (λ (a : ℕ). read m a) at ∙ ends) decimal (omega arith))

decimal_digit :
    (v : ℕ)
    → (48 ≤ digit_of (v % 10)) × (digit_of (v % 10) ≤ 57) × (digit_of (v % 10) - 48 ≡ v % 10)
decimal_digit v = (ground arith, ground arith, ground arith)

-- The digits are decimal, and stand for the number.
abbrev IsValue : ℕ → List ℕ → Type 0
IsValue v cs = IsDecimal cs × (value 0 cs ≡ v)

IsValue-reverse :
    (fuel v : ℕ) → v < 2 ^ 32 → v < 10 ^ fuel → IsValue v (reverse (digits_of fuel 10 v))
unfolding digits_of
IsValue-reverse zero v small few = (tt, omega arith)
IsValue-reverse (suc fuel) v small few =
    let d = digit_of (v % 10) in
    let (lo, hi, worth) = decimal_digit v in
    elim (dec_lt 0 (v / 10)) [
      | no last ↦
          subst (λ (ds : List ℕ). IsValue v (reverse ds))
            (sym (digits_of_one fuel 10 v (omega arith))) ((lo, hi, tt), omega arith)
      | yes more ↦
          let (decimal, above) =
            IsValue-reverse fuel (v / 10) (omega arith) (shrink_ten fuel v few more).1 in
          let ds = digits_of fuel 10 (v / 10) in
          subst (λ (l : List ℕ). IsValue v (reverse l)) (sym (digits_of_more fuel 10 v more))
            (subst (λ (l : List ℕ). IsValue v l) (sym (reverse-cons d ds))
              (
                IsDecimal-append (reverse ds) (d ∷ []) decimal (lo, hi, tt),
                value-append (reverse ds) 0 d ∙ omega arith,
              ))
    ]

-- `uint_to_str` in base 10 ends on any `uint32_t`, and `str_to_uint` reads the number back from the
-- string that it wrote.
pub str_to_uint-uint_to_str :
    (fuel : ℕ) (m : Memory) (v buf : ℕ)
    → v < 2 ^ 32
    → 32 < fuel
    → (m' : Memory) × (uint_to_str fuel v 10 m buf ≡ some m') × (str_to_uint fuel m' buf ≡ some v)
unfolding str_to_uint
str_to_uint-uint_to_str fuel m v buf small enough =
    let (m', returns, (held, few, _)) =
      uint_to_str-numeral fuel 10 v buf m (inl refl) small enough in
    let (decimal, worth) = IsValue-reverse 32 v small (omega arith) in
    (
      m',
      returns,
      str_to_uint_loop-value (numeral 10 v) fuel buf 0 m' held decimal (omega arith)
          ∙ ap (λ (n : ℕ). some n) worth,
    )
