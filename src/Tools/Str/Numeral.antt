-- ===== src/Tools/Str/Numeral.antt =====
-- Numerals, in base 10 and 16.
use unix_p.Prelude.{
  ℕ, zero, suc, ◌+◌, ◌/◌, ◌%◌, ◌^◌, ◌<◌, ◌≡◌, ◌≢◌, ◌⊎◌, inl, inr, refl, sym, subst, true, false,
  List, [], ◌∷◌, arith, ltb, ◌==◌, if◌then◌else◌,
}
use mathlib.Core.List.{reverse}
use unix_p.Prelude.Int.{ℤ, pos, negsuc}
use unix_p.Tools.Str.{digit_char}

-- A digit above 9 is a capital letter.
abbrev pub digit_of : ℕ → ℕ
digit_of d = if ltb d 10 then d + 48 else d + 55

-- The digits of a number, the lowest first; the fuel is more than there are.
unfoldable pub digits_of : (fuel base v : ℕ) → List ℕ
digits_of zero base v = []
digits_of (suc fuel) base v =
    let rest = digits_of fuel base (v / base) in
    digit_of (v % base) ∷ (if v / base == 0 then [] else rest)

-- A number below 2 ^ 32, as it is written.
abbrev pub numeral : (base v : ℕ) → List ℕ
numeral base v = reverse (digits_of 32 base v)

abbrev pub signed : ℤ → List ℕ
signed (pos n) = numeral 10 n
signed (negsuc n) = 45 ∷ numeral 10 (n + 1)

abbrev pub IsBase : ℕ → Type 0
IsBase base = (base ≡ 10) ⊎ (base ≡ 16)

pub digit_char_lem : (base v : ℕ) → IsBase base → digit_char (v % base) ≡ digit_of (v % base)
digit_char_lem base v (inl ten) = rw ten (ground arith)
digit_char_lem base v (inr sixteen) = rw sixteen (ground arith)

pub shrink_ten : (bits v : ℕ) → v < 10 ^ suc bits → 0 < v / 10 → (0 < bits) × (v / 10 < 10 ^ bits)
shrink_ten zero v small more = absurd (omega arith)
shrink_ten (suc bits) v small more = (omega arith, omega arith)

shrink_sixteen : (bits v : ℕ) → v < 16 ^ suc bits → 0 < v / 16 → (0 < bits) × (v / 16 < 16 ^ bits)
shrink_sixteen zero v small more = absurd (omega arith)
shrink_sixteen (suc bits) v small more = (omega arith, omega arith)

pub shrink :
    (bits base v : ℕ)
    → IsBase base
    → v < base ^ suc bits
    → 0 < v / base
    → (0 < bits) × (v / base < base ^ bits)
shrink bits base v (inl ten) =
    subst (λ (b : ℕ). v < b ^ suc bits → 0 < v / b → (0 < bits) × (v / b < b ^ bits)) (sym ten)
      (shrink_ten bits v)
shrink bits base v (inr sixteen) =
    subst (λ (b : ℕ). v < b ^ suc bits → 0 < v / b → (0 < bits) × (v / b < b ^ bits)) (sym sixteen)
      (shrink_sixteen bits v)

pub digit_real : (base v : ℕ) → digit_of (v % base) ≢ 0
digit_real base v h = ground arith

pub digits_of_one :
    (fuel base v : ℕ) → v / base ≡ 0 → digits_of (suc fuel) base v ≡ digit_of (v % base) ∷ []
unfolding digits_of
digits_of_one fuel base v ends = let test : (v / base == 0) ≡ true = ground arith in rw test refl

pub digits_of_more :
    (fuel base v : ℕ)
    → 0 < v / base
    → digits_of (suc fuel) base v ≡ digit_of (v % base) ∷ digits_of fuel base (v / base)
unfolding digits_of
digits_of_more fuel base v more = let test : (v / base == 0) ≡ false = ground arith in rw test refl
