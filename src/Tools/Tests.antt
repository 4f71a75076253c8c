-- ===== src/Tools/Tests.antt =====
-- The routines of kernel/tools at concrete inputs.
use unix_p.Prelude.{
  ◌&&◌, ltb, inl, ℕ, ◌+◌, ◌-◌, ◌*◌, ◌≡◌, ◌↔◌, [], ◌∷◌, inr, refl, Bool, true, false, ◌||◌, none,
  some, arith, leb, ◌==◌, if◌then◌else◌,
}
use unix_p.Prelude.Int.{pos, negsuc}
use unix_p.Prelude.Memory.{Memory, read, write, load32}
use unix_p.Tools.Fast.{tfastcpy}
use unix_p.Tools.Fast.Laws.{tfastcpy-copied}
use unix_p.Tools.Fill.{tmemset}
use unix_p.Tools.Copy.{tmemcpyw, tmemcpyd_inv}
use unix_p.Tools.Copy.Laws.{copied, tmemcpyw-eq-none, tmemcpyd_inv_lem}
use unix_p.Tools.Str.{
  strlen, strlen_loop, strcpy, strcmp, strncmp, reverse_str, check_eq_of_strings, uint_to_str,
  int_to_str, str_to_uint,
}
use unix_p.Tools.Str.Scan.{IsCString, strcpy_lem}
use unix_p.Tools.Str.Compare.{SameChars, AgreeString, check_eq_of_strings_lem, strncmp_iff}
use unix_p.Tools.Str.Convert.{IsString, uint_to_str-numeral, int_to_str-signed}
use unix_p.Tools.Str.Digits.{str_to_uint-uint_to_str}

abbrev zeros : Memory
zeros a = 0

filled : read (tmemset zeros 100 0x41 8) 107 ≡ 0x41
unfolding tmemset read write
filled = refl

-- "ab" at 100, and "ac" at 200.
abbrev two_words : Memory
two_words a =
    if a == 100 || a == 200 then 97 else if a == 101 then 98 else if a == 201 then 99 else 0

first_word-IsCString : IsCString two_words 100 2
unfolding read
first_word-IsCString = (λ k below. ground arith, refl)

second_word-IsCString : IsCString two_words 200 2
unfolding read
second_word-IsCString = (λ k below. ground arith, refl)

words_differ : check_eq_of_strings 3 two_words 100 200 ≡ some false
unfolding check_eq_of_strings strcmp strlen strlen_loop read
words_differ = refl

tmemcpyw-eq-none_example : tmemcpyw 100 zeros 0 4 70000 ≡ none
tmemcpyw-eq-none_example = tmemcpyw-eq-none 100 zeros 0 4 70000 (omega arith)

tmemcpyd_inv_lem_example :
    load32 (tmemcpyd_inv two_words 100 2) (100 + 4 * 0)
    ≡ load32 two_words (100 + 4 * (if leb 0 2 then 2 - 0 else 0))
tmemcpyd_inv_lem_example = tmemcpyd_inv_lem two_words 100 2 0

strcpy_lem_example :
    (m' : Memory) × (strcpy 3 two_words 300 100 ≡ some m')
    × ((a : ℕ) → read m' a ≡ copied two_words 300 100 (2 + 1) a)
strcpy_lem_example =
    strcpy_lem 3 two_words 300 100 2 first_word-IsCString (omega arith) (omega arith)
      (inr (omega arith))

check_eq_of_strings_lem_example :
    (b : Bool) × (check_eq_of_strings 3 two_words 100 200 ≡ some b)
    × ((b ≡ true) ↔ ((◌≡◌ {A = ℕ} 2 2) × SameChars two_words 100 200 2))
check_eq_of_strings_lem_example =
    check_eq_of_strings_lem 3 two_words 100 2 200 2 first_word-IsCString second_word-IsCString
      (omega arith) (omega arith) (omega arith) (omega arith)

strncmp_iff_example : (strncmp two_words 100 200 1 ≡ pos 0) ↔ AgreeString two_words 100 200 0 1
strncmp_iff_example = strncmp_iff two_words 100 200 1

-- 255 in base 16, and minus 45.
uint_to_str-numeral_example :
    (m' : Memory) × (uint_to_str 33 255 16 zeros 100 ≡ some m')
    × IsString zeros 100 11 (70 ∷ 70 ∷ []) m'
unfolding unix_p.Tools.Str.Numeral.digits_of
uint_to_str-numeral_example =
    uint_to_str-numeral 33 16 255 100 zeros (inr refl) (omega arith) (omega arith)

int_to_str-signed_example :
    (m' : Memory) × (int_to_str 33 (negsuc 44) 10 zeros 100 ≡ some m')
    × IsString zeros 100 12 (45 ∷ 52 ∷ 53 ∷ []) m'
unfolding unix_p.Tools.Str.Numeral.digits_of
int_to_str-signed_example = int_to_str-signed 33 100 (negsuc 44) zeros (omega arith) (omega arith)

str_to_uint-uint_to_str_example :
    (m' : Memory) × (uint_to_str 33 1207 10 zeros 100 ≡ some m')
    × (str_to_uint 33 m' 100 ≡ some 1207)
str_to_uint-uint_to_str_example =
    str_to_uint-uint_to_str 33 zeros 1207 100 (omega arith) (omega arith)

-- Forty bytes of 7 at 1000.
abbrev sevens : Memory
sevens a = if leb 1000 a && ltb a 1040 then 7 else 0

tfastcpy-copied_example :
    (m' : Memory) × (tfastcpy 100 sevens 5000 1000 40 ≡ some m')
    × ((a : ℕ) → read m' a ≡ copied sevens 5000 1000 41 a)
tfastcpy-copied_example =
    tfastcpy-copied 100 5000 1000 40 sevens (omega arith) (omega arith) (omega arith)
      (inl (omega arith), omega arith, omega arith)
