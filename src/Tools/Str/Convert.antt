-- ===== src/Tools/Str/Convert.antt =====
-- What `uint_to_str` and `int_to_str` write, in base 10 and 16.
use unix_p.Prelude.{
  ℕ, suc, ◌+◌, ◌^◌, ◌≤◌, ◌<◌, ◌≡◌, inl, inr, refl, ap, subst, ◌∙◌, false, List, [], ◌∷◌, ◌++◌, some,
  arith, length, leb, ◌==◌,
}
use mathlib.Core.List.{reverse, reverse-append}
use unix_p.Prelude.Int.{ℤ, pos, negsuc}
use unix_p.Prelude.Memory.{Memory, read, write, read-write}
use unix_p.Tools.Str.Text.{
  Chars, Holds, SameBut, Chars-SameBut, Chars-append, length-append, length-reverse,
  reverse_str-Holds,
}
use unix_p.Tools.Str.{digits_loop, reverse_str, uint_to_str, finish_int, int_to_str}
use unix_p.Tools.Str.Numeral.{digits_of, numeral, signed, IsBase}
use unix_p.Tools.Str.DigitsLoop.{digits_loop-IsWritten}

-- The string that a call has written to `buf`, of at most this many bytes with its terminator.
abbrev pub IsString : Memory → (buf size : ℕ) → List ℕ → Memory → Type 0
IsString m buf size cs m' = Holds m' buf cs × (length cs < size) × SameBut buf size m m'

terminate :
    (m1 : Memory) (buf : ℕ) (cs : List ℕ)
    → Chars m1 buf cs
    → Holds (write m1 (buf + length cs) 0) buf cs
terminate m1 buf cs chars = (
  Chars-SameBut cs (buf + length cs) 1 buf m1 (write m1 (buf + length cs) 0)
      (λ a out. ground (arith, read-write m1 (buf + length cs) 0 a)) (inl (omega arith)) chars,
  ground (arith, read-write m1 (buf + length cs) 0 (buf + length cs)),
)

-- Characters, terminated and turned round.
turned :
    (fuel buf size : ℕ) (m m1 : Memory) (cs : List ℕ)
    → Chars m1 buf cs
    → SameBut buf (length cs) m m1
    → length cs < size
    → size ≤ fuel
    → size < 2 ^ 32
    → (m' : Memory) × (reverse_str fuel (write m1 (buf + length cs) 0) buf ≡ some m')
      × IsString m buf size (reverse cs) m'
turned fuel buf size m m1 cs chars same room enough small =
    let m2 = write m1 (buf + length cs) 0 in
    let (m', returns, held, kept) =
      reverse_str-Holds fuel m2 buf cs (terminate m1 buf cs chars) (omega arith) (omega arith) in
    (
      m',
      returns,
      (
        held,
        (let count = length-reverse cs in omega arith),
        λ a out.
            kept a (ground arith)
            ∙ ground (arith, read-write m1 (buf + length cs) 0 a)
            ∙ same a (ground arith),
      ),
    )

fits_in : (base v : ℕ) → IsBase base → v < 2 ^ 32 → v < base ^ suc 9
fits_in base v (inl ten) small = rw ten (omega arith)
fits_in base v (inr sixteen) small = rw sixteen (omega arith)

base_real : (base : ℕ) → IsBase base → (base == 0) ≡ false
base_real base (inl ten) = rw ten refl
base_real base (inr sixteen) = rw sixteen refl

uint_to_str-reverse_str :
    (fuel base v buf n : ℕ) (m m1 : Memory)
    → IsBase base
    → digits_loop fuel base v 0 buf m ≡ some (m1, n)
    → uint_to_str fuel v base m buf ≡ reverse_str fuel (write m1 (buf + n) 0) buf
unfolding uint_to_str reverse_str
uint_to_str-reverse_str fuel base v buf n m m1 known wrote =
    let real = base_real base known in rw (real, wrote) refl

int_to_str-reverse_str :
    (fuel v buf n : ℕ) (m m1 : Memory)
    → digits_loop fuel 10 v 0 buf m ≡ some (m1, n)
    → int_to_str fuel (pos v) 10 m buf ≡ reverse_str fuel (write m1 (buf + n) 0) buf
unfolding int_to_str finish_int reverse_str
int_to_str-reverse_str fuel v buf n m m1 wrote = rw wrote refl

int_to_str-reverse_str_negative :
    (fuel v buf n : ℕ) (m m1 : Memory)
    → v + 1 < 2 ^ 31
    → digits_loop fuel 10 (v + 1) 0 buf m ≡ some (m1, n)
    → int_to_str fuel (negsuc v) 10 m buf
      ≡ reverse_str fuel (write (write m1 (buf + n) 45) (buf + n + 1) 0) buf
unfolding int_to_str finish_int reverse_str
int_to_str-reverse_str_negative fuel v buf n m m1 small wrote =
    let test : leb (2 ^ 31) (v + 1) ≡ false = ground arith in rw (test, wrote) refl

-- The digits of a number below 2 ^ 32, at the start of the buffer.
digits_loop_start :
    (fuel base v buf : ℕ) (m : Memory)
    → IsBase base
    → v < 2 ^ 32
    → 32 < fuel
    → (m1 : Memory) × (digits_loop fuel base v 0 buf m ≡ some (m1, length (digits_of 32 base v)))
      × Chars m1 buf (digits_of 32 base v)
      × (length (digits_of 32 base v) ≤ 10)
      × SameBut buf (length (digits_of 32 base v)) m m1
digits_loop_start fuel base v buf m known small enough =
    let ds = digits_of 32 base v in
    let (m1, wrote, chars, few, same) =
      digits_loop-IsWritten 9 32 fuel base v 0 buf m known (fits_in base v known small)
        (omega arith) (omega arith) in
    let start : buf + 0 ≡ buf = omega arith in
    (
      m1,
      wrote ∙ ap (λ (k : ℕ). some (m1, k)) (omega arith),
      subst (λ (b : ℕ). Chars m1 b ds) start chars,
      few,
      subst (λ (b : ℕ). SameBut b (length ds) m m1) start same,
    )

-- `uint_to_str` in base 10 or 16 ends on any `uint32_t`, and writes its numeral, in at most 11 bytes.
pub uint_to_str-numeral :
    (fuel base v buf : ℕ) (m : Memory)
    → IsBase base
    → v < 2 ^ 32
    → 32 < fuel
    → (m' : Memory) × (uint_to_str fuel v base m buf ≡ some m')
      × IsString m buf 11 (numeral base v) m'
uint_to_str-numeral fuel base v buf m known small enough =
    let ds = digits_of 32 base v in
    let (m1, wrote, chars, few, same) = digits_loop_start fuel base v buf m known small enough in
    let (m', returns, string) =
      turned fuel buf 11 m m1 ds chars same (omega arith) (omega arith) (omega arith) in
    (m', uint_to_str-reverse_str fuel base v buf (length ds) m m1 known wrote ∙ returns, string)

-- The numbers that have an opposite.
abbrev pub IsInt : ℤ → Type 0
IsInt (pos n) = n < 2 ^ 31
IsInt (negsuc n) = n + 1 < 2 ^ 31

-- `int_to_str` in base 10 ends on any `int32_t` but the least, and writes its numeral, behind a minus
-- sign for a negative one, in at most 12 bytes.
pub int_to_str-signed :
    (fuel buf : ℕ) (z : ℤ) (m : Memory)
    → IsInt z
    → 32 < fuel
    → (m' : Memory) × (int_to_str fuel z 10 m buf ≡ some m') × IsString m buf 12 (signed z) m'
int_to_str-signed fuel buf (pos v) m small enough =
    let ds = digits_of 32 10 v in
    let (m1, wrote, chars, few, same) =
      digits_loop_start fuel 10 v buf m (inl refl) (omega arith) enough in
    let (m', returns, string) =
      turned fuel buf 12 m m1 ds chars same (omega arith) (omega arith) (omega arith) in
    (m', int_to_str-reverse_str fuel v buf (length ds) m m1 wrote ∙ returns, string)
int_to_str-signed fuel buf (negsuc v) m small enough =
    let ds = digits_of 32 10 (v + 1) in
    let (m1, wrote, chars, few, same) =
      digits_loop_start fuel 10 (v + 1) buf m (inl refl) (omega arith) enough in
    let n = length ds in
    let m2 = write m1 (buf + n) 45 in
    let count : length (ds ++ (45 ∷ [])) ≡ n + 1 = length-append ds (45 ∷ []) in
    let sign : read m2 (buf + n) ≡ 45 = ground (arith, read-write m1 (buf + n) 45 (buf + n)) in
    let digits : Chars m2 buf ds =
      Chars-SameBut ds (buf + n) 1 buf m1 m2 (λ a out. ground (arith, read-write m1 (buf + n) 45 a))
        (inl (omega arith)) chars in
    let (m', returns, string) =
      turned fuel buf 12 m m2 (ds ++ (45 ∷ []))
        (Chars-append ds (45 ∷ []) m2 buf digits (sign, λ h. omega arith, tt))
        (λ a out.
          ground (arith, count, same a (ground (arith, count)), read-write m1 (buf + n) 45 a))
        (omega arith) (omega arith) (omega arith) in
    let end : buf + n + 1 ≡ buf + length (ds ++ (45 ∷ [])) = omega arith in
    (
      m',
      int_to_str-reverse_str_negative fuel v buf n m m1 small wrote
          ∙ ap (λ (a : ℕ). reverse_str fuel (write m2 a 0) buf) end
          ∙ returns,
      subst (λ (cs : List ℕ). IsString m buf 12 cs m') (reverse-append ds (45 ∷ [])) string,
    )
