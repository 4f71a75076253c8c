-- ===== src/Format/Directives.antt =====
-- What `__doprnt` puts out for a format with directives.
use unix_p.Prelude.{
  ℕ, ◌+◌, ◌^◌, ◌≤◌, ◌<◌, ◌≡◌, ◌≢◌, ◌⊎◌, inl, inr, refl, ap, ◌∙◌, true, false, List, [], ◌∷◌, ◌++◌,
  Option, some, arith, length, ltb, ◌==◌, u8, u32,
}
use native.Mathlib.Decide.{dec_lt}
use unix_p.Prelude.Int.{to_int}
use unix_p.Prelude.Memory.{Memory, read}
use unix_p.Tools.Str.Text.{Chars, Holds, SameBut, Holds-IsCString}
use unix_p.Tools.Str.Numeral.{numeral, signed, IsBase}
use unix_p.Tools.Str.Convert.{IsString, IsInt, uint_to_str-numeral, int_to_str-signed}
use unix_p.Format.{
  Printer, putch, va_arg, doprnt_put_string, put_number, put_string_arg, put_char_arg, put_int_arg,
  put_uint_arg, put_spec, passing, doprnt_round,
}
use unix_p.Format.Plain.{text, doprnt_put_string_lem}
use unix_p.Format.Piece.{
  Piece, literal, escape, string_at, character, integer, natural, hexadecimal, syntax, arguments,
  output, IsDirective, IsPiece,
}

abbrev pub printer : Memory → List ℕ → List ℕ → Printer
printer m ws out = record { memory = m; argp = ws; put = out }

text-Chars : (cs : List ℕ) (m : Memory) (str : ℕ) → Chars m str cs → text m str (length cs) ≡ cs
text-Chars [] m str held = refl
text-Chars (c ∷ cs) m str (here, real, others) = rw (here, text-Chars cs m (str + 1) others) refl

put_held :
    (cs ws out : List ℕ) (fuel str : ℕ) (m : Memory)
    → Holds m str cs
    → length cs < fuel
    → doprnt_put_string fuel str (printer m ws out) ≡ some (printer m ws (out ++ cs))
put_held cs ws out fuel str m (chars, ends) enough =
    doprnt_put_string_lem (length cs) fuel str (printer m ws out)
      (Holds-IsCString cs m str (chars, ends)) enough
    ∙ ap (λ (t : List ℕ). some (printer m ws (out ++ t))) (text-Chars cs m str chars)

round_directive :
    (fuel i fmt buffer spec : ℕ) (p : Printer)
    → read (p.memory) (fmt + i) ≡ 37
    → read (p.memory) (fmt + (i + 1)) ≡ spec
    → spec ≢ 0
    → spec ≢ 108
    → doprnt_round fuel i fmt buffer p ≡ passing 2 (put_spec fuel spec buffer p)
unfolding doprnt_round
round_directive fuel i fmt buffer spec p percent follows real short =
    let t0 : (spec == 0) ≡ false = ground arith in
    let t1 : (spec == 108) ≡ false = ground arith in rw (percent, follows, t0, t1) refl

-- The conversion of a number, and its digits put out.
put_number_string :
    (fuel buffer size : ℕ) (m m' : Memory) (ws out cs : List ℕ)
    → IsString m buffer size cs m'
    → length cs < fuel
    → put_number fuel buffer (printer m ws out) (some m') ≡ some (printer m' ws (out ++ cs))
unfolding put_number
put_number_string fuel buffer size m m' ws out cs (held, few, same) enough =
    put_held cs ws out fuel buffer m' held enough

to_int-IsInt : (w : ℕ) → w < 2 ^ 32 → w ≢ 2 ^ 31 → IsInt (to_int w)
to_int-IsInt w small opposite = elim (dec_lt w (2 ^ 31)) [
  | yes low ↦ let test : ltb w (2 ^ 31) ≡ true = ground arith in rw test low
  | no high ↦ let test : ltb w (2 ^ 31) ≡ false = ground arith in rw test (omega arith)
]

-- The cases of the switch.
put_spec_string :
    (fuel buffer str : ℕ) (m : Memory) (ws out cs : List ℕ)
    → str < 2 ^ 32
    → Holds m str cs
    → length cs < fuel
    → put_spec fuel 115 buffer (printer m (str ∷ ws) out) ≡ some (printer m ws (out ++ cs))
unfolding put_spec put_string_arg va_arg
put_spec_string fuel buffer str m ws out cs small held enough =
    let word : u32 str ≡ str = omega arith in
    rw (word, put_held cs ws out fuel str m held enough) refl

put_spec_char :
    (fuel buffer w : ℕ) (m : Memory) (ws out : List ℕ)
    → w < 2 ^ 32
    → put_spec fuel 99 buffer (printer m (w ∷ ws) out) ≡ some (printer m ws (out ++ (u8 w ∷ [])))
unfolding put_spec put_char_arg va_arg
put_spec_char fuel buffer w m ws out small = let word : u32 w ≡ w = omega arith in rw word refl

put_spec_escape :
    (fuel buffer c : ℕ) (p : Printer)
    → (IsDirective c → ⊥)
    → put_spec fuel c buffer p ≡ some (putch c p)
unfolding put_spec
put_spec_escape fuel buffer c p none_of =
    let t115 : (c == 115) ≡ false = ground arith in
    let t99 : (c == 99) ≡ false = ground arith in
    let t105 : (c == 105) ≡ false = ground arith in
    let t100 : (c == 100) ≡ false = ground arith in
    let t117 : (c == 117) ≡ false = ground arith in
    let t112 : (c == 112) ≡ false = ground arith in
    let t88 : (c == 88) ≡ false = ground arith in
    let t120 : (c == 120) ≡ false = ground arith in
    rw (t115, t99, t105, t100, t117, t112, t88, t120) refl

put_int_arg-signed :
    (fuel buffer w : ℕ) (m : Memory) (ws out : List ℕ)
    → w < 2 ^ 32
    → w ≢ 2 ^ 31
    → 32 < fuel
    → (m' : Memory) × (put_int_arg fuel buffer (printer m (w ∷ ws) out)
        ≡ some (printer m' ws (out ++ signed (to_int w))))
      × SameBut buffer 32 m m'
unfolding put_int_arg va_arg
put_int_arg-signed fuel buffer w m ws out small opposite enough =
    let word : u32 w ≡ w = omega arith in
    let (m', returns, (held, few, same)) =
      int_to_str-signed fuel buffer (to_int w) m (to_int-IsInt w small opposite) enough in
    let shown =
      put_number_string fuel buffer 12 m m' ws out (signed (to_int w)) (held, few, same)
        (omega arith) in
    (m', rw (word, returns, shown) refl, λ a out. same a (ground arith))

put_uint_arg-numeral :
    (fuel base buffer w : ℕ) (m : Memory) (ws out : List ℕ)
    → IsBase base
    → w < 2 ^ 32
    → 32 < fuel
    → (m' : Memory) × (put_uint_arg fuel base buffer (printer m (w ∷ ws) out)
        ≡ some (printer m' ws (out ++ numeral base w)))
      × SameBut buffer 32 m m'
unfolding put_uint_arg va_arg
put_uint_arg-numeral fuel base buffer w m ws out known small enough =
    let word : u32 w ≡ w = omega arith in
    let (m', returns, (held, few, same)) =
      uint_to_str-numeral fuel base w buffer m known small enough in
    let shown =
      put_number_string fuel buffer 11 m m' ws out (numeral base w) (held, few, same)
        (omega arith) in
    (m', rw (word, returns, shown) refl, λ a out. same a (ground arith))

-- What the round at a piece leaves.
abbrev pub IsRound : (fuel i fmt buffer : ℕ) → Memory → (ws out : List ℕ) → Piece → Type 0
IsRound fuel i fmt buffer m ws out piece =
    (m' : Memory) × (doprnt_round fuel i fmt buffer (printer m (arguments piece ws) out)
      ≡ some (length (syntax piece), printer m' ws (out ++ output piece)))
    × SameBut buffer 32 m m'

-- A directive that `put_spec` deals with.
round_put :
    (fuel i fmt buffer spec : ℕ) (m m' : Memory) (ws ws' out cs : List ℕ)
    → Chars m (fmt + i) (37 ∷ spec ∷ [])
    → spec ≢ 108
    → put_spec fuel spec buffer (printer m ws out) ≡ some (printer m' ws' (out ++ cs))
    → doprnt_round fuel i fmt buffer (printer m ws out) ≡ some (2, printer m' ws' (out ++ cs))
round_put fuel i fmt buffer spec m m' ws ws' out cs (percent, _, (follows, real, _)) short puts =
    let at : fmt + (i + 1) ≡ fmt + i + 1 = omega arith in
    round_directive fuel i fmt buffer spec (printer m ws out) percent
      (ap (λ (a : ℕ). read m a) at ∙ follows) real short
    ∙ ap (λ (r : Option Printer). passing 2 r) puts

put_spec_int :
    (fuel buffer spec : ℕ) (p : Printer)
    → (spec ≡ 105) ⊎ (spec ≡ 100)
    → put_spec fuel spec buffer p ≡ put_int_arg fuel buffer p
unfolding put_spec
put_spec_int fuel buffer spec p (inl i) = rw i refl
put_spec_int fuel buffer spec p (inr d) = rw d refl

put_spec_hex :
    (fuel buffer spec : ℕ) (p : Printer)
    → (spec ≡ 112) ⊎ (spec ≡ 88) ⊎ (spec ≡ 120)
    → put_spec fuel spec buffer p ≡ put_uint_arg fuel 16 buffer p
unfolding put_spec
put_spec_hex fuel buffer spec p (inl pointer) = rw pointer refl
put_spec_hex fuel buffer spec p (inr (inl upper)) = rw upper refl
put_spec_hex fuel buffer spec p (inr (inr lower)) = rw lower refl

put_spec_natural :
    (fuel buffer : ℕ) (p : Printer) → put_spec fuel 117 buffer p ≡ put_uint_arg fuel 10 buffer p
unfolding put_spec
put_spec_natural fuel buffer p = refl

round_literal :
    (fuel i fmt buffer c : ℕ) (m : Memory) (ws out : List ℕ)
    → read m (fmt + i) ≡ c
    → c ≢ 37
    → c < 256
    → doprnt_round fuel i fmt buffer (printer m ws out) ≡ some (1, printer m ws (out ++ (c ∷ [])))
unfolding doprnt_round
round_literal fuel i fmt buffer c m ws out here plain byte =
    let test : (c == 37) ≡ false = ground arith in
    let same : u8 c ≡ c = omega arith in rw (here, test, same) refl

pub doprnt_round_lem :
    (piece : Piece) (fuel i fmt buffer room : ℕ) (m : Memory) (ws out : List ℕ)
    → IsPiece m buffer room piece
    → Chars m (fmt + i) (syntax piece)
    → room ≤ fuel
    → 32 < fuel
    → IsRound fuel i fmt buffer m ws out piece
doprnt_round_lem (literal c) fuel i fmt buffer room m ws out (real, plain, byte) (here, _, _) few
      enough =
    (m, round_literal fuel i fmt buffer c m ws out here plain byte, λ a apart. refl)
doprnt_round_lem (escape c) fuel i fmt buffer room m ws out (real, byte, none_of) held few enough =
    let same : u8 c ≡ c = omega arith in
    (
      m,
      round_put fuel i fmt buffer c m m ws ws out (c ∷ []) held
          (λ h. none_of (inr (inr (inr (inr (inr (inr (inr (inr h)))))))))
          (put_spec_escape fuel buffer c (printer m ws out) none_of
            ∙ ap (λ (b : ℕ). some (printer m ws (out ++ (b ∷ [])))) same),
      λ a apart. refl,
    )
doprnt_round_lem (string_at str cs) fuel i fmt buffer room m ws out (small, short, string, apart)
      held few enough =
    (
      m,
      round_put fuel i fmt buffer 115 m m (str ∷ ws) ws out cs held (λ h. omega arith)
          (put_spec_string fuel buffer str m ws out cs small string (omega arith)),
      λ a apart. refl,
    )
doprnt_round_lem (character w) fuel i fmt buffer room m ws out small held few enough = (
  m,
  round_put fuel i fmt buffer 99 m m (w ∷ ws) ws out (u8 w ∷ []) held (λ h. omega arith)
      (put_spec_char fuel buffer w m ws out small),
  λ a apart. refl,
)
doprnt_round_lem (integer spec w) fuel i fmt buffer room m ws out (small, opposite, known) held few
      enough =
    let (m', puts, same) = put_int_arg-signed fuel buffer w m ws out small opposite enough in
    (
      m',
      round_put fuel i fmt buffer spec m m' (w ∷ ws) ws out (signed (to_int w)) held
          (λ h. ground arith) (put_spec_int fuel buffer spec (printer m (w ∷ ws) out) known ∙ puts),
      same,
    )
doprnt_round_lem (natural w) fuel i fmt buffer room m ws out small held few enough =
    let (m', puts, same) = put_uint_arg-numeral fuel 10 buffer w m ws out (inl refl) small enough in
    (
      m',
      round_put fuel i fmt buffer 117 m m' (w ∷ ws) ws out (numeral 10 w) held (λ h. omega arith)
          (put_spec_natural fuel buffer (printer m (w ∷ ws) out) ∙ puts),
      same,
    )
doprnt_round_lem (hexadecimal spec w) fuel i fmt buffer room m ws out (small, known) held few
      enough =
    let (m', puts, same) = put_uint_arg-numeral fuel 16 buffer w m ws out (inr refl) small enough in
    (
      m',
      round_put fuel i fmt buffer spec m m' (w ∷ ws) ws out (numeral 16 w) held (λ h. ground arith)
          (put_spec_hex fuel buffer spec (printer m (w ∷ ws) out) known ∙ puts),
      same,
    )
