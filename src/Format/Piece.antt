-- ===== src/Format/Piece.antt =====
-- A format as pieces, each with its arguments and the characters that it stands for.
use unix_p.Prelude.{ℕ, ◌+◌, ◌^◌, ◌≤◌, ◌<◌, ◌≡◌, ◌≢◌, ◌⊎◌, refl, ap, List, [], ◌∷◌, ◌++◌, length, u8}
use unix_p.Prelude.Memory.{Memory}
use unix_p.Tools.Str.Text.{Holds}
use unix_p.Tools.Str.Numeral.{numeral, signed}
use unix_p.Prelude.Int.{to_int}

-- `integer` is `%i` or `%d`, `hexadecimal` is `%p`, `%x` or `%X`, and `escape` a `%` in front of
-- a character that is no directive.
pub data Piece : Type 0 where
  literal : (c : ℕ) → Piece
  escape : (c : ℕ) → Piece
  string_at : (str : ℕ) → (cs : List ℕ) → Piece
  character : (w : ℕ) → Piece
  integer : (spec w : ℕ) → Piece
  natural : (w : ℕ) → Piece
  hexadecimal : (spec w : ℕ) → Piece

-- Its characters in the format.
abbrev pub syntax : Piece → List ℕ
syntax (literal c) = c ∷ []
syntax (escape c) = 37 ∷ c ∷ []
syntax (string_at str cs) = 37 ∷ 115 ∷ []
syntax (character w) = 37 ∷ 99 ∷ []
syntax (integer spec w) = 37 ∷ spec ∷ []
syntax (natural w) = 37 ∷ 117 ∷ []
syntax (hexadecimal spec w) = 37 ∷ spec ∷ []

-- The words that it takes from the stack, in front of these.
abbrev pub arguments : Piece → List ℕ → List ℕ
arguments (literal c) ws = ws
arguments (escape c) ws = ws
arguments (string_at str cs) ws = str ∷ ws
arguments (character w) ws = w ∷ ws
arguments (integer spec w) ws = w ∷ ws
arguments (natural w) ws = w ∷ ws
arguments (hexadecimal spec w) ws = w ∷ ws

-- What it puts out.
abbrev pub output : Piece → List ℕ
output (literal c) = c ∷ []
output (escape c) = c ∷ []
output (string_at str cs) = cs
output (character w) = u8 w ∷ []
output (integer spec w) = signed (to_int w)
output (natural w) = numeral 10 w
output (hexadecimal spec w) = numeral 16 w

abbrev pub IsDirective : ℕ → Type 0
IsDirective c =
    (c ≡ 115)
    ⊎ (c ≡ 99)
    ⊎ (c ≡ 105)
    ⊎ (c ≡ 100)
    ⊎ (c ≡ 117)
    ⊎ (c ≡ 112)
    ⊎ (c ≡ 88)
    ⊎ (c ≡ 120)
    ⊎ (c ≡ 108)

-- A piece that can be put out: the strings stand in memory apart from the buffer and are shorter than
-- `room`, the words have 32 bits, and `%d` is not given the least `int`.
abbrev pub IsPiece : Memory → (buffer room : ℕ) → Piece → Type 0
IsPiece m buffer room (literal c) = (c ≢ 0) × (c ≢ 37) × (c < 256)
IsPiece m buffer room (escape c) = (c ≢ 0) × (c < 256) × (IsDirective c → ⊥)
IsPiece m buffer room (string_at str cs) =
    (str < 2 ^ 32)
    × (length cs < room)
    × Holds m str cs
    × ((str + length cs < buffer) ⊎ (buffer + 32 ≤ str))
IsPiece m buffer room (character w) = w < 2 ^ 32
IsPiece m buffer room (integer spec w) = (w < 2 ^ 32) × (w ≢ 2 ^ 31) × ((spec ≡ 105) ⊎ (spec ≡ 100))
IsPiece m buffer room (natural w) = w < 2 ^ 32
IsPiece m buffer room (hexadecimal spec w) =
    (w < 2 ^ 32) × ((spec ≡ 112) ⊎ (spec ≡ 88) ⊎ (spec ≡ 120))

-- A format.
abbrev pub syntax_all : List Piece → List ℕ
syntax_all [] = []
syntax_all (piece ∷ pieces) = syntax piece ++ syntax_all pieces

abbrev pub arguments_all : List Piece → List ℕ → List ℕ
arguments_all [] ws = ws
arguments_all (piece ∷ pieces) ws = arguments piece (arguments_all pieces ws)

abbrev pub output_all : List Piece → List ℕ
output_all [] = []
output_all (piece ∷ pieces) = output piece ++ output_all pieces

abbrev pub IsPieces : Memory → (buffer room : ℕ) → List Piece → Type 0
IsPieces m buffer room [] = Unit {0}
IsPieces m buffer room (piece ∷ pieces) =
    IsPiece m buffer room piece × IsPieces m buffer room pieces

-- Text as pieces.
abbrev pub plain : List ℕ → List Piece → List Piece
plain [] pieces = pieces
plain (c ∷ cs) pieces = literal c ∷ plain cs pieces

abbrev pub IsText : List ℕ → Type 0
IsText [] = Unit {0}
IsText (c ∷ cs) = (c ≢ 0) × (c ≢ 37) × (c < 256) × IsText cs

pub IsPieces-plain :
    (cs : List ℕ) (m : Memory) (buffer room : ℕ) (pieces : List Piece)
    → IsText cs
    → IsPieces m buffer room pieces
    → IsPieces m buffer room (plain cs pieces)
IsPieces-plain [] m buffer room pieces chars valid = valid
IsPieces-plain (c ∷ cs) m buffer room pieces (real, single, byte, others) valid =
    ((real, single, byte), IsPieces-plain cs m buffer room pieces others valid)

pub output_all-plain :
    (cs : List ℕ) (pieces : List Piece) → output_all (plain cs pieces) ≡ cs ++ output_all pieces
output_all-plain [] pieces = refl
output_all-plain (c ∷ cs) pieces = ap (λ (t : List ℕ). c ∷ t) (output_all-plain cs pieces)
