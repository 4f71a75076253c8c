-- ===== src/Format/Loop.antt =====
-- `__doprnt` of a whole format with directives.
use unix_p.Prelude.{
  ℕ, zero, suc, ◌+◌, ◌≤◌, ◌<◌, ◌≡◌, ◌≢◌, ◌⊎◌, refl, sym, ap, subst, ◌∙◌, false, List, [], ◌∷◌, ◌++◌,
  some, arith, length, ◌==◌,
}
use mathlib.Core.List.{append_assoc, append-nil}
use unix_p.Prelude.Memory.{Memory, read}
use unix_p.Tools.Str.Text.{
  Chars, Holds, SameBut, Holds-SameBut, Chars-append_left, Chars-append_right, length-append,
}
use unix_p.Format.{Printer, doprnt_round, doprnt_loop, doprnt}
use unix_p.Format.Piece.{
  Piece, literal, escape, string_at, character, integer, natural, hexadecimal, syntax, arguments,
  output, IsPiece, syntax_all, arguments_all, output_all, IsPieces,
}
use unix_p.Format.Directives.{printer, doprnt_round_lem}

doprnt_loop_ends :
    (fuel i fmt buffer : ℕ) (p : Printer)
    → read (p.memory) (fmt + i) ≡ 0
    → doprnt_loop (suc fuel) i fmt buffer p ≡ some p
unfolding doprnt_loop
doprnt_loop_ends fuel i fmt buffer p ends = rw ends refl

doprnt_loop_goes_on :
    (fuel i fmt buffer taken : ℕ) (p p' : Printer)
    → read (p.memory) (fmt + i) ≢ 0
    → doprnt_round (suc fuel) i fmt buffer p ≡ some (taken, p')
    → doprnt_loop (suc fuel) i fmt buffer p ≡ doprnt_loop fuel (i + taken) fmt buffer p'
unfolding doprnt_loop
doprnt_loop_goes_on fuel i fmt buffer taken p p' more round =
    let test : (read (p.memory) (fmt + i) == 0) ≡ false = ground arith in rw (test, round) refl

syntax-head : (piece : Piece) (m : Memory) (str : ℕ) → Chars m str (syntax piece) → read m str ≢ 0
syntax-head (literal c) m str (here, real, _) = λ h. real (sym here ∙ h)
syntax-head (escape c) m str (here, real, _) = λ h. real (sym here ∙ h)
syntax-head (string_at a cs) m str (here, real, _) = λ h. real (sym here ∙ h)
syntax-head (character w) m str (here, real, _) = λ h. real (sym here ∙ h)
syntax-head (integer spec w) m str (here, real, _) = λ h. real (sym here ∙ h)
syntax-head (natural w) m str (here, real, _) = λ h. real (sym here ∙ h)
syntax-head (hexadecimal spec w) m str (here, real, _) = λ h. real (sym here ∙ h)

IsPiece-SameBut :
    (piece : Piece) (buffer room : ℕ) (m m' : Memory)
    → SameBut buffer 32 m m'
    → IsPiece m buffer room piece
    → IsPiece m' buffer room piece
IsPiece-SameBut (literal c) buffer room m m' same valid = valid
IsPiece-SameBut (escape c) buffer room m m' same valid = valid
IsPiece-SameBut (string_at str cs) buffer room m m' same (small, short, held, apart) =
    (small, short, Holds-SameBut cs buffer 32 str m m' same apart held, apart)
IsPiece-SameBut (character w) buffer room m m' same valid = valid
IsPiece-SameBut (integer spec w) buffer room m m' same valid = valid
IsPiece-SameBut (natural w) buffer room m m' same valid = valid
IsPiece-SameBut (hexadecimal spec w) buffer room m m' same valid = valid

IsPieces-SameBut :
    (pieces : List Piece) (buffer room : ℕ) (m m' : Memory)
    → SameBut buffer 32 m m'
    → IsPieces m buffer room pieces
    → IsPieces m' buffer room pieces
IsPieces-SameBut [] buffer room m m' same valid = tt
IsPieces-SameBut (piece ∷ pieces) buffer room m m' same (first, others) = (
  IsPiece-SameBut piece buffer room m m' same first,
  IsPieces-SameBut pieces buffer room m m' same others,
)

Holds-append_right :
    (xs ys : List ℕ) (m : Memory) (str : ℕ) → Holds m str (xs ++ ys) → Holds m (str + length xs) ys
Holds-append_right xs ys m str (chars, ends) =
    let count = length-append xs ys in
    let at : str + length xs + length ys ≡ str + length (xs ++ ys) = omega arith in
    (Chars-append_right xs ys m str chars, ap (λ (a : ℕ). read m a) at ∙ ends)

-- What the loop leaves behind these pieces.
abbrev Printed : (fuel i fmt buffer : ℕ) → Memory → (ws out : List ℕ) → List Piece → Type 0
Printed fuel i fmt buffer m ws out pieces =
    (m' : Memory) × (doprnt_loop fuel i fmt buffer (printer m (arguments_all pieces ws) out)
      ≡ some (printer m' ws (out ++ output_all pieces)))
    × SameBut buffer 32 m m'

doprnt_loop-pieces :
    (pieces : List Piece) (fuel i fmt buffer room : ℕ) (m : Memory) (ws out : List ℕ)
    → IsPieces m buffer room pieces
    → Holds m (fmt + i) (syntax_all pieces)
    → (fmt + i + length (syntax_all pieces) < buffer) ⊎ (buffer + 32 ≤ fmt + i)
    → 32 < room
    → room + length pieces ≤ fuel
    → Printed fuel i fmt buffer m ws out pieces
doprnt_loop-pieces pieces zero i fmt buffer room m ws out valid string apart big enough =
    absurd (omega arith)
doprnt_loop-pieces [] (suc fuel) i fmt buffer room m ws out valid (_, ends) apart big enough =
    let at : fmt + i ≡ fmt + i + 0 = omega arith in
    (
      m,
      doprnt_loop_ends fuel i fmt buffer (printer m ws out) (ap (λ (a : ℕ). read m a) at ∙ ends)
          ∙ ap (λ (t : List ℕ). some (printer m ws t)) (sym (append-nil out)),
      λ a out. refl,
    )
doprnt_loop-pieces (piece ∷ pieces) (suc fuel) i fmt buffer room m ws out (first, others)
      (chars, ends) apart big enough =
    let rest = syntax_all pieces in
    let here = Chars-append_left (syntax piece) rest m (fmt + i) chars in
    let count = length-append (syntax piece) rest in
    let (m1, round, same) =
      doprnt_round_lem piece (suc fuel) i fmt buffer room m (arguments_all pieces ws) out first here
        (omega arith) (omega arith) in
    let at : fmt + i + length (syntax piece) ≡ fmt + (i + length (syntax piece)) = omega arith in
    let behind =
      subst (λ (a : ℕ). Holds m a rest) at
        (Holds-append_right (syntax piece) rest m (fmt + i) (chars, ends)) in
    let (m', prints, same') =
      doprnt_loop-pieces pieces fuel (i + length (syntax piece)) fmt buffer room m1 ws
        (out ++ output piece) (IsPieces-SameBut pieces buffer room m m1 same others)
        (Holds-SameBut rest buffer 32 (fmt + (i + length (syntax piece))) m m1 same (ground arith)
          behind)
        (ground arith) big (omega arith) in
    (
      m',
      doprnt_loop_goes_on fuel i fmt buffer (length (syntax piece))
            (printer m (arguments piece (arguments_all pieces ws)) out)
            (printer m1 (arguments_all pieces ws) (out ++ output piece))
            (syntax-head piece m (fmt + i) here) round
          ∙ prints
          ∙ ap (λ (t : List ℕ). some (printer m' ws t))
              (append_assoc out (output piece) (output_all pieces)),
      λ a away. same' a away ∙ same a away,
    )

-- `__doprnt` of a format of pieces, none of which is `%l`, with their arguments on the stack, ends on
-- as many rounds as pieces and 33, or the pieces and more than the longest string, where the format
-- and the strings of its `%s` stand apart from the buffer and no `%d` or `%i` is given the least
-- `int`; it puts out what the pieces stand for, in order, has taken their arguments and no more, and
-- has changed no byte outside the 32 of its buffer.
pub doprnt-pieces :
    (pieces : List Piece) (fuel fmt buffer room : ℕ) (m : Memory) (ws out : List ℕ)
    → IsPieces m buffer room pieces
    → Holds m fmt (syntax_all pieces)
    → (fmt + length (syntax_all pieces) < buffer) ⊎ (buffer + 32 ≤ fmt)
    → 32 < room
    → room + length pieces ≤ fuel
    → (m' : Memory) × (doprnt fuel fmt buffer
          (record { memory = m; argp = arguments_all pieces ws; put = out })
        ≡ some (record { memory = m'; argp = ws; put = out ++ output_all pieces }))
      × SameBut buffer 32 m m'
unfolding doprnt
doprnt-pieces pieces fuel fmt buffer room m ws out valid string apart big enough =
    let at : fmt ≡ fmt + 0 = omega arith in
    doprnt_loop-pieces pieces fuel 0 fmt buffer room m ws out valid
      (subst (λ (a : ℕ). Holds m a (syntax_all pieces)) at string) (ground arith) big enough
