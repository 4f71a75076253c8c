-- ===== src/Format/Tests.antt =====
-- The formatted output at concrete inputs.
use unix_p.Prelude.{
  ◌-◌, ◌^◌, ◌∷◌, inl, inr, ◌≡◌, refl, List, [], some, arith, ◌==◌, ◌||◌, if◌then◌else◌,
}
use unix_p.Prelude.Memory.{Memory, read}
use unix_p.Format.{doprnt}
use unix_p.Tools.Str.Text.{SameBut}
use unix_p.Format.Piece.{Piece, integer, string_at}
use unix_p.Format.Loop.{doprnt-pieces}

-- "%d%s" at 400, and "x" at 450.
abbrev mixed : Memory
mixed a =
    if a == 400 || a == 402
    then 37
    else if a == 401
    then 100
    else if a == 403
    then 115
    else if a == 450
    then 120
    else 0

-- Minus five, and the string.
abbrev mixed_pieces : List Piece
mixed_pieces = integer 100 (2 ^ 32 - 5) ∷ string_at 450 (120 ∷ []) ∷ []

doprnt-pieces_example :
    (m' : Memory) × (doprnt 40 400 1000
        (record { memory = mixed; argp = (2 ^ 32 - 5) ∷ 450 ∷ 77 ∷ []; put = 63 ∷ [] })
      ≡ some (record { memory = m'; argp = 77 ∷ []; put = 63 ∷ 45 ∷ 53 ∷ 120 ∷ [] }))
    × SameBut 1000 32 mixed m'
unfolding read unix_p.Tools.Str.Numeral.digits_of
doprnt-pieces_example =
    doprnt-pieces mixed_pieces 40 400 1000 33 mixed (77 ∷ []) (63 ∷ [])
      (
        (omega arith, λ h. omega arith, inr refl),
        ((omega arith, omega arith, ((refl, λ h. omega arith, tt), refl), inl (omega arith)), tt),
      )
      (
        (
          refl,
          λ h. omega arith,
          (refl, λ h. omega arith, (refl, λ h. omega arith, (refl, λ h. omega arith, tt))),
        ),
        refl,
      )
      (inl (omega arith)) (omega arith) (omega arith)
