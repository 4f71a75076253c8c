-- ===== src/Serial/Tests.antt =====
-- The log at concrete inputs.
use unix_p.Prelude.{
  inl, List, ◌∷◌, ◌++◌, refl, true, leb, ℕ, ◌+◌, ◌≡◌, [], some, arith, ◌==◌, if◌then◌else◌,
}
use unix_p.Prelude.Memory.{Memory, read}
use unix_p.Format.Piece.{Piece, literal, output_all}
use unix_p.Serial.{com_is_transmit_empty, log, Console}
use unix_p.Serial.Output.{bytes_of, IsLive, log_lem}
use unix_p.Vga.Cursor.{OnScreen}

-- "a" and a line feed at 100.
abbrev line : Memory
line a = if a == 100 then 97 else if a == 101 then 10 else 0

-- A port that is busy for three polls.
abbrev slow : ℕ → ℕ
slow k = if leb 3 k then 0x60 else 0x40

slow-IsLive : IsLive slow 3
unfolding com_is_transmit_empty
slow-IsLive k =
    let up : leb 3 (k + 3) ≡ true = ground arith in
    (3, omega arith, λ busy. let now : 32 ≡ 0 = rw up at busy in omega arith)

abbrev console : Console
console = record {
  log_out = 0;
  polls = 0;
  sent = [];
  screen = record { memory = line; tvga_curattr = 0x0F; cursor_pos = 0; ports = [] };
}

-- "a" and a line feed.
abbrev pieces : List Piece
pieces = literal 97 ∷ literal 10 ∷ []

log_lem_example :
    (c' : Console) × (log 50 slow 100 500 (record { memory = line; argp = []; put = [] }) console
      ≡ some c')
    × OnScreen (c'.screen)
    × (c'.sent ≡ ([] ++ bytes_of (output_all pieces)))
    × (c'.log_out ≡ 0)
unfolding read
log_lem_example =
    log_lem pieces 50 3 33 slow 100 500 line [] console slow-IsLive (omega arith) (omega arith)
      (
        (λ h. omega arith, λ h. omega arith, omega arith),
        ((λ h. omega arith, λ h. omega arith, omega arith), tt),
      )
      ((refl, λ h. omega arith, (refl, λ h. omega arith, tt)), refl) (inl (omega arith))
      (omega arith) (omega arith)
