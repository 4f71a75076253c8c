-- ===== src/Serial/Output.antt =====
-- What comes out of the serial port.
use unix_p.Prelude.{
  length, ◌⊎◌, u8, ap, ℕ, zero, suc, ◌+◌, ◌-◌, ◌≤◌, ◌<◌, ◌≡◌, refl, subst, ◌≢◌, true, false, List,
  [], ◌∷◌, ◌++◌, some, arith, ◌==◌, if◌then◌else◌,
}
use native.Mathlib.Decide.{ℕ_discrete}
use unix_p.Prelude.Memory.{Memory}
use unix_p.Format.Piece.{Piece, IsPieces, syntax_all, arguments_all, output_all}
use unix_p.Format.Loop.{doprnt-pieces}
use unix_p.Tools.Str.Text.{Holds}
use unix_p.Vga.{Tvga}
use unix_p.Vga.Cursor.{OnScreen, tvga_putch-OnScreen}
use unix_p.Serial.{
  Ports, com_is_transmit_empty, com_wait, com_bytes, com_write, com_write_all, log_serial,
  log_terminal, log, tvga_put_all, Console,
}

-- The port is ready at the latest `wait` polls after any poll.
abbrev pub IsLive : (status : ℕ → ℕ) (wait : ℕ) → Type 0
IsLive status wait =
    (polls : ℕ) → (k : ℕ) × (k ≤ wait) × (com_is_transmit_empty status (polls + k) ≢ 0)

com_wait_ends :
    (fuel k : ℕ) (status : ℕ → ℕ) (polls : ℕ)
    → k < fuel
    → com_is_transmit_empty status (polls + k) ≢ 0
    → (polls' : ℕ) × (com_wait fuel status polls ≡ some polls')
unfolding com_wait
com_wait_ends zero k status polls enough ready = absurd (omega arith)
com_wait_ends (suc fuel) k status polls enough ready =
    elim (ℕ_discrete (com_is_transmit_empty status polls) 0) [
      | no now ↦
          let test : (com_is_transmit_empty status polls == 0) ≡ false = ground arith in
          (polls + 1, rw test refl)
      | yes busy ↦
          let test : (com_is_transmit_empty status polls == 0) ≡ true = ground arith in
          let later : k ≢ 0 =
            λ at. ready (let same : polls + k ≡ polls = omega arith in rw same busy) in
          let next : polls + k ≡ polls + 1 + (k - 1) = omega arith in
          let (polls', returns) =
            com_wait_ends fuel (k - 1) status (polls + 1) (omega arith)
              (subst (λ (t : ℕ). com_is_transmit_empty status t ≢ 0) next ready) in
          (polls', rw test returns)
    ]

-- The bytes of these characters at port 0x3f8, a carriage return in front of each line feed.
abbrev pub bytes_of : List ℕ → Ports
bytes_of [] = []
bytes_of (c ∷ cs) =
    if c == 10 then (0x3f8, 13) ∷ (0x3f8, 10) ∷ bytes_of cs else (0x3f8, u8 c) ∷ bytes_of cs

com_bytes_lem : (c : ℕ) (cs : List ℕ) → com_bytes c ++ bytes_of cs ≡ bytes_of (c ∷ cs)
unfolding com_bytes
com_bytes_lem c cs = elim (ℕ_discrete c 10) [
  | yes feed ↦
      let test : (c == 10) ≡ true = ground arith in
      let byte : u8 c ≡ 10 = omega arith in rw (test, byte) refl
  | no other ↦ let test : (c == 10) ≡ false = ground arith in rw test refl
]

com_write_all-bytes_of :
    (cs : List ℕ) (fuel wait : ℕ) (status : ℕ → ℕ) (polls : ℕ)
    → IsLive status wait
    → wait < fuel
    → (polls' : ℕ) × (com_write_all fuel status cs polls ≡ some (polls', bytes_of cs))
unfolding com_write_all com_write
com_write_all-bytes_of [] fuel wait status polls live enough = (polls, refl)
com_write_all-bytes_of (c ∷ cs) fuel wait status polls live enough =
    let (k, soon, ready) = live polls in
    let (polls1, waits) = com_wait_ends fuel k status polls (omega arith) ready in
    let (polls2, rest) = com_write_all-bytes_of cs fuel wait status polls1 live enough in
    (polls2, rw (waits, rest) (ap (λ (bytes : Ports). some (polls2, bytes)) (com_bytes_lem c cs)))

tvga_put_all-OnScreen :
    (cs : List ℕ) (t : Tvga)
    → OnScreen t
    → (t' : Tvga) × (tvga_put_all cs t ≡ some t') × OnScreen t'
unfolding tvga_put_all
tvga_put_all-OnScreen [] t on = (t, refl, on)
tvga_put_all-OnScreen (c ∷ cs) t on =
    let (t1, first, on1) = tvga_putch-OnScreen c t on in
    let (t2, rest, on2) = tvga_put_all-OnScreen cs t1 on1 in (t2, rw (first, rest) refl, on2)

-- If the serial port is always ready after at most `wait` polls and the cursor is on the screen, LOG
-- of a format of pieces, none of which is `%l`, ends, on more rounds than `wait` and on those that
-- `__doprnt` needs, where the format and its strings stand apart from the buffer and no `%d` or `%i`
-- is given the least `int`, with the cursor on the screen; to the serial port it has then sent, if
-- that is its output, what the pieces stand for, in order, a carriage return in front of each line
-- feed, and else nothing.
pub log_lem :
    (pieces : List Piece) (fuel wait room : ℕ) (status : ℕ → ℕ) (fmt buffer : ℕ) (m : Memory)
    (ws : List ℕ) (c : Console)
    → IsLive status wait
    → wait < fuel
    → OnScreen (c.screen)
    → IsPieces m buffer room pieces
    → Holds m fmt (syntax_all pieces)
    → (fmt + length (syntax_all pieces) < buffer) ⊎ (buffer + 32 ≤ fmt)
    → 32 < room
    → room + length pieces ≤ fuel
    → (c' : Console) × (log fuel status fmt buffer
          (record { memory = m; argp = arguments_all pieces ws; put = [] })
          c
        ≡ some c')
      × OnScreen (c'.screen)
      × (c'.sent ≡ (if c.log_out == 0 then c.sent ++ bytes_of (output_all pieces) else c.sent))
      × (c'.log_out ≡ c.log_out)
unfolding log log_serial log_terminal
log_lem pieces fuel wait room status fmt buffer m ws c live enough on valid string apart big few =
    let (m', printed, _) =
      doprnt-pieces pieces fuel fmt buffer room m ws [] valid string apart big few in
    elim (ℕ_discrete (c.log_out) 0) [
      | yes port ↦
          let test : (c.log_out == 0) ≡ true = ground arith in
          let (polls', written) =
            com_write_all-bytes_of (output_all pieces) fuel wait status (c.polls) live enough in
          (
            record {
              log_out = c.log_out;
              polls = polls';
              sent = c.sent ++ bytes_of (output_all pieces);
              screen = c.screen;
            },
            rw (printed, test, written) refl,
            on,
            rw test refl,
            refl,
          )
      | no terminal ↦
          let test : (c.log_out == 0) ≡ false = ground arith in
          let (t, shown, on') = tvga_put_all-OnScreen (output_all pieces) (c.screen) on in
          (
            record { log_out = c.log_out; polls = c.polls; sent = c.sent; screen = t },
            rw (printed, test, shown) refl,
            on',
            rw test refl,
            refl,
          )
    ]
