-- ===== src/Serial.antt =====
-- The serial port of kernel/arch/com.c, and the log of kernel/log.c on it and on the terminal.
--
-- `status k` is what poll `k` of the line status register reads. A call takes the number of polls made
-- before it, and returns it with the bytes written to ports.
pub mod Output
pub mod Logged
mod Tests
use unix_p.Prelude.{
  ℕ, zero, suc, ◌+◌, ◌==◌, if◌then◌else◌, List, [], ◌∷◌, ◌++◌, Option, none, some, ◌>>=◌, u8,
  bit_and,
}
use unix_p.Format.{Printer, doprnt}
use unix_p.Vga.{Tvga, tvga_putch}

abbrev pub com1_port : ℕ
com1_port = 0x3f8

abbrev pub Ports : Type 0
Ports = List (ℕ × ℕ)

unfoldable pub com_is_transmit_empty : (status : ℕ → ℕ) (polls : ℕ) → ℕ
com_is_transmit_empty status polls = bit_and (u8 (status polls)) 0x20

-- The loop that waits: the number of polls after it.
unfoldable pub com_wait : (fuel : ℕ) (status : ℕ → ℕ) (polls : ℕ) → Option ℕ
com_wait zero status polls = none
com_wait (suc fuel) status polls =
    let rest = com_wait fuel status (polls + 1) in
    if com_is_transmit_empty status polls == 0 then rest else some (polls + 1)

-- A line feed goes out behind a carriage return.
unfoldable pub com_bytes : (c : ℕ) → Ports
com_bytes c = if c == 10 then (com1_port, 13) ∷ (com1_port, u8 c) ∷ [] else (com1_port, u8 c) ∷ []

unfoldable pub com_write : (fuel : ℕ) (status : ℕ → ℕ) (c polls : ℕ) → Option (ℕ × Ports)
com_write fuel status c polls = do polls' ← com_wait fuel status polls; some (polls', com_bytes c)

-- The calls of `com_write` that `__doprnt` makes for its characters.
unfoldable pub com_write_all :
    (fuel : ℕ) (status : ℕ → ℕ) (cs : List ℕ) (polls : ℕ) → Option (ℕ × Ports)
com_write_all fuel status [] polls = some (polls, [])
com_write_all fuel status (c ∷ cs) polls = do
  (polls', bytes) ← com_write fuel status c polls
  (polls'', more) ← com_write_all fuel status cs polls'
  some (polls'', bytes ++ more)

-- The calls of `__tvga_putch`, each a `tvga_write` of one character.
unfoldable pub tvga_put_all : (cs : List ℕ) → Tvga → Option Tvga
tvga_put_all [] t = some t
tvga_put_all (c ∷ cs) t = do t' ← tvga_putch c t; tvga_put_all cs t'

-- Where `LOG` goes: `__log_out`, the polls and the bytes of the serial port, and the terminal.
pub record Console : Type 0 where
  pub log_out : ℕ
  pub polls : ℕ
  pub sent : Ports
  pub screen : Tvga

unfoldable pub log_set_output : (out : ℕ) → Console → Console
log_set_output out c = record { log_out = out; polls = c.polls; sent = c.sent; screen = c.screen }

-- The two outputs of `LOG`.
unfoldable pub log_serial : (fuel : ℕ) (status : ℕ → ℕ) (cs : List ℕ) → Console → Option Console
log_serial fuel status cs c = do
  (polls', bytes) ← com_write_all fuel status cs (c.polls)
  some (record { log_out = c.log_out; polls = polls'; sent = c.sent ++ bytes; screen = c.screen })

unfoldable pub log_terminal : (cs : List ℕ) → Console → Option Console
log_terminal cs c = do
  t ← tvga_put_all cs (c.screen)
  some (record { log_out = c.log_out; polls = c.polls; sent = c.sent; screen = t })

-- The characters of `__doprnt`, to the serial port or the terminal. Neither is taken to change the
-- memory that the format is read from.
unfoldable pub log :
    (fuel : ℕ) (status : ℕ → ℕ) (fmt buffer : ℕ) → Printer → Console → Option Console
log fuel status fmt buffer p c = do
  p' ← doprnt fuel fmt buffer p
  if c.log_out == 0 then log_serial fuel status (p'.put) c else log_terminal (p'.put) c
