-- ===== src/Format.antt =====
-- The formatted output `__doprnt` of kernel/tools/t_doprnt.c.
--
-- The characters put out are a list, in order. An argument is a 32-bit word of the stack, as
-- `va_arg` finds it on the machine, and one that is missing has no result. `buffer` is an address of
-- memory, of which the 32 bytes hold what was there before.
-- A conversion and a string run on the rounds that the loop over the format has left.
pub mod Plain
pub mod Long
pub mod Piece
pub mod Directives
pub mod Loop
mod Tests
use unix_p.Prelude.{
  ℕ, zero, suc, ◌+◌, ◌-◌, ◌^◌, Bool, ◌||◌, ◌&&◌, not, List, [], ◌∷◌, ◌++◌, Option, none, some,
  ◌>>=◌, ltb, ◌==◌, if◌then◌else◌, u8, u32,
}
use unix_p.Prelude.Int.{ℤ, pos, negsuc, to_int}
use unix_p.Prelude.Memory.{Memory, read}
use unix_p.Tools.Str.{int_to_str, uint_to_str}

-- The memory, the arguments left, and the characters put out.
pub record Printer : Type 0 where
  pub memory : Memory
  pub argp : List ℕ
  pub put : List ℕ

abbrev pub putch : ℕ → Printer → Printer
putch c p = record { memory = p.memory; argp = p.argp; put = p.put ++ (u8 c ∷ []) }

unfoldable pub doprnt_put_string : (fuel str : ℕ) → Printer → Option Printer
doprnt_put_string zero str p = none
doprnt_put_string (suc fuel) str p =
    let c = read (p.memory) str in
    let rest = doprnt_put_string fuel (str + 1) (putch c p) in if c == 0 then some p else rest

-- The next argument, and what is left.
unfoldable pub va_arg : Printer → Option (ℕ × Printer)
va_arg p = elim (p.argp) [
  | [] ↦ none
  | (w ∷ ws) ↦ some (u32 w, record { memory = p.memory; argp = ws; put = p.put })
]

-- The number has been written to `buffer`, or the conversion had no result.
unfoldable pub put_number : (fuel buffer : ℕ) → Printer → Option Memory → Option Printer
put_number fuel buffer p none = none
put_number fuel buffer p (some m) =
    doprnt_put_string fuel buffer (record { memory = m; argp = p.argp; put = p.put })

unfoldable pub put_string_arg : (fuel : ℕ) → Printer → Option Printer
put_string_arg fuel p = do (w, p') ← va_arg p; doprnt_put_string fuel w p'

unfoldable pub put_char_arg : Printer → Option Printer
put_char_arg p = do (w, p') ← va_arg p; some (putch w p')

unfoldable pub put_int_arg : (fuel buffer : ℕ) → Printer → Option Printer
put_int_arg fuel buffer p = do
  (w, p') ← va_arg p
  put_number fuel buffer p' (int_to_str fuel (to_int w) 10 (p'.memory) buffer)

unfoldable pub put_uint_arg : (fuel base buffer : ℕ) → Printer → Option Printer
put_uint_arg fuel base buffer p = do
  (w, p') ← va_arg p
  put_number fuel buffer p' (uint_to_str fuel w base (p'.memory) buffer)

-- The switch of `__doprnt`, but for the case 'l'.
unfoldable pub put_spec : (fuel spec buffer : ℕ) → Printer → Option Printer
put_spec fuel spec buffer p =
    if spec == 115
    then put_string_arg fuel p
    else if spec == 99
    then put_char_arg p
    else if spec == 105 || spec == 100
    then put_int_arg fuel buffer p
    else if spec == 117
    then put_uint_arg fuel 10 buffer p
    else if spec == 112 || spec == 88 || spec == 120
    then put_uint_arg fuel 16 buffer p
    else some (putch spec p)

abbrev pub passing : ℕ → Option Printer → Option (ℕ × Printer)
passing taken none = none
passing taken (some p) = some (taken, p)

-- The case 'l': `%ll` puts out the buffer, whatever the third character is. With it, how many
-- characters of the format are passed over.
unfoldable pub put_long : (fuel next buffer : ℕ) → Printer → Option (ℕ × Printer)
put_long fuel next buffer p =
    if next == 108 then passing 4 (doprnt_put_string fuel buffer p) else some (3, p)

-- One round of the loop: how many characters of the format it takes, and the new state.
unfoldable pub doprnt_round : (fuel i fmt buffer : ℕ) → Printer → Option (ℕ × Printer)
doprnt_round fuel i fmt buffer p =
    let c = read (p.memory) (fmt + i) in
    let spec = read (p.memory) (fmt + (i + 1)) in
    let next = read (p.memory) (fmt + (i + 2)) in
    if c == 37 && not (spec == 0)
    then if spec == 108
      then put_long fuel next buffer p
      else passing 2 (put_spec fuel spec buffer p)
    else some (1, putch c p)

unfoldable pub doprnt_loop : (fuel i fmt buffer : ℕ) → Printer → Option Printer
doprnt_loop zero i fmt buffer p = none
doprnt_loop (suc fuel) i fmt buffer p =
    let c = read (p.memory) (fmt + i) in
    let rest =
      (doprnt_round (suc fuel) i fmt buffer p >>= λ (taken, p').
      doprnt_loop fuel (i + taken) fmt buffer p') in
    if c == 0 then some p else rest

unfoldable pub doprnt : (fuel fmt buffer : ℕ) → Printer → Option Printer
doprnt fuel fmt buffer p = doprnt_loop fuel 0 fmt buffer p
