-- ===== src/Idt/Exception/Report.antt =====
-- What comes out before the processor halts on an exception.
use unix_p.Prelude.{
  ℕ, ◌+◌, ◌-◌, ◌/◌, ◌^◌, ◌≤◌, ◌<◌, ◌≡◌, ◌⊎◌, inl, inr, refl, sym, ap, ◌∙◌, true, false, List, [],
  ◌∷◌, ◌++◌, length, some, arith, ltb, ◌==◌, if◌then◌else◌,
}
use mathlib.Core.List.{append-nil}
use native.Mathlib.Decide.{ℕ_discrete}
use unix_p.Prelude.Text.{codes}
use unix_p.Prelude.Memory.{Memory}
use unix_p.Tools.Str.Text.{Holds}
use unix_p.Tools.Str.Numeral.{numeral, signed}
use unix_p.Prelude.Int.{to_int}
use unix_p.Format.Piece.{
  integer, hexadecimal, string_at, plain, IsPieces-plain, output_all, output_all-plain,
}
use unix_p.Vga.Cursor.{OnScreen}
use unix_p.Serial.{Console, log}
use unix_p.Serial.Output.{IsLive, log_lem}
use unix_p.Serial.Logged.{logged, logged_none, IsLogged, IsLogged-append}
use unix_p.Idt.Exception.{exception_names, Constants, call, handle_exception}

abbrev pub name_of : List (List ℕ) → ℕ → List ℕ
name_of [] i = []
name_of (n ∷ ns) i = if i == 0 then n else name_of ns (i - 1)

-- The report of an exception.
abbrev pub message : (intnum errcode : ℕ) → List ℕ
message intnum errcode =
    (codes "\nAn exception occurred!\nISR:"
      ++ (numeral 10 intnum ++ (codes ", Name:" ++ name_of exception_names intnum)))
    ++ ((if errcode == 0 then [] else codes ", Error Code:" ++ numeral 16 (errcode / 8))
        ++ codes ".\n")

-- A string constant, and where it stands: apart from the buffer.
abbrev pub IsConstant : Memory → (buffer at : ℕ) → List ℕ → Type 0
IsConstant m buffer at cs =
    (at < 2 ^ 32) × Holds m at cs × ((at + length cs < buffer) ⊎ (buffer + 32 ≤ at))

-- What the compiler lays out.
abbrev pub IsLaidOut : Memory → Constants → Type 0
IsLaidOut m k =
    IsConstant m (k.buffer) (k.report) (codes "\nAn exception occurred!\nISR:%i, Name:%s")
    × IsConstant m (k.buffer) (k.error_code) (codes ", Error Code:%x")
    × IsConstant m (k.buffer) (k.end_of_line) (codes ".\n")
    × ((i : ℕ) → i < 32 → IsConstant m (k.buffer) (k.names i) (name_of exception_names i))

abbrev IsShort : List (List ℕ) → Type 0
IsShort [] = Unit {0}
IsShort (n ∷ ns) = (length n < 33) × IsShort ns

name_short : (ns : List (List ℕ)) (i : ℕ) → IsShort ns → length (name_of ns i) < 33
name_short [] i short = omega arith
name_short (n ∷ ns) i (here, others) = elim (ℕ_discrete i 0) [
  | yes first ↦ let test : (i == 0) ≡ true = ground arith in rw test here
  | no later ↦ let test : (i == 0) ≡ false = ground arith in rw test (name_short ns (i - 1) others)
]

names-IsShort : IsShort exception_names
names-IsShort = omega arith

handle_exception_runs :
    (fuel : ℕ) (status : ℕ → ℕ) (k : Constants) (m : Memory) (intnum errcode : ℕ)
    (c c1 c2 c3 : Console)
    → intnum < 32
    → log fuel status (k.report) (k.buffer) (call m (intnum ∷ k.names intnum ∷ [])) c ≡ some c1
    → (if errcode == 0
        then some c1
        else log fuel status (k.error_code) (k.buffer) (call m (errcode / 8 ∷ [])) c1)
      ≡ some c2
    → log fuel status (k.end_of_line) (k.buffer) (call m []) c2 ≡ some c3
    → handle_exception fuel status k m intnum errcode c ≡ some c3
unfolding handle_exception
handle_exception_runs fuel status k m intnum errcode c c1 c2 c3 small r1 r2 r3 =
    let test : ltb 31 intnum ≡ false = ground arith in rw (test, r1, r2) r3

module _ (fuel wait : ℕ) (status : ℕ → ℕ) (m : Memory) (k : Constants) (live : IsLive status wait)
    (enough : wait < fuel) (room : 33 + 64 ≤ fuel) (laid_out : IsLaidOut m k) where
  report :
      (intnum : ℕ) (c : Console)
      → intnum < 32
      → OnScreen (c.screen)
      → IsLogged c
          (codes "\nAn exception occurred!\nISR:"
            ++ (numeral 10 intnum ++ (codes ", Name:" ++ name_of exception_names intnum)))
          (log fuel status (k.report) (k.buffer) (call m (intnum ∷ k.names intnum ∷ [])) c)
  report intnum c small on =
      let (at, held, apart) = laid_out.0 in
      let (name_at, name_held, name_apart) = laid_out.3 intnum small in
      let name = name_of exception_names intnum in
      let last = string_at (k.names intnum) name ∷ [] in
      let tail = integer 105 intnum ∷ plain (codes ", Name:") last in
      let pieces = plain (codes "\nAn exception occurred!\nISR:") tail in
      let positive : ltb intnum (2 ^ 31) ≡ true = ground arith in
      let number : signed (to_int intnum) ≡ numeral 10 intnum = rw positive refl in
      let (c', returns, on', sent, out) =
        log_lem pieces fuel wait 33 status (k.report) (k.buffer) m [] c live enough on
          (IsPieces-plain (codes "\nAn exception occurred!\nISR:") m (k.buffer) 33 tail
            (omega arith)
            (
              (omega arith, λ h. omega arith, inl refl),
              IsPieces-plain (codes ", Name:") m (k.buffer) 33 last (omega arith) (
                (name_at, name_short exception_names intnum names-IsShort, name_held, name_apart),
                tt,
              ),
            ))
          held apart (omega arith) (omega arith) in
      let shown : output_all pieces
          ≡ codes "\nAn exception occurred!\nISR:"
            ++ (numeral 10 intnum ++ (codes ", Name:" ++ name)) =
        output_all-plain (codes "\nAn exception occurred!\nISR:") tail
        ∙ ap (λ (t : List ℕ). codes "\nAn exception occurred!\nISR:" ++ t)
            (ap (λ (t : List ℕ). t ++ output_all (plain (codes ", Name:") last)) number
              ∙ ap (λ (t : List ℕ). numeral 10 intnum ++ t)
                  (output_all-plain (codes ", Name:") last
                    ∙ ap (λ (t : List ℕ). codes ", Name:" ++ t) (append-nil name))) in
      (c', returns, on', sent ∙ ap (λ (cs : List ℕ). logged (c.log_out) (c.sent) cs) shown, out)

  error_code :
      (errcode : ℕ) (c : Console)
      → errcode < 2 ^ 32
      → OnScreen (c.screen)
      → IsLogged c
          (codes ", Error Code:" ++ numeral 16 (errcode / 8))
          (log fuel status (k.error_code) (k.buffer) (call m (errcode / 8 ∷ [])) c)
  error_code errcode c small on =
      let (at, held, apart) = laid_out.1 in
      let tail = hexadecimal 120 (errcode / 8) ∷ [] in
      let pieces = plain (codes ", Error Code:") tail in
      let (c', returns, on', sent, out) =
        log_lem pieces fuel wait 33 status (k.error_code) (k.buffer) m [] c live enough on
          (IsPieces-plain (codes ", Error Code:") m (k.buffer) 33 tail (omega arith)
            ((omega arith, inr (inr refl)), tt))
          held apart (omega arith) (omega arith) in
      let shown : output_all pieces ≡ codes ", Error Code:" ++ numeral 16 (errcode / 8) =
        output_all-plain (codes ", Error Code:") tail
        ∙ ap (λ (t : List ℕ). codes ", Error Code:" ++ t) (append-nil (numeral 16 (errcode / 8))) in
      (c', returns, on', sent ∙ ap (λ (cs : List ℕ). logged (c.log_out) (c.sent) cs) shown, out)

  -- The second line is put out only if there is an error code.
  maybe_error_code :
      (errcode : ℕ) (c : Console)
      → errcode < 2 ^ 32
      → OnScreen (c.screen)
      → IsLogged c
          (if errcode == 0 then [] else codes ", Error Code:" ++ numeral 16 (errcode / 8))
          (if errcode == 0
            then some c
            else log fuel status (k.error_code) (k.buffer) (call m (errcode / 8 ∷ [])) c)
  maybe_error_code errcode c small on = elim (ℕ_discrete errcode 0) [
    | yes none_given ↦
        let test : (errcode == 0) ≡ true = ground arith in
        rw test (c, refl, on, sym (logged_none (c.log_out) (c.sent)), refl)
    | no given ↦
        let test : (errcode == 0) ≡ false = ground arith in rw test (error_code errcode c small on)
  ]

  end_of_line :
      (c : Console)
      → OnScreen (c.screen)
      → IsLogged c (codes ".\n") (log fuel status (k.end_of_line) (k.buffer) (call m []) c)
  end_of_line c on =
      let (at, held, apart) = laid_out.2 in
      log_lem (plain (codes ".\n") []) fuel wait 33 status (k.end_of_line) (k.buffer) m [] c live
        enough on (IsPieces-plain (codes ".\n") m (k.buffer) 33 [] (omega arith) tt) held apart
        (omega arith) (omega arith)

  lines :
      (intnum errcode : ℕ) (c : Console)
      → intnum < 32
      → errcode < 2 ^ 32
      → OnScreen (c.screen)
      → IsLogged c (message intnum errcode) (handle_exception fuel status k m intnum errcode c)
  lines intnum errcode c small word on =
      let (c1, r1, on1, sent1, out1) = report intnum c small on in
      let (c2, r2, on2, sent2, out2) = maybe_error_code errcode c1 word on1 in
      let (c3, r3, on3, sent3, out3) = end_of_line c2 on2 in
      IsLogged-append c c1
        (codes "\nAn exception occurred!\nISR:"
          ++ (numeral 10 intnum ++ (codes ", Name:" ++ name_of exception_names intnum)))
        ((if errcode == 0 then [] else codes ", Error Code:" ++ numeral 16 (errcode / 8))
          ++ codes ".\n")
        (handle_exception fuel status k m intnum errcode c) out1 sent1
        (IsLogged-append c1 c2
          (if errcode == 0 then [] else codes ", Error Code:" ++ numeral 16 (errcode / 8))
          (codes ".\n") (handle_exception fuel status k m intnum errcode c) out2 sent2
          (
            c3,
            handle_exception_runs fuel status k m intnum errcode c c1 c2 c3 small r1 r2 r3,
            on3,
            sent3,
            out3,
          ))

-- If the serial port is always ready after at most `wait` polls and the cursor is on the screen,
-- `handle_exception` of one of the 32 exceptions ends in the halt, its string constants standing apart
-- from the buffer of `__doprnt`; if the log goes to the serial port, that has then been sent the report,
-- of the number and the name, and of the error code's selector index in hexadecimal if there is one.
pub handle_exception-message :
    (fuel wait : ℕ) (status : ℕ → ℕ) (m : Memory) (k : Constants) (intnum errcode : ℕ) (c : Console)
    → IsLive status wait
    → wait < fuel
    → 97 ≤ fuel
    → IsLaidOut m k
    → intnum < 32
    → errcode < 2 ^ 32
    → OnScreen (c.screen)
    → (c' : Console) × (handle_exception fuel status k m intnum errcode c ≡ some c')
      × OnScreen (c'.screen)
      × (c'.sent ≡ logged (c.log_out) (c.sent) (message intnum errcode))
      × (c'.log_out ≡ c.log_out)
handle_exception-message fuel wait status m k intnum errcode c live enough room laid_out small word
      on =
    lines fuel wait status m k live enough (omega arith) laid_out intnum errcode c small word on
