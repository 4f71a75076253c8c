-- ===== src/Idt/Tests.antt =====
-- The interrupt table at concrete handlers.
use unix_p.Prelude.{
  ap, sym, ◌∙◌, ◌-◌, ◌/◌, ◌≤◌, ◌<◌, suc, refl, true, false, inl, List, [], ◌∷◌, length, leb, ◌==◌,
  if◌then◌else◌, u8, some, ℕ, ◌+◌, ◌*◌, ◌%◌, ◌≡◌, arith,
}
use unix_p.Prelude.Text.{codes}
use unix_p.Prelude.Memory.{Memory, read}
use unix_p.Tools.Str.Text.{Holds}
use unix_p.Serial.{Console, com_is_transmit_empty}
use unix_p.Serial.Output.{IsLive}
use unix_p.Serial.Logged.{logged}
use unix_p.Vga.Cursor.{OnScreen}
use unix_p.Idt.Exception.{exception_names, Constants, handle_exception}
use unix_p.Idt.Exception.Report.{name_of, message, IsLaidOut, handle_exception-message}
use native.Mathlib.Decide.{ℕ_discrete}
use unix_p.Idt.{idt_init}
use unix_p.Idt.Gates.{handler_of, latch, idt_init_lem}

-- A handler every sixteen bytes, from one megabyte on.
abbrev handlers : ℕ → ℕ
handlers k = 0x100000 + 16 * (k % 64)

idt_init_lem_example :
    (handler_of ((idt_init handlers handlers (λ port. 0)).1 33) ≡ 0x100010)
    × (((idt_init handlers handlers (λ port. 0)).1 33).gdt_cs ≡ 0x08)
    × (((idt_init handlers handlers (λ port. 0)).1 33).flags ≡ 0x8E)
    × (latch 0x21 0 ((idt_init handlers handlers (λ port. 0)).2) ≡ 0xff)
    × (latch 0xA1 0 ((idt_init handlers handlers (λ port. 0)).2) ≡ 0xff)
idt_init_lem_example =
    idt_init_lem handlers handlers (λ port. 0) 33 0 (λ k. omega arith) (λ k. omega arith)

-- The string constants, the names 32 bytes apart, and a port that is always ready.
abbrev char : List ℕ → ℕ → ℕ
char [] k = 0
char (c ∷ cs) k = if k == 0 then c else char cs (k - 1)

abbrev constants : Memory
constants a =
    if leb 0x2000 a
    then char (name_of exception_names ((a - 0x2000) / 32)) ((a - 0x2000) % 32)
    else if leb 0x1200 a
    then char (codes ".\n") (a - 0x1200)
    else if leb 0x1100 a
    then char (codes ", Error Code:%x") (a - 0x1100)
    else char (codes "\nAn exception occurred!\nISR:%i, Name:%s") (a - 0x1000)

abbrev places : Constants
places = record {
  report = 0x1000;
  error_code = 0x1100;
  end_of_line = 0x1200;
  names = λ i. 0x2000 + 32 * i;
  buffer = 0x3000;
}

abbrev IsAscii : List ℕ → Type 0
IsAscii [] = Unit {0}
IsAscii (c ∷ cs) = (0 < c) × (c < 256) × IsAscii cs

char_later : (c : ℕ) (cs : List ℕ) (k : ℕ) → char (c ∷ cs) (suc k) ≡ char cs k
char_later c cs k =
    let test : (suc k == 0) ≡ false = ground arith in
    let back : suc k - 1 ≡ k = omega arith in rw (test, back) refl

-- A string that the memory spells is there.
spelled :
    (cs : List ℕ) (m : Memory) (at : ℕ)
    → IsAscii cs
    → ((k : ℕ) → k ≤ length cs → m (at + k) ≡ char cs k)
    → Holds m at cs
unfolding read
spelled [] m at ascii spells = (tt, rw (spells 0 (omega arith)) refl)
spelled (c ∷ cs) m at (real, byte, ascii) spells =
    let start : at + 0 ≡ at = omega arith in
    let first : m at ≡ c = ap (λ (a : ℕ). m a) (sym start) ∙ spells 0 (omega arith) in
    let same : u8 c ≡ c = omega arith in
    let (chars, ends) = spelled cs m (at + 1) ascii (λ k inside.
      let next : at + 1 + k ≡ at + suc k = omega arith in
      ap (λ (a : ℕ). m a) next ∙ spells (suc k) (omega arith) ∙ char_later c cs k) in
    let end : at + suc (length cs) ≡ at + 1 + length cs = omega arith in
    ((rw first same, (λ h. omega arith), chars), ap (λ (a : ℕ). read m a) end ∙ ends)

abbrev AllAscii : List (List ℕ) → Type 0
AllAscii [] = Unit {0}
AllAscii (n ∷ ns) = (length n < 32) × IsAscii n × AllAscii ns

name_of-IsAscii :
    (ns : List (List ℕ)) (i : ℕ)
    → AllAscii ns
    → (length (name_of ns i) < 32) × IsAscii (name_of ns i)
name_of-IsAscii [] i ascii = (omega arith, tt)
name_of-IsAscii (n ∷ ns) i (short, here, others) = elim (ℕ_discrete i 0) [
  | yes first ↦ let test : (i == 0) ≡ true = ground arith in rw test (short, here)
  | no later ↦
      let test : (i == 0) ≡ false = ground arith in rw test (name_of-IsAscii ns (i - 1) others)
]

names_ascii : AllAscii exception_names
names_ascii = omega arith

report_at :
    (k : ℕ)
    → k < 0x100
    → constants (0x1000 + k) ≡ char (codes "\nAn exception occurred!\nISR:%i, Name:%s") k
report_at k small =
    let t1 : leb 0x2000 (0x1000 + k) ≡ false = ground arith in
    let t2 : leb 0x1200 (0x1000 + k) ≡ false = ground arith in
    let t3 : leb 0x1100 (0x1000 + k) ≡ false = ground arith in
    let at : 0x1000 + k - 0x1000 ≡ k = omega arith in rw (t1, t2, t3, at) refl

error_code_at : (k : ℕ) → k < 0x100 → constants (0x1100 + k) ≡ char (codes ", Error Code:%x") k
error_code_at k small =
    let t1 : leb 0x2000 (0x1100 + k) ≡ false = ground arith in
    let t2 : leb 0x1200 (0x1100 + k) ≡ false = ground arith in
    let t3 : leb 0x1100 (0x1100 + k) ≡ true = ground arith in
    let at : 0x1100 + k - 0x1100 ≡ k = omega arith in rw (t1, t2, t3, at) refl

end_of_line_at : (k : ℕ) → k < 0x100 → constants (0x1200 + k) ≡ char (codes ".\n") k
end_of_line_at k small =
    let t1 : leb 0x2000 (0x1200 + k) ≡ false = ground arith in
    let t2 : leb 0x1200 (0x1200 + k) ≡ true = ground arith in
    let at : 0x1200 + k - 0x1200 ≡ k = omega arith in rw (t1, t2, at) refl

name_at : (i k : ℕ) → k < 32 → constants (0x2000 + 32 * i + k) ≡ char (name_of exception_names i) k
name_at i k small =
    let t1 : leb 0x2000 (0x2000 + 32 * i + k) ≡ true = ground arith in
    let which : (0x2000 + 32 * i + k - 0x2000) / 32 ≡ i = omega arith in
    let at : (0x2000 + 32 * i + k - 0x2000) % 32 ≡ k = omega arith in rw (t1, which, at) refl

constants-IsLaidOut : IsLaidOut constants places
constants-IsLaidOut = (
  (
    omega arith,
    spelled (codes "\nAn exception occurred!\nISR:%i, Name:%s") constants 0x1000 (omega arith)
        (λ k inside. report_at k (omega arith)),
    inl (omega arith),
  ),
  (
    omega arith,
    spelled (codes ", Error Code:%x") constants 0x1100 (omega arith)
        (λ k inside. error_code_at k (omega arith)),
    inl (omega arith),
  ),
  (
    omega arith,
    spelled (codes ".\n") constants 0x1200 (omega arith)
        (λ k inside. end_of_line_at k (omega arith)),
    inl (omega arith),
  ),
  λ i small.
      let (short, ascii) = name_of-IsAscii exception_names i names_ascii in
      (
        omega arith,
        spelled (name_of exception_names i) constants (0x2000 + 32 * i) ascii
            (λ k inside. name_at i k (omega arith)),
        inl (omega arith),
      ),
)

abbrev ready : ℕ → ℕ
ready k = 0x20

ready-IsLive : IsLive ready 0
unfolding com_is_transmit_empty
ready-IsLive polls = (0, omega arith, λ h. omega arith)

abbrev console : Console
console = record {
  log_out = 0;
  polls = 0;
  sent = [];
  screen = record { memory = constants; tvga_curattr = 0x0F; cursor_pos = 0; ports = [] };
}

-- A page fault.
handle_exception-message_example :
    (c' : Console) × (handle_exception 97 ready places constants 14 16 console ≡ some c')
    × OnScreen (c'.screen)
    × (c'.sent ≡ logged 0 [] (message 14 16))
    × (c'.log_out ≡ 0)
handle_exception-message_example =
    handle_exception-message 97 0 ready constants places 14 16 console ready-IsLive (omega arith)
      (omega arith) constants-IsLaidOut (omega arith) (omega arith) (omega arith)
