-- ===== src/Idt/Exception.antt =====
-- `handle_exception` of kernel/arch/idt.c: what it logs before it halts.
--
-- The addresses that the compiler gives to the formats and the names are parameters, and so is the
-- buffer of `__doprnt` on the stack. After the last line come `cli`, and `hlt` for ever.
pub mod Report
use unix_p.Prelude.{
  ℕ, zero, suc, ◌+◌, ◌-◌, ◌*◌, ◌/◌, List, [], ◌∷◌, ◌++◌, Option, none, some, ◌>>=◌, ltb, ◌==◌,
  if◌then◌else◌,
}
use unix_p.Prelude.Text.{codes}
use unix_p.Prelude.Memory.{Memory}
use unix_p.Format.{Printer}
use unix_p.Serial.{Console, log}

abbrev pub exception_names : List (List ℕ)
exception_names =
    codes "DivideByZero"
    ∷ codes "Debug"
    ∷ codes "NMI"
    ∷ codes "Breakpoint"
    ∷ codes "Overflow"
    ∷ codes "BoundRangeExceed"
    ∷ codes "InvalidOpcode"
    ∷ codes "CoprocessorNotAviable"
    ∷ codes "DoubleFault"
    ∷ codes "CoprocessorSegmentOverrun"
    ∷ codes "InvalidTSS"
    ∷ codes "SegmentNotPresent"
    ∷ codes "StackFault"
    ∷ codes "GeneralProtection"
    ∷ codes "PageFault"
    ∷ []
    ∷ codes "x87"
    ∷ codes "AlignmentCheck"
    ∷ codes "MachineCheck"
    ∷ codes "SIMD"
    ∷ codes "Virtualization"
    ∷ codes "ControlProtection"
    ∷ []
    ∷ []
    ∷ []
    ∷ []
    ∷ []
    ∷ []
    ∷ []
    ∷ codes "HypervisorInjection"
    ∷ codes "VMMCommunication"
    ∷ codes "SecurityException"
    ∷ []

-- Where the string constants stand: the formats of the three calls of LOG, the pointers of
-- `exception_names`, and the buffer.
pub record Constants : Type 0 where
  pub report : ℕ
  pub error_code : ℕ
  pub end_of_line : ℕ
  pub names : ℕ → ℕ
  pub buffer : ℕ

abbrev pub call : Memory → List ℕ → Printer
call m args = record { memory = m; argp = args; put = [] }

-- The console when the processor halts. A name is read from behind the table, a fault, for an
-- interrupt number above 31.
unfoldable pub handle_exception :
    (fuel : ℕ) (status : ℕ → ℕ)
    → Constants
    → Memory
    → (intnum errcode : ℕ) → Console
    → Option Console
handle_exception fuel status k m intnum errcode c = if ltb 31 intnum then none else do
  c1 ← log fuel status (k.report) (k.buffer) (call m (intnum ∷ k.names intnum ∷ [])) c
  c2 ←
      if errcode == 0
      then some c1
      else log fuel status (k.error_code) (k.buffer) (call m (errcode / 8 ∷ [])) c1
  log fuel status (k.end_of_line) (k.buffer) (call m []) c2
