-- ===== src/Idt.antt =====
-- The gates of the interrupt table: `idt_setentry` and `idt_init` of kernel/arch/idt.c.
--
-- The addresses of the assembly handlers, `isr_table` and `irq_table`, are parameters, and so is what
-- the ports read. `lidt` and `sti` come last, and are left out.
pub mod Gates
pub mod Exception
mod Tests
use unix_p.Prelude.{
  ℕ, zero, suc, ◌+◌, ◌-◌, ◌*◌, ◌/◌, ◌^◌, List, [], ◌∷◌, ◌++◌, ltb, ◌==◌, if◌then◌else◌, u8, u16,
}
use unix_p.Irq.{irq_remap, irq_clear}

pub record IdtEntry : Type 0 where
  pub isr_low : ℕ
  pub gdt_cs : ℕ
  pub res : ℕ
  pub flags : ℕ
  pub isr_high : ℕ

abbrev pub IdtTable : Type 0
IdtTable = ℕ → IdtEntry

unfoldable pub idt_setentry : (vector isr cs flags : ℕ) → IdtTable → IdtTable
idt_setentry vector isr cs flags table v =
    if v == u8 vector
    then record {
      isr_low = u16 isr;
      gdt_cs = u16 cs;
      res = 0;
      flags = u8 flags;
      isr_high = u16 (isr / 2 ^ 16);
    }
    else table v

-- The loops of `idt_init`: gates from vector `first` on, entry `i` of the table of handlers
-- for gate `first + i`.
unfoldable pub idt_fill : (left i first : ℕ) (handlers : ℕ → ℕ) → IdtTable → IdtTable
idt_fill zero i first handlers table = table
idt_fill (suc left) i first handlers table =
    idt_fill left (i + 1) first handlers (idt_setentry (i + first) (handlers i) 0x08 0x8E table)

abbrev pub no_gate : IdtEntry
no_gate = record { isr_low = 0; gdt_cs = 0; res = 0; flags = 0; isr_high = 0 }

-- The limit of `idtr`, 256 gates of 8 bytes, the table, and the writes to ports.
unfoldable pub idt_init : (isr_table irq_table inb : ℕ → ℕ) → ℕ × IdtTable × List (ℕ × ℕ)
idt_init isr_table irq_table inb = (
  256 * 8 - 1,
  idt_fill 16 0 0x20 irq_table (idt_fill 32 0 0 isr_table (λ v. no_gate)),
  irq_remap inb 0x20 ++ irq_clear,
)
