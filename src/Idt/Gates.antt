-- ===== src/Idt/Gates.antt =====
-- Every vector leads to its handler, and the controllers are left masked.
use unix_p.Prelude.{
  ℕ, zero, suc, ◌+◌, ◌-◌, ◌*◌, ◌/◌, ◌^◌, ◌≤◌, ◌<◌, ◌≡◌, refl, ◌&&◌, List, [], ◌∷◌, arith, ltb, leb,
  ◌==◌, if◌then◌else◌, u8, u16,
}
use unix_p.Irq.{irq_remap, irq_clear}
use unix_p.Idt.{IdtEntry, IdtTable, idt_setentry, idt_fill, no_gate, idt_init}

-- The handler's address, as the processor puts it together.
abbrev pub handler_of : IdtEntry → ℕ
handler_of d = d.isr_low + d.isr_high * 2 ^ 16

-- A present 32-bit interrupt gate of the kernel, in its code segment.
abbrev pub gate : (isr : ℕ) → IdtEntry
gate isr = record {
  isr_low = u16 isr;
  gdt_cs = 0x08;
  res = 0;
  flags = 0x8E;
  isr_high = u16 (isr / 2 ^ 16);
}

idt_setentry_at :
    (vector isr v : ℕ) (table : IdtTable)
    → vector < 256
    → idt_setentry vector isr 0x08 0x8E table v ≡ (if v == vector then gate isr else table v)
unfolding idt_setentry
idt_setentry_at vector isr v table small =
    let byte : u8 vector ≡ vector = omega arith in rw byte refl

idt_fill_lem :
    (left i first v : ℕ) (handlers : ℕ → ℕ) (table : IdtTable)
    → i + first + left ≤ 256
    → idt_fill left i first handlers table v ≡ (
        if leb (i + first) v && ltb v (i + first + left)
        then gate (handlers (v - first))
        else table v)
unfolding idt_fill
idt_fill_lem zero i first v handlers table room = ground arith
idt_fill_lem (suc left) i first v handlers table room = ground (
  arith,
  idt_fill_lem left (i + 1) first v handlers
      (idt_setentry (i + first) (handlers i) 0x08 0x8E table),
  idt_setentry_at (i + first) (handlers i) v table,
)

handler_of-gate : (isr : ℕ) → isr < 2 ^ 32 → handler_of (gate isr) ≡ isr
handler_of-gate isr fits = omega arith

-- The table of `idt_init`, gate by gate.
idt_init-gate :
    (isr_table irq_table inb : ℕ → ℕ) (v : ℕ)
    → (idt_init isr_table irq_table inb).1 v ≡ (
        if ltb v 32
        then gate (isr_table v)
        else if ltb v 48
        then gate (irq_table (v - 32))
        else no_gate)
unfolding idt_init
idt_init-gate isr_table irq_table inb v = ground (
  arith,
  idt_fill_lem 16 0 32 v irq_table (idt_fill 32 0 0 isr_table (λ v. no_gate)) (omega arith),
  idt_fill_lem 32 0 0 v isr_table (λ v. no_gate) (omega arith),
)

-- What a port holds behind these writes.
abbrev pub latch : (port held : ℕ) → List (ℕ × ℕ) → ℕ
latch port held [] = held
latch port held ((to, byte) ∷ writes) = latch port (if to == port then byte else held) writes

latch-idt_init :
    (isr_table irq_table inb : ℕ → ℕ) (held : ℕ)
    → (latch 0x21 held ((idt_init isr_table irq_table inb).2) ≡ 0xff)
      × (latch 0xA1 held ((idt_init isr_table irq_table inb).2) ≡ 0xff)
unfolding idt_init irq_remap irq_clear
latch-idt_init isr_table irq_table inb held = (refl, refl)

-- If the assembly handlers lie below 2 ^ 32, `idt_init` leaves an interrupt table in which a
-- vector below 32 leads to its exception handler, each of the next sixteen to the handler of its
-- line, both through a present interrupt gate in the kernel's code segment, and any other vector to
-- no gate; and both interrupt controllers hold the mask 0xff.
pub idt_init_lem :
    (isr_table irq_table inb : ℕ → ℕ) (v held : ℕ)
    → ((k : ℕ) → isr_table k < 2 ^ 32)
    → ((k : ℕ) → irq_table k < 2 ^ 32)
    → (handler_of ((idt_init isr_table irq_table inb).1 v)
        ≡ (if ltb v 32 then isr_table v else if ltb v 48 then irq_table (v - 32) else 0))
      × (((idt_init isr_table irq_table inb).1 v).gdt_cs ≡ (if ltb v 48 then 0x08 else 0))
      × (((idt_init isr_table irq_table inb).1 v).flags ≡ (if ltb v 48 then 0x8E else 0))
      × (latch 0x21 held ((idt_init isr_table irq_table inb).2) ≡ 0xff)
      × (latch 0xA1 held ((idt_init isr_table irq_table inb).2) ≡ 0xff)
idt_init_lem isr_table irq_table inb v held low_isr low_irq =
    let isr = low_isr v in
    let irq = low_irq (v - 32) in
    let (m1, m2) = latch-idt_init isr_table irq_table inb held in
    rw (idt_init-gate isr_table irq_table inb v) (ground arith, ground arith, ground arith, m1, m2)
