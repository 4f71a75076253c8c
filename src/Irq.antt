-- ===== src/Irq.antt =====
-- The interrupt controllers, kernel/arch/irq.c, and the table of handlers, kernel/arch/idt.c.
--
-- What a port reads is a parameter; the bytes written to ports are a list, in order.
pub mod Mask
pub mod Handlers
mod Tests
use unix_p.Prelude.{
  ℕ, ◌+◌, ◌-◌, ◌^◌, Bool, List, [], ◌∷◌, ◌++◌, Option, none, some, ltb, leb, ◌==◌, if◌then◌else◌,
  u8, bit_and, bit_or,
}
use unix_p.Prelude.Bits.{complement}

abbrev pub pic1_command : ℕ
pic1_command = 0x20

abbrev pub pic2_command : ℕ
pic2_command = 0xA0

abbrev pub pic1_data : ℕ
pic1_data = 0x21

abbrev pub pic2_data : ℕ
pic2_data = 0xA1

abbrev pub pic_eoi : ℕ
pic_eoi = 0x20

unfoldable pub irq_sendeoi : (irq : ℕ) → List (ℕ × ℕ)
irq_sendeoi irq =
    (if leb 8 irq then (pic2_command, pic_eoi) ∷ [] else []) ++ ((pic1_command, pic_eoi) ∷ [])

abbrev pub io_wait : ℕ × ℕ
io_wait = (0x80, 0)

-- 0x11 is ICW1_INIT | ICW1_ICW4, and 1 is ICW4_8086.
unfoldable pub irq_remap : (inb : ℕ → ℕ) (start_int : ℕ) → List (ℕ × ℕ)
irq_remap inb start_int =
    (pic1_command, 0x11)
    ∷ io_wait
    ∷ (pic2_command, 0x11)
    ∷ io_wait
    ∷ (pic1_data, start_int)
    ∷ io_wait
    ∷ (pic2_data, u8 (start_int + 8))
    ∷ io_wait
    ∷ (pic1_data, 4)
    ∷ io_wait
    ∷ (pic2_data, 2)
    ∷ io_wait
    ∷ (pic1_data, 1)
    ∷ io_wait
    ∷ (pic2_data, 1)
    ∷ io_wait
    ∷ (pic1_data, u8 (inb pic1_data))
    ∷ (pic2_data, u8 (inb pic2_data))
    ∷ []

-- The data port of a line, and the line on its controller.
abbrev pub mask_port : ℕ → ℕ
mask_port line = if ltb line 8 then pic1_data else pic2_data

abbrev pub mask_line : ℕ → ℕ
mask_line line = if ltb line 8 then line else line - 8

-- The write that each makes. A shift by 32 or more is undefined in C; the model then writes the mask
-- that was read.
unfoldable pub irq_setmask : (inb : ℕ → ℕ) (line : ℕ) → ℕ × ℕ
irq_setmask inb line =
    (mask_port line, u8 (bit_or (u8 (inb (mask_port line))) (2 ^ mask_line line)))

unfoldable pub irq_clearmask : (inb : ℕ → ℕ) (line : ℕ) → ℕ × ℕ
irq_clearmask inb line =
    (mask_port line, u8 (bit_and (u8 (inb (mask_port line))) (complement 32 (2 ^ mask_line line))))

unfoldable pub irq_clear : List (ℕ × ℕ)
irq_clear = (pic1_data, 0xff) ∷ (pic2_data, 0xff) ∷ []

-- `irq_handlertable`, with `none` for a null pointer.
abbrev pub HandlerTable : Type 0
HandlerTable = ℕ → Option ℕ

-- The table, and the writes to ports.
unfoldable pub idt_setirqhandler :
    (inb : ℕ → ℕ) (line : ℕ) (handler : Option ℕ) (enable : ℕ)
    → HandlerTable
    → HandlerTable × List (ℕ × ℕ)
idt_setirqhandler inb line handler enable table = if ltb 15 line then (table, []) else (
  (λ l. if l == line then handler else table l),
  if enable == 0 then [] else irq_clearmask inb line ∷ [],
)

-- The handler that is called, if any, and the writes to ports behind it.
unfoldable pub handle_irqint : (irq : ℕ) → HandlerTable → Option ℕ × List (ℕ × ℕ)
handle_irqint irq table = (table irq, irq_sendeoi (u8 irq))
