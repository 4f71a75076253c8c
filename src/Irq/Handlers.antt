-- ===== src/Irq/Handlers.antt =====
-- The handler of a line, set and called.
use unix_p.Prelude.{ℕ, ◌<◌, ◌≡◌, refl, Option, false, arith, ltb, ◌==◌, if◌then◌else◌}
use unix_p.Irq.{HandlerTable, idt_setirqhandler, handle_irqint}

-- After `idt_setirqhandler` of one of the sixteen lines `handle_irqint` calls the new handler for that
-- line, and for any other the one that it called before.
pub handle_irqint-idt_setirqhandler :
    (inb : ℕ → ℕ) (line : ℕ) (handler : Option ℕ) (enable : ℕ) (table : HandlerTable) (irq : ℕ)
    → line < 16
    → (handle_irqint irq ((idt_setirqhandler inb line handler enable table).0)).0
      ≡ (if irq == line then handler else (handle_irqint irq table).0)
unfolding handle_irqint idt_setirqhandler
handle_irqint-idt_setirqhandler inb line handler enable table irq below =
    let valid : ltb 15 line ≡ false = ground arith in rw valid refl
