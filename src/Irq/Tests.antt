-- ===== src/Irq/Tests.antt =====
-- A mask at a concrete input.
use unix_p.Prelude.{ℕ, ◌≡◌, refl}
use unix_p.Irq.{irq_clearmask}

abbrev all_masked : ℕ → ℕ
all_masked port = 0xff

keyboard_unmasked : irq_clearmask all_masked 1 ≡ (0x21, 0xfd)
unfolding irq_clearmask
keyboard_unmasked = refl
