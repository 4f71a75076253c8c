-- ===== src/Boot/Tests.antt =====
-- The boot loader's tags at concrete places.
use unix_p.Prelude.{ℕ, ◌≡◌, refl, List, [], ◌∷◌, arith, ◌==◌, if◌then◌else◌}
use unix_p.Prelude.Memory.{Memory, load32, read}
use unix_p.Pmm.{ok}
use unix_p.Vbe.{vbe_color_palette_rgb}
use unix_p.Modules.Table.{Holds}
use unix_p.Boot.{Boot, sys_init, next_tag}
use unix_p.Boot.Tags.{IsTags, modules_of, vbe_of, driver_of, sys_init-IsRead}

-- A module at 0x1008, an RGB framebuffer at 0x1020, the end at 0x1040.
abbrev info : Memory
info a =
    if a == 0x1008
    then 3
    else if a == 0x100C
    then 24
    else if a == 0x1020
    then 8
    else if a == 0x1024
    then 32
    else if a == 0x103D
    then 1
    else 0

abbrev tags : List ℕ
tags = 0x1008 ∷ 0x1020 ∷ []

abbrev before : Boot
before = record {
  modules = record { modules = λ i. 0; modules_count = 0 };
  vbe = record { fb = 0; h = 0; w = 0; bpp = 0; palette = vbe_color_palette_rgb };
  screen = record { memory = λ a. 0; tvga_curattr = 0; cursor_pos = 0; ports = [] };
  disp_drv = 2;
}

tags-IsTags : IsTags 100 info 0x1008 tags
unfolding load32 read next_tag
tags-IsTags = (
  refl,
  (λ h. omega arith, omega arith, λ h. absurd (omega arith), λ h. absurd (omega arith)),
  omega arith,
  (
    refl,
    (λ h. omega arith, omega arith, λ h. absurd (omega arith), λ h. omega arith),
    omega arith,
    refl,
  ),
)

sys_init-IsRead_example :
    (b' : Boot) × (sys_init 5 100 info 0x36d76289 0x1000 before ≡ ok (0, b'))
    × Holds (before.modules) (modules_of info tags) (b'.modules)
    × (b'.vbe ≡ vbe_of info tags (before.vbe))
    × (b'.disp_drv ≡ driver_of info tags 2)
unfolding load32 read
sys_init-IsRead_example =
    sys_init-IsRead tags 5 100 0x1000 info before refl (omega arith) tags-IsTags (omega arith)
      (omega arith)

-- A command line of no bytes at 0x1008.
abbrev empty : Memory
empty a = if a == 0x1008 then 1 else 0
