-- ===== src/Kernel/Tests.antt =====
-- The entry of the kernel with an archive as the first module.
use unix_p.Prelude.{◌≡◌, refl, [], ◌∷◌, arith, ◌==◌, ◌||◌, ◌&&◌, leb, ltb, if◌then◌else◌}
use unix_p.Prelude.Memory.{Memory, load32, read}
use unix_p.Pmm.{fault}
use unix_p.Vbe.{vbe_color_palette_rgb}
use unix_p.Boot.{Boot}
use unix_p.Boot.Tags.{IsTags}
use unix_p.Kernel.{kmain}
use unix_p.Kernel.Initrd.{kmain-fault}

-- A module at 0x1008 whose archive stands at 0x10000, the end at 0x1020, and the name "a" at 0x2000.
abbrev memory : Memory
memory a =
    if a == 0x1008
    then 3
    else if a == 0x100C
    then 24
    else if a == 0x1012
    then 1
    else if a == 0x1016
    then 2
    else if a == 0x10200 || a == 0x2000
    then 97
    else if leb 0x1027C a && ltb a 0x10287
    then 48
    else 0

abbrev before : Boot
before = record {
  modules = record { modules = λ i. 0; modules_count = 0 };
  vbe = record { fb = 0; h = 0; w = 0; bpp = 0; palette = vbe_color_palette_rgb };
  screen = record { memory = λ a. 0; tvga_curattr = 0; cursor_pos = 0; ports = [] };
  disp_drv = 2;
}

memory-IsTags : IsTags 100 memory 0x1008 (0x1008 ∷ [])
unfolding load32 read
memory-IsTags = (
  refl,
  (λ h. omega arith, omega arith, λ h. absurd (omega arith), λ h. absurd (omega arith)),
  omega arith,
  refl,
)

kmain-fault_example : kmain 5 100 memory 0 0x2000 0x36d76289 0x1000 before ≡ fault
unfolding load32 read
kmain-fault_example =
    kmain-fault (0x1008 ∷ []) 4 100 0x2000 0x1000 memory before refl (omega arith) memory-IsTags
      (omega arith) (omega arith)
