-- ===== src/Boot.antt =====
-- The tags of the boot loader, kernel/sysinit.c.
--
-- The memory that the tags stand in is a parameter: the screen and the variables of the kernel are
-- taken to lie elsewhere. The offsets are those of multiboot2.h. The lines of the log are left out, but
-- for the tables of strings that they read: an index behind such a table is a fault.
pub mod Mmap
pub mod Step
pub mod Tags
pub mod Faults
mod Tests
use unix_p.Prelude.{
  ℕ, zero, suc, ◌+◌, ◌-◌, ◌*◌, ◌/◌, ◌^◌, Bool, not, ◌&&◌, ltb, ◌==◌, if◌then◌else◌, u32, bit_and,
}
use unix_p.Prelude.Memory.{Memory, read, load32}
use unix_p.Pmm.{Outcome, ok, fault, out_of_fuel}
use unix_p.Vga.{Tvga, tvga_init}
use unix_p.Vbe.{VbeInfo, vbe_init, vbe_color_palette_rgb}
use unix_p.Modules.{Modules, module_add_to_list, modules_init}

abbrev pub bind : {A : Type 0} {B : Type 0} → Outcome A → (A → Outcome B) → Outcome B
bind (ok a) f = f a
bind fault f = fault
bind out_of_fuel f = out_of_fuel

-- What the tags set: the list of modules, the framebuffer, the text screen, and `sys_config`.
pub record Boot : Type 0 where
  pub modules : Modules
  pub vbe : VbeInfo
  pub screen : Tvga
  pub disp_drv : ℕ

abbrev pub tag_type : Memory → ℕ → ℕ
tag_type m tag = load32 m tag

abbrev pub tag_size : Memory → ℕ → ℕ
tag_size m tag = load32 m (tag + 4)

abbrev pub framebuffer_type : Memory → ℕ → ℕ
framebuffer_type m tag = read m (tag + 29)

-- The size rounded up to eight bytes, `(tag->size + 7) & ~7`.
unfoldable pub next_tag : Memory → ℕ → ℕ
next_tag m tag = u32 (tag + u32 (tag_size m tag + 7) / 8 * 8)

-- `free_ptr` and `free_sz`.
unfoldable pub mmap_entry : Memory → (mmap : ℕ) → ℕ × ℕ → ℕ × ℕ
mmap_entry m mmap free =
    let addr = load32 m mmap + load32 m (mmap + 4) * 2 ^ 32 in
    if ltb 0 addr && ltb addr (2 ^ 32 - 1) && (load32 m (mmap + 16) == 1)
    then (addr / 2 ^ 32, load32 m (mmap + 8))
    else free

-- The loop over the memory map.
unfoldable pub mmap_loop : (fuel : ℕ) → Memory → (tag mmap : ℕ) → ℕ × ℕ → Outcome (ℕ × ℕ)
mmap_loop zero m tag mmap free = out_of_fuel
mmap_loop (suc fuel) m tag mmap free =
    let rest = mmap_loop fuel m tag (u32 (mmap + load32 m (tag + 8))) (mmap_entry m mmap free) in
    if ltb mmap (u32 (tag + tag_size m tag)) then rest else ok free

-- Both locals start at 0 here, not undefined: nothing reads them.
unfoldable pub mmap_tag : (rounds : ℕ) → Memory → (tag : ℕ) → Boot → Outcome Boot
mmap_tag rounds m tag b = bind (mmap_loop rounds m tag (u32 (tag + 16)) (0, 0)) (λ free. ok b)

abbrev pub with_modules : Modules → Boot → Boot
with_modules list b = record {
  modules = list;
  vbe = b.vbe;
  screen = b.screen;
  disp_drv = b.disp_drv;
}

unfoldable pub module_tag : (tag : ℕ) → Boot → Outcome Boot
module_tag tag b = bind (module_add_to_list tag (b.modules)) (λ list. ok (with_modules list b))

-- The calls of `tvga_init` and `vbe_init` by the framebuffer's type, and `disp_drv`.
abbrev pub with_framebuffer : Memory → (tag : ℕ) → Boot → Boot
with_framebuffer m tag b = record {
  modules = b.modules;
  vbe =
      if framebuffer_type m tag == 1
      then vbe_init (load32 m (tag + 8)) (load32 m (tag + 20)) (load32 m (tag + 24))
          (read m (tag + 28)) vbe_color_palette_rgb
      else b.vbe;
  screen = if framebuffer_type m tag == 2 then tvga_init (b.screen) else b.screen;
  disp_drv = framebuffer_type m tag;
}

unfoldable pub framebuffer_tag : Memory → (tag : ℕ) → Boot → Outcome Boot
framebuffer_tag m tag b =
    if ltb 2 (framebuffer_type m tag) then fault else ok (with_framebuffer m tag b)

-- The switch on the tag's type; the other types are only logged.
unfoldable pub handle_tag : (rounds : ℕ) → Memory → (tag : ℕ) → Boot → Outcome Boot
handle_tag rounds m tag b =
    if tag_type m tag == 3
    then module_tag tag b
    else if tag_type m tag == 6
    then mmap_tag rounds m tag b
    else if tag_type m tag == 8
    then framebuffer_tag m tag b
    else ok b

-- The loop over the tags; `rounds` is the fuel of a memory map.
unfoldable pub tags_loop : (fuel rounds : ℕ) → Memory → (tag : ℕ) → Boot → Outcome Boot
tags_loop zero rounds m tag b = out_of_fuel
tags_loop (suc fuel) rounds m tag b =
    if tag_type m tag == 0
    then ok b
    else if ltb 21 (tag_type m tag)
    then fault
    else bind (handle_tag rounds m tag b) (λ b'. tags_loop fuel rounds m (next_tag m tag) b')

-- The result -1 is that of an `int` of 32 bits.
unfoldable pub sys_init : (fuel rounds : ℕ) → Memory → (magic addr : ℕ) → Boot → Outcome (ℕ × Boot)
sys_init fuel rounds m magic addr b =
    if not (magic == 0x36d76289)
    then ok (2 ^ 32 - 1, b)
    else if not (bit_and addr 7 == 0)
    then ok (2 ^ 32 - 1, b)
    else bind (tags_loop fuel rounds m (u32 (addr + 8)) b) (λ b'. ok (modules_init, b'))
