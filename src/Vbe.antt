-- ===== src/Vbe.antt =====
-- The framebuffer of kernel/drivers/vbe.c.
--
-- The order in which C evaluates the two arguments of `__vbe_fill_line`, which are each the next argument
-- of `vbe_sendcmd`, is a parameter. The product of width and height is one of `int`s, taken to fit.
pub mod Pixels
mod Tests
use unix_p.Prelude.{ℕ, ◌+◌, ◌*◌, ◌%◌, ◌^◌, Bool, true, false, if◌then◌else◌, u32}
use unix_p.Prelude.Memory.{Memory, load32, store32}
use unix_p.Tools.Fill.{tmemsetd}

pub data VbeColorPalette : Type 0 where
  vbe_color_palette_monochrome : VbeColorPalette
  vbe_color_palette_16_colors : VbeColorPalette
  vbe_color_palette_rgb : VbeColorPalette

-- `__vbe_info`; `_fb` and `fb` are one address.
pub record VbeInfo : Type 0 where
  pub fb : ℕ
  pub h : ℕ
  pub w : ℕ
  pub bpp : ℕ
  pub palette : VbeColorPalette

-- The function returns no value, and its caller does not use one.
unfoldable pub vbe_init : (fb w h bpp : ℕ) → VbeColorPalette → VbeInfo
vbe_init fb w h bpp p = record { fb = fb; h = h; w = w; bpp = bpp; palette = p }

unfoldable pub vbe_clear : (color : ℕ) → VbeInfo → Memory → Memory
vbe_clear color info m = tmemsetd m (info.fb) color (u32 (info.w * info.h))

unfoldable pub vbe_fill_line : (color ln : ℕ) → VbeInfo → Memory → Memory
vbe_fill_line color ln info m = tmemsetd m (u32 (info.fb + 4 * u32 (ln * info.w))) color (info.w)

pub data VbeCmd : Type 0 where
  vbe_cmd_clear : VbeCmd
  vbe_cmd_fill_line : VbeCmd
  vbe_cmd_get_res : VbeCmd
  vbe_cmd_other : ℕ → VbeCmd

-- The result and the memory. `first` and `second` are the arguments behind the command.
unfoldable pub vbe_sendcmd :
    (from_left : Bool) (cmd : VbeCmd) (first second : ℕ) → VbeInfo → Memory → ℕ × Memory
vbe_sendcmd from_left vbe_cmd_clear first second info m = (0, vbe_clear first info m)
vbe_sendcmd from_left vbe_cmd_fill_line first second info m =
    (0, if from_left then vbe_fill_line first second info m else vbe_fill_line second first info m)
vbe_sendcmd from_left vbe_cmd_get_res first second info m =
    (0, store32 (store32 m first (info.w)) second (info.h))
vbe_sendcmd from_left (vbe_cmd_other _) first second info m = (1, m)

-- No bound is tested.
unfoldable pub vbe_set_px : (pos color : ℕ) → VbeInfo → Memory → Memory
vbe_set_px pos color info m = store32 m (u32 (info.fb + 4 * pos)) color

unfoldable pub vbe_get_px : (pos : ℕ) → VbeInfo → Memory → ℕ
vbe_get_px pos info m = load32 m (u32 (info.fb + 4 * pos))
