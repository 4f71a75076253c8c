-- ===== src/Vbe/Tests.antt =====
-- A framebuffer of four by three pixels at one megabyte.
use unix_p.Prelude.{◌≡◌, true, arith}
use unix_p.Prelude.Memory.{Memory}
use unix_p.Vbe.{
  VbeInfo, vbe_sendcmd, vbe_cmd_fill_line, vbe_cmd_clear, vbe_color_palette_rgb, vbe_get_px,
}
use unix_p.Vbe.Pixels.{vbe_get_px-vbe_sendcmd}

abbrev small : VbeInfo
small = record { fb = 0x100000; h = 3; w = 4; bpp = 32; palette = vbe_color_palette_rgb }

abbrev blank : Memory
blank a = 0

vbe_get_px-vbe_sendcmd_example :
    (vbe_get_px 5 small ((vbe_sendcmd true vbe_cmd_fill_line 0xFF00FF 1 small blank).1) ≡ 0xFF00FF)
    × (vbe_get_px 5 small ((vbe_sendcmd true vbe_cmd_clear 0xFF00FF 1 small blank).1) ≡ 0xFF00FF)
vbe_get_px-vbe_sendcmd_example =
    vbe_get_px-vbe_sendcmd 0xFF00FF 1 5 small blank (omega arith) (omega arith) (omega arith)
      (omega arith)
