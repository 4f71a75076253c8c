-- ===== src/Vga.antt =====
-- The text terminal of kernel/drivers/tvga.c: cursor, colour, screen and the cursor's port.
pub mod Screen
pub mod Cursor
mod Tests
use unix_p.Prelude.{
  ℕ, zero, suc, ◌+◌, ◌-◌, ◌*◌, ◌/◌, ◌%◌, ◌^◌, List, [], ◌∷◌, ◌++◌, Option, none, some, ◌>>=◌, ltb,
  leb, ◌==◌, if◌then◌else◌, u8, u16, u32,
}
use unix_p.Prelude.Memory.{Memory, read, store16}
use unix_p.Tools.Fill.{tmemsetw}
use unix_p.Tools.Copy.{tmemcpyw}

abbrev pub vga_width : ℕ
vga_width = 80

abbrev pub vga_height : ℕ
vga_height = 25

abbrev pub vga_buffer_address : ℕ
vga_buffer_address = 0xB8000

abbrev pub default_color : ℕ
default_color = 0x0F

abbrev pub tabspaces : ℕ
tabspaces = 4

-- The globals, the memory with the screen in it, and the bytes written to ports, in order.
pub record Tvga : Type 0 where
  pub memory : Memory
  pub tvga_curattr : ℕ
  pub cursor_pos : ℕ
  pub ports : List (ℕ × ℕ)

pub data VgaCmd : Type 0 where
  vga_cmd_setcursor : ℕ → VgaCmd
  vga_cmd_setcolor : ℕ → VgaCmd
  vga_cmd_clear : VgaCmd
  vga_cmd_other : ℕ → VgaCmd

abbrev pub attr_entry : (uc color : ℕ) → ℕ
attr_entry uc color = u8 uc + u8 color * 2 ^ 8

abbrev pub outb : (port value : ℕ) → Tvga → Tvga
outb port value t = record {
  memory = t.memory;
  tvga_curattr = t.tvga_curattr;
  cursor_pos = t.cursor_pos;
  ports = t.ports ++ ((port, u8 value) ∷ []);
}

abbrev pub with_cursor : Tvga → ℕ → Tvga
with_cursor t cursor = record {
  memory = t.memory;
  tvga_curattr = t.tvga_curattr;
  cursor_pos = cursor;
  ports = t.ports;
}

abbrev pub with_memory : Tvga → Memory → Tvga
with_memory t m = record {
  memory = m;
  tvga_curattr = t.tvga_curattr;
  cursor_pos = t.cursor_pos;
  ports = t.ports;
}

unfoldable pub tvga_updatecursorio : (pos : ℕ) → Tvga → Tvga
tvga_updatecursorio pos t =
    outb 0x3D5 (pos / 2 ^ 8) (outb 0x3D4 0x0E (outb 0x3D5 pos (outb 0x3D4 0x0F t)))

unfoldable pub tvga_updatecursor : (position : ℕ) → Tvga → Tvga
tvga_updatecursor position t = tvga_updatecursorio (u16 position) (with_cursor t (u16 position))

unfoldable pub tvga_setattr : (color : ℕ) → Tvga → Tvga
tvga_setattr color t = record {
  memory = t.memory;
  tvga_curattr = u8 color;
  cursor_pos = t.cursor_pos;
  ports = t.ports;
}

unfoldable pub tvga_clr : Tvga → Tvga
tvga_clr t =
    let m =
      tmemsetw (t.memory) vga_buffer_address (attr_entry 32 (t.tvga_curattr))
        (vga_height * vga_width) in
    with_cursor (with_memory t m) 0

unfoldable pub tvga_reset : Tvga → Tvga
tvga_reset t = tvga_clr (tvga_setattr default_color t)

unfoldable pub tvga_init : Tvga → Tvga
tvga_init t = tvga_reset t

-- The result beside the new state.
unfoldable pub tvga_command : VgaCmd → Tvga → ℕ × Tvga
tvga_command (vga_cmd_setcursor cursor) t =
    if leb (vga_width * vga_height) cursor then (2, t) else (0, tvga_updatecursor cursor t)
tvga_command (vga_cmd_setcolor color) t = (0, tvga_setattr color t)
tvga_command vga_cmd_clear t = (0, tvga_clr t)
tvga_command (vga_cmd_other _) t = (1, t)

unfoldable pub tvga_linefeed : Tvga → Tvga
tvga_linefeed t = with_cursor t (u16 ((t.cursor_pos / vga_width + 1) * vga_width))

unfoldable pub tvga_carriagereturn : Tvga → Tvga
tvga_carriagereturn t = with_cursor t (t.cursor_pos - t.cursor_pos % vga_width)

unfoldable pub tvga_tab : Tvga → Tvga
tvga_tab t = with_cursor t (u16 (t.cursor_pos - t.cursor_pos % tabspaces + tabspaces))

unfoldable pub tvga_backspace : Tvga → Tvga
tvga_backspace t = if ltb 0 (t.cursor_pos) then with_cursor t (t.cursor_pos - 1) else t

-- The screen after the copy: the last line cleared, and the cursor a line up.
unfoldable pub scrolled : Tvga → Memory → Tvga
scrolled t m =
    with_cursor
      (with_memory t (
        tmemsetw m (vga_buffer_address + 2 * ((vga_height - 1) * vga_width))
          (attr_entry 32 (t.tvga_curattr)) vga_width))
      (u16 (t.cursor_pos + 2 ^ 16 - vga_width))

-- `tmemcpyw` takes one round more than the words that it copies.
unfoldable pub tvga_scrollscreen : Tvga → Option Tvga
tvga_scrollscreen t = do
  m ←
      tmemcpyw 1921 (t.memory) vga_buffer_address (vga_buffer_address + 2 * vga_width)
        ((vga_height - 1) * vga_width)
  some (scrolled t m)

unfoldable pub put_visible : (c : ℕ) → Tvga → Tvga
put_visible c t =
    with_cursor
      (with_memory t (
        store16 (t.memory) (vga_buffer_address + 2 * t.cursor_pos) (attr_entry c (t.tvga_curattr))))
      (u16 (t.cursor_pos + 1))

-- The switch of `tvga_putch`.
unfoldable pub put_char : (c : ℕ) → Tvga → Tvga
put_char c t =
    if c == 10
    then tvga_linefeed t
    else if c == 13
    then tvga_carriagereturn t
    else if c == 9
    then tvga_tab t
    else if c == 8
    then tvga_backspace t
    else put_visible c t

unfoldable pub scroll_if_full : Tvga → Option Tvga
scroll_if_full t =
    if leb (vga_width * vga_height) (t.cursor_pos) then tvga_scrollscreen t else some t

unfoldable pub tvga_putch : (c : ℕ) → Tvga → Option Tvga
tvga_putch c t = do t' ← scroll_if_full (put_char c t); some (tvga_updatecursor (t'.cursor_pos) t')

-- `left` is `count - i`, and the characters stand in memory, on the screen perhaps.
unfoldable pub tvga_write_loop : (left i str : ℕ) → Tvga → Option Tvga
tvga_write_loop zero i str t = some t
tvga_write_loop (suc left) i str t = do
  t' ← tvga_putch (read (t.memory) (str + i)) t
  tvga_write_loop left (i + 1) str t'

unfoldable pub tvga_write : (str count : ℕ) → Tvga → Option Tvga
tvga_write str count t = tvga_write_loop count 0 str t
