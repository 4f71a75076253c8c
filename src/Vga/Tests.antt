-- ===== src/Vga/Tests.antt =====
-- The terminal at concrete inputs.
use unix_p.Prelude.{ℕ, ◌≡◌, ◌≢◌, [], some, arith, if◌then◌else◌, ◌==◌}
use unix_p.Vga.{Tvga, vga_cmd_setcursor, tvga_command, tvga_scrollscreen, tvga_write}
use unix_p.Vga.Cursor.{OnScreen, tvga_write-OnScreen}
use unix_p.Vga.Screen.{IsScrolled, tvga_scrollscreen-IsScrolled, tvga_command-OnScreen}

-- A screen with the cursor at this cell, and "A", a line feed and "B" at 100.
abbrev terminal : ℕ → Tvga
terminal cursor = record {
  memory = λ a. if a == 100 then 65 else if a == 101 then 10 else if a == 102 then 66 else 0;
  tvga_curattr = 0x0F;
  cursor_pos = cursor;
  ports = [];
}

tvga_write-OnScreen_example :
    (t' : Tvga) × (tvga_write 100 3 (terminal 1999) ≡ some t') × OnScreen t'
tvga_write-OnScreen_example = tvga_write-OnScreen 100 3 (terminal 1999) (omega arith)

tvga_scrollscreen-IsScrolled_example :
    (t' : Tvga) × (tvga_scrollscreen (terminal 2000) ≡ some t') × IsScrolled (terminal 2000) t'
tvga_scrollscreen-IsScrolled_example =
    tvga_scrollscreen-IsScrolled (terminal 2000) (omega arith) (omega arith)

tvga_command-OnScreen_example :
    OnScreen ((tvga_command (vga_cmd_setcursor 2000) (terminal 5)).1)
    × ((tvga_command (vga_cmd_setcursor 2000) (terminal 5)).0 ≢ 0
        → (tvga_command (vga_cmd_setcursor 2000) (terminal 5)).1 ≡ terminal 5)
tvga_command-OnScreen_example =
    tvga_command-OnScreen (vga_cmd_setcursor 2000) (terminal 5) (omega arith)
