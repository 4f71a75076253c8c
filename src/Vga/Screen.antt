-- ===== src/Vga/Screen.antt =====
-- What the screen shows after a scroll, a character and a command.
use unix_p.Prelude.{
  ℕ, ◌+◌, ◌-◌, ◌*◌, ◌^◌, ◌≤◌, ◌<◌, ◌≡◌, refl, ◌∙◌, ◌≢◌, some, true, false, arith, leb, ◌==◌, u8,
  ◌⊎◌, inl,
}
use native.Mathlib.Decide.{dec_lt}
use unix_p.Prelude.Memory.{read, load16, load16-store16_self, read-store16_ne}
use unix_p.Tools.Fill.{tmemsetw_lem}
use unix_p.Vga.Cursor.{OnScreen, scroll_copies}
use unix_p.Vga.{
  Tvga, VgaCmd, vga_cmd_setcursor, vga_cmd_setcolor, vga_cmd_clear, vga_cmd_other,
  tvga_updatecursor, tvga_updatecursorio, tvga_setattr, tvga_clr, tvga_command, tvga_scrollscreen,
  put_visible, put_char, scroll_if_full, tvga_putch, vga_buffer_address, attr_entry, scrolled,
}

-- The lower 24 lines have moved up, the last is blank in the current colour, the cursor is a line up.
abbrev pub IsScrolled : Tvga → Tvga → Type 0
IsScrolled t t' =
    ((a : ℕ)
      → a < 3840
      → read (t'.memory) (vga_buffer_address + a)
        ≡ read (t.memory) (vga_buffer_address + (a + 160)))
    × ((k : ℕ)
        → k < 80
        → (read (t'.memory) (vga_buffer_address + 3840 + 2 * k) ≡ 32)
          × (read (t'.memory) (vga_buffer_address + 3840 + 2 * k + 1) ≡ u8 (t.tvga_curattr)))
    × ((a : ℕ)
        → (a < vga_buffer_address) ⊎ (vga_buffer_address + 4000 ≤ a)
        → read (t'.memory) a ≡ read (t.memory) a)
    × (t'.cursor_pos ≡ t.cursor_pos - 80)

-- With the cursor behind the screen, `tvga_scrollscreen` ends: the lower 24 lines have moved up, the
-- last is blank in the current colour, no byte beside the screen has changed, and the cursor is a
-- line up.
pub tvga_scrollscreen-IsScrolled :
    (t : Tvga)
    → 2000 ≤ t.cursor_pos
    → t.cursor_pos < 2 ^ 16
    → (t' : Tvga) × (tvga_scrollscreen t ≡ some t') × IsScrolled t t'
unfolding tvga_scrollscreen scrolled
tvga_scrollscreen-IsScrolled t lo hi =
    let (m', returns, copied) = scroll_copies (t.memory) in
    let (blank, same) =
      tmemsetw_lem m' (vga_buffer_address + 3840) (attr_entry 32 (t.tvga_curattr)) 80 in
    (
      scrolled t m',
      rw returns refl,
      (
        λ a lo.
            same (vga_buffer_address + a) (inl (omega arith))
            ∙ ground (arith, copied (vga_buffer_address + a)),
        λ k lo. let (char, attr) = blank k lo in (char ∙ ground arith, attr ∙ ground arith),
        λ a out. same a (ground arith) ∙ ground (arith, copied a),
        omega arith,
      ),
    )

-- Neither a line feed, a carriage return, a tabulator nor a backspace.
abbrev pub IsVisible : ℕ → Type 0
IsVisible c = (c ≢ 10) × (c ≢ 13) × (c ≢ 9) × (c ≢ 8)

put_char_visible : (c : ℕ) (t : Tvga) → IsVisible c → put_char c t ≡ put_visible c t
unfolding put_char
put_char_visible c t (a, b, d, e) =
    let a' : (c == 10) ≡ false = ground arith in
    let b' : (c == 13) ≡ false = ground arith in
    let d' : (c == 9) ≡ false = ground arith in
    let e' : (c == 8) ≡ false = ground arith in rw (a', b', d', e') refl

-- A character that is no control character, with the cursor before the last cell, ends up in the
-- cell at the cursor in the current colour; no other byte changes, and the cursor moves on by one.
pub tvga_putch_visible :
    (c : ℕ) (t : Tvga)
    → IsVisible c
    → t.cursor_pos < 1999
    → (t' : Tvga) × (tvga_putch c t ≡ some t')
      × (load16 (t'.memory) (vga_buffer_address + 2 * t.cursor_pos)
          ≡ u8 c + u8 (t.tvga_curattr) * 2 ^ 8)
      × ((a : ℕ)
          → (a < vga_buffer_address + 2 * t.cursor_pos)
            ⊎ (vga_buffer_address + 2 * t.cursor_pos + 2 ≤ a)
          → read (t'.memory) a ≡ read (t.memory) a)
      × (t'.cursor_pos ≡ t.cursor_pos + 1)
unfolding tvga_putch scroll_if_full put_visible tvga_updatecursor tvga_updatecursorio
tvga_putch_visible c t visible room =
    let here : put_char c t ≡ put_visible c t = put_char_visible c t visible in
    let cursor : (put_visible c t).cursor_pos ≡ t.cursor_pos + 1 = omega arith in
    let fits : leb 2000 ((put_visible c t).cursor_pos) ≡ false = ground arith in
    (
      tvga_updatecursor ((put_visible c t).cursor_pos) (put_visible c t),
      rw (here, fits) refl,
      load16-store16_self (t.memory) (vga_buffer_address + 2 * t.cursor_pos)
            (attr_entry c (t.tvga_curattr))
          ∙ omega arith,
      λ a out.
          read-store16_ne (t.memory) (vga_buffer_address + 2 * t.cursor_pos)
            (attr_entry c (t.tvga_curattr)) a out,
      omega arith,
    )

-- `tvga_command` keeps the cursor on the screen, and a command that does not return 0 changes
-- nothing.
pub tvga_command-OnScreen :
    (cmd : VgaCmd) (t : Tvga)
    → OnScreen t
    → OnScreen ((tvga_command cmd t).1) × ((tvga_command cmd t).0 ≢ 0 → (tvga_command cmd t).1 ≡ t)
unfolding tvga_command tvga_updatecursor tvga_updatecursorio tvga_setattr tvga_clr
tvga_command-OnScreen (vga_cmd_setcursor cursor) t on = elim (dec_lt cursor 2000) [
  | yes below ↦
      let valid : leb 2000 cursor ≡ false = ground arith in
      rw valid (omega arith, λ h. absurd (h refl))
  | no beyond ↦ let refused : leb 2000 cursor ≡ true = ground arith in rw refused (on, λ h. refl)
]
tvga_command-OnScreen (vga_cmd_setcolor color) t on = (on, λ h. absurd (h refl))
tvga_command-OnScreen vga_cmd_clear t on = (omega arith, λ h. absurd (h refl))
tvga_command-OnScreen (vga_cmd_other _) t on = (on, λ h. refl)
