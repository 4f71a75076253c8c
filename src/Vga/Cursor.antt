-- ===== src/Vga/Cursor.antt =====
-- The cursor of the terminal stays on the screen, and printing ends.
use unix_p.Prelude.{
  ℕ, zero, suc, ◌+◌, ◌-◌, ◌*◌, ◌/◌, ◌%◌, ◌≤◌, ◌<◌, ◌≡◌, refl, Option, none, some, true, false,
  arith, leb, ◌==◌, if◌then◌else◌, inl,
}
use native.Mathlib.Decide.{dec_lt}
use unix_p.Prelude.Memory.{Memory, read}
use unix_p.Tools.Copy.{tmemcpyw}
use unix_p.Tools.Copy.Laws.{IsCopied16, tmemcpyw-IsCopied16}
use unix_p.Vga.{
  Tvga, tvga_updatecursor, tvga_updatecursorio, tvga_linefeed, tvga_carriagereturn, tvga_tab,
  tvga_backspace, tvga_scrollscreen, put_visible, put_char, scroll_if_full, scrolled, tvga_putch,
  tvga_write_loop, tvga_write, vga_buffer_address,
}

-- The cursor is one of the 2000 cells of the screen.
abbrev pub OnScreen : Tvga → Type 0
OnScreen t = t.cursor_pos < 2000

-- Where a character leaves the cursor, before the screen scrolls.
abbrev pub advanced : (c cursor : ℕ) → ℕ
advanced c cursor =
    if c == 10
    then (cursor / 80 + 1) * 80
    else if c == 13
    then cursor - cursor % 80
    else if c == 9
    then cursor - cursor % 4 + 4
    else if c == 8
    then cursor - 1
    else cursor + 1

pub cursor-put_char :
    (c : ℕ) (t : Tvga) → OnScreen t → (put_char c t).cursor_pos ≡ advanced c (t.cursor_pos)
unfolding put_char tvga_linefeed tvga_carriagereturn tvga_tab tvga_backspace put_visible
cursor-put_char c t on = ground arith

scroll_copy :
    (m : Memory) (r : Option Memory)
    → tmemcpyw 1921 m vga_buffer_address (vga_buffer_address + 160) 1920 ≡ r
    → IsCopied16 m vga_buffer_address (vga_buffer_address + 160) 0 1920 r
    → (m' : Memory) × (tmemcpyw 1921 m vga_buffer_address (vga_buffer_address + 160) 1920 ≡ some m')
      × IsCopied16 m vga_buffer_address (vga_buffer_address + 160) 0 1920 (some m')
scroll_copy m none eq h = absurd h
scroll_copy m (some m') eq h = (m', eq, h)

-- The scroll copies the lower 24 lines up and returns.
pub scroll_copies :
    (m : Memory)
    → (m' : Memory) × (tmemcpyw 1921 m vga_buffer_address
          (vga_buffer_address + 2 * 80)
          ((25 - 1) * 80)
        ≡ some m')
      × IsCopied16 m vga_buffer_address (vga_buffer_address + 160) 0 1920 (some m')
scroll_copies m =
    scroll_copy m (tmemcpyw 1921 m vga_buffer_address (vga_buffer_address + 160) 1920) refl (
      tmemcpyw-IsCopied16 1921 m vga_buffer_address (vga_buffer_address + 160) 1920 (omega arith)
        (omega arith) (inl (omega arith)))

tvga_scrollscreen-OnScreen :
    (t : Tvga)
    → 2000 ≤ t.cursor_pos
    → t.cursor_pos < 2080
    → (t' : Tvga) × (tvga_scrollscreen t ≡ some t') × OnScreen t'
unfolding tvga_scrollscreen scrolled
tvga_scrollscreen-OnScreen t lo hi =
    let (m', returns, _) = scroll_copies (t.memory) in (scrolled t m', rw returns refl, omega arith)

scroll_if_full-OnScreen :
    (t : Tvga) → t.cursor_pos < 2080 → (t' : Tvga) × (scroll_if_full t ≡ some t') × OnScreen t'
unfolding scroll_if_full
scroll_if_full-OnScreen t hi = elim (dec_lt (t.cursor_pos) 2000) [
  | yes on ↦ let room : leb 2000 (t.cursor_pos) ≡ false = ground arith in (t, rw room refl, on)
  | no full ↦
      let scrolls : leb 2000 (t.cursor_pos) ≡ true = ground arith in
      let (t', returns, on) = tvga_scrollscreen-OnScreen t (omega arith) hi in
      (t', rw scrolls returns, on)
]

pub tvga_putch-OnScreen :
    (c : ℕ) (t : Tvga) → OnScreen t → (t' : Tvga) × (tvga_putch c t ≡ some t') × OnScreen t'
unfolding tvga_putch tvga_updatecursor tvga_updatecursorio
tvga_putch-OnScreen c t on =
    let at = cursor-put_char c t on in
    let below : (put_char c t).cursor_pos < 2080 = ground arith in
    let (t', returns, on') = scroll_if_full-OnScreen (put_char c t) below in
    (tvga_updatecursor (t'.cursor_pos) t', rw returns refl, omega arith)

tvga_write_loop-OnScreen :
    (left i str : ℕ) (t : Tvga)
    → OnScreen t
    → (t' : Tvga) × (tvga_write_loop left i str t ≡ some t') × OnScreen t'
unfolding tvga_write_loop
tvga_write_loop-OnScreen zero i str t on = (t, refl, on)
tvga_write_loop-OnScreen (suc left) i str t on =
    let (t1, first, on1) = tvga_putch-OnScreen (read (t.memory) (str + i)) t on in
    let (t2, rest, on2) = tvga_write_loop-OnScreen left (i + 1) str t1 on1 in
    (t2, rw (first, rest) refl, on2)

-- From a cursor on the screen `tvga_write` ends, for any characters, with the cursor on the screen.
pub tvga_write-OnScreen :
    (str count : ℕ) (t : Tvga)
    → OnScreen t
    → (t' : Tvga) × (tvga_write str count t ≡ some t') × OnScreen t'
unfolding tvga_write
tvga_write-OnScreen str count t on = tvga_write_loop-OnScreen count 0 str t on
