-- ===== src/Vbe/Pixels.antt =====
-- The pixels of the framebuffer behind a command.
use unix_p.Prelude.{
  ℕ, ◌+◌, ◌*◌, ◌^◌, ◌≤◌, ◌<◌, ◌≡◌, ◌∙◌, ap, true, ◌&&◌, arith, leb, ltb, ◌==◌, if◌then◌else◌, u32,
}
use native.Mathlib.Decide.{ℕ_discrete}
use native.Mathlib.Nat.{mul-le-mul_right, mul_comm}
use unix_p.Prelude.Memory.{Memory, load32, load32-store32_self, load32-store32_ne}
use unix_p.Tools.Fill.{tmemsetd, load32-tmemsetd}
use unix_p.Vbe.{
  VbeInfo, vbe_fill_line, vbe_clear, vbe_sendcmd, vbe_cmd_fill_line, vbe_cmd_clear, vbe_set_px,
  vbe_get_px,
}

-- The framebuffer lies below 2 ^ 32.
abbrev pub Fits : VbeInfo → Type 0
Fits info = info.fb + 4 * (info.w * info.h) < 2 ^ 32

line_end : (ln w h : ℕ) → ln < h → ln * w + w ≤ w * h
line_end ln w h below =
    let step : ln + 1 ≤ h = omega arith in
    let wide = mul-le-mul_right w step in let turn = mul_comm w h in omega arith

-- For a framebuffer below 2 ^ 32, VBE_FILL_LINE with its arguments taken from the left gives the colour
-- to the pixels of the line, and VBE_CLEAR to all pixels; any other pixel keeps its own.
pub vbe_get_px-vbe_sendcmd :
    (color ln pos : ℕ) (info : VbeInfo) (m : Memory)
    → Fits info
    → color < 2 ^ 32
    → ln < info.h
    → pos < info.w * info.h
    → (vbe_get_px pos info ((vbe_sendcmd true vbe_cmd_fill_line color ln info m).1) ≡ (
        if leb (ln * info.w) pos && ltb pos (ln * info.w + info.w)
        then color
        else vbe_get_px pos info m))
      × (vbe_get_px pos info ((vbe_sendcmd true vbe_cmd_clear color ln info m).1) ≡ color)
unfolding vbe_get_px vbe_sendcmd vbe_fill_line vbe_clear
vbe_get_px-vbe_sendcmd color ln pos info m fits c32 below inside =
    let end = line_end ln (info.w) (info.h) below in
    let at : u32 (info.fb + 4 * pos) ≡ info.fb + 4 * pos = omega arith in
    let start : u32 (info.fb + 4 * u32 (ln * info.w)) ≡ info.fb + 4 * (ln * info.w) = omega arith in
    let size : u32 (info.w * info.h) ≡ info.w * info.h = omega arith in
    let first : info.fb ≡ info.fb + 4 * 0 = omega arith in
    let all = load32-tmemsetd m (info.fb) 0 color (info.w * info.h) pos c32 in
    (
      rw (at, start) (load32-tmemsetd m (info.fb) (ln * info.w) color (info.w) pos c32),
      rw (at, size)
          (ap (λ (p : ℕ). load32 (tmemsetd m p color (info.w * info.h)) (info.fb + 4 * pos)) first
            ∙ ground arith),
    )

-- A pixel that is set, in a framebuffer below 2 ^ 32, is the one that is read back, and no other pixel
-- changes.
pub vbe_get_px-vbe_set_px :
    (color at pos : ℕ) (info : VbeInfo) (m : Memory)
    → Fits info
    → color < 2 ^ 32
    → at < info.w * info.h
    → pos < info.w * info.h
    → vbe_get_px pos info (vbe_set_px at color info m)
      ≡ (if pos == at then color else vbe_get_px pos info m)
unfolding vbe_get_px vbe_set_px
vbe_get_px-vbe_set_px color at pos info m fits c32 here there =
    let a : u32 (info.fb + 4 * at) ≡ info.fb + 4 * at = omega arith in
    let p : u32 (info.fb + 4 * pos) ≡ info.fb + 4 * pos = omega arith in
    elim (ℕ_discrete pos at) [
      | yes same ↦
          let one = load32-store32_self m (info.fb + 4 * at) color c32 in
          rw (p, a, same) ground (arith, one, same)
      | no other ↦
          let one =
            load32-store32_ne m (info.fb + 4 * at) color (info.fb + 4 * pos) (ground arith) in
          rw (p, a) ground (arith, one)
    ]
