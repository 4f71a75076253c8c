-- ===== src/Boot/Step.antt =====
-- One tag that the loop can handle.
use unix_p.Prelude.{
  ℕ, ◌+◌, ◌≤◌, ◌<◌, ◌≡◌, ◌≢◌, refl, true, false, ◌&&◌, arith, ltb, ◌==◌, if◌then◌else◌,
}
use native.Mathlib.Decide.{ℕ_discrete}
use unix_p.Prelude.Memory.{Memory, read, load32}
use unix_p.Pmm.{ok}
use unix_p.Vbe.{VbeInfo, vbe_init, vbe_color_palette_rgb}
use unix_p.Modules.{Modules}
use unix_p.Modules.Table.{added, module_add_to_list_room}
use unix_p.Boot.{
  Boot, with_modules, with_framebuffer, tag_type, tag_size, framebuffer_type, module_tag,
  framebuffer_tag, handle_tag,
}
use unix_p.Boot.Mmap.{IsMmap, mmap_tag_lem}

-- A tag of a known type: a framebuffer of a known type, or a memory map that ends in fewer than
-- `rounds` bytes.
abbrev pub IsTag : (rounds : ℕ) → Memory → ℕ → Type 0
IsTag rounds m tag =
    (tag_type m tag ≢ 0)
    × (tag_type m tag ≤ 21)
    × (tag_type m tag ≡ 6 → IsMmap m tag × (tag_size m tag < rounds))
    × (tag_type m tag ≡ 8 → framebuffer_type m tag ≤ 2)

-- What a tag makes of the framebuffer's description and of the display's driver.
abbrev pub vbe_after : Memory → ℕ → VbeInfo → VbeInfo
vbe_after m tag info =
    if (tag_type m tag == 8) && (framebuffer_type m tag == 1)
    then record {
      fb = load32 m (tag + 8);
      h = load32 m (tag + 24);
      w = load32 m (tag + 20);
      bpp = read m (tag + 28);
      palette = vbe_color_palette_rgb;
    }
    else info

abbrev pub driver_after : Memory → ℕ → ℕ → ℕ
driver_after m tag driver = if tag_type m tag == 8 then framebuffer_type m tag else driver

abbrev pub modules_after : Memory → ℕ → Modules → Modules
modules_after m tag list = if tag_type m tag == 3 then added tag list else list

-- `b'` is `b` behind the tag.
abbrev pub IsAfter : Memory → ℕ → Boot → Boot → Type 0
IsAfter m tag b b' =
    (b'.modules ≡ modules_after m tag (b.modules))
    × (b'.vbe ≡ vbe_after m tag (b.vbe))
    × (b'.disp_drv ≡ driver_after m tag (b.disp_drv))

type_is : (n k : ℕ) → n ≡ k → (n == k) ≡ true
type_is n k same = ground arith

type_is_not : (n k : ℕ) → n ≢ k → (n == k) ≡ false
type_is_not n k other = ground arith

module_tag-ok :
    (tag : ℕ) (b : Boot)
    → (b.modules).modules_count < 256
    → module_tag tag b ≡ ok (with_modules (added tag (b.modules)) b)
unfolding module_tag
module_tag-ok tag b room = rw (module_add_to_list_room tag (b.modules) room) refl

framebuffer_tag-ok :
    (m : Memory) (tag : ℕ) (b : Boot)
    → framebuffer_type m tag ≤ 2
    → framebuffer_tag m tag b ≡ ok (with_framebuffer m tag b)
unfolding framebuffer_tag
framebuffer_tag-ok m tag b known =
    let test : ltb 2 (framebuffer_type m tag) ≡ false = ground arith in rw test refl

-- The loop's step on such a tag, if a module finds room in the list.
pub handle_tag-IsAfter :
    (rounds : ℕ) (m : Memory) (tag : ℕ) (b : Boot)
    → IsTag rounds m tag
    → (tag_type m tag ≡ 3 → (b.modules).modules_count < 256)
    → (b' : Boot) × (handle_tag rounds m tag b ≡ ok b') × IsAfter m tag b b'
unfolding handle_tag vbe_init
handle_tag-IsAfter rounds m tag b (real, known, map, frame) room =
    elim (ℕ_discrete (tag_type m tag) 3) [
      | yes is3 ↦
          let t3 = type_is (tag_type m tag) 3 is3 in
          let t8 = type_is_not (tag_type m tag) 8 (omega arith) in
          (
            with_modules (added tag (b.modules)) b,
            rw t3 (module_tag-ok tag b (room is3)),
            (rw t3 refl, rw t8 refl, rw t8 refl),
          )
      | no not3 ↦
          let t3 = type_is_not (tag_type m tag) 3 not3 in
          elim (ℕ_discrete (tag_type m tag) 6) [
            | yes is6 ↦
                let t6 = type_is (tag_type m tag) 6 is6 in
                let t8 = type_is_not (tag_type m tag) 8 (omega arith) in
                let (mmap, enough) = map is6 in
                (
                  b,
                  rw (t3, t6) (mmap_tag_lem rounds m tag b mmap enough),
                  (rw t3 refl, rw t8 refl, rw t8 refl),
                )
            | no not6 ↦
                let t6 = type_is_not (tag_type m tag) 6 not6 in
                elim (ℕ_discrete (tag_type m tag) 8) [
                  | yes is8 ↦
                      let t8 = type_is (tag_type m tag) 8 is8 in
                      (
                        with_framebuffer m tag b,
                        rw (t3, t6, t8) (framebuffer_tag-ok m tag b (frame is8)),
                        (rw t3 refl, rw t8 refl, rw t8 refl),
                      )
                  | no not8 ↦
                      let t8 = type_is_not (tag_type m tag) 8 not8 in
                      (b, rw (t3, t6, t8) refl, (rw t3 refl, rw t8 refl, rw t8 refl))
                ]
          ]
    ]
