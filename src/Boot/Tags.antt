-- ===== src/Boot/Tags.antt =====
-- The whole list of tags.
use unix_p.Prelude.{
  ◌/◌, ◌*◌, ℕ, zero, suc, ◌+◌, ◌^◌, ◌≤◌, ◌<◌, ◌≡◌, ◌≢◌, refl, subst, sym, ap, ◌∙◌, true, false,
  arith, ltb, ◌==◌, if◌then◌else◌, List, [], ◌∷◌, length, u32, bit_and,
}
use native.Mathlib.Decide.{ℕ_discrete}
use unix_p.Prelude.Memory.{Memory}
use unix_p.Pmm.{Outcome, ok, fault, out_of_fuel}
use unix_p.Vbe.{VbeInfo}
use unix_p.Modules.{Modules, modules_init}
use unix_p.Modules.Table.{
  added, add_all, add_all-cons, module_add_to_list_room, add_all-Holds, Holds,
}
use unix_p.Boot.{tag_size, Boot, tag_type, next_tag, handle_tag, tags_loop, sys_init}
use unix_p.Boot.Step.{IsTag, vbe_after, driver_after, modules_after, handle_tag-IsAfter}

-- The tags from `at` on stand at the addresses of the list, each a multiple of eight bytes behind the
-- one before and below 2 ^ 32, and an end tag behind them.
abbrev pub IsTags : (rounds : ℕ) → Memory → (at : ℕ) → List ℕ → Type 0
IsTags rounds m at [] = tag_type m at ≡ 0
IsTags rounds m at (tag ∷ tags) =
    (at ≡ tag)
    × IsTag rounds m tag
    × (tag + tag_size m tag + 7 < 2 ^ 32)
    × IsTags rounds m (tag + (tag_size m tag + 7) / 8 * 8) tags

next_tag_lem :
    (m : Memory) (tag : ℕ)
    → tag + tag_size m tag + 7 < 2 ^ 32
    → next_tag m tag ≡ tag + (tag_size m tag + 7) / 8 * 8
unfolding next_tag
next_tag_lem m tag fits = omega arith

-- The tags of modules among these, in order.
abbrev pub modules_of : Memory → List ℕ → List ℕ
modules_of m [] = []
modules_of m (tag ∷ tags) =
    if tag_type m tag == 3 then tag ∷ modules_of m tags else modules_of m tags

-- The framebuffer's description, and the display's driver, behind these tags.
abbrev pub vbe_of : Memory → List ℕ → VbeInfo → VbeInfo
vbe_of m [] info = info
vbe_of m (tag ∷ tags) info = vbe_of m tags (vbe_after m tag info)

abbrev pub driver_of : Memory → List ℕ → ℕ → ℕ
driver_of m [] driver = driver
driver_of m (tag ∷ tags) driver = driver_of m tags (driver_after m tag driver)

abbrev pub IsRead : Memory → List ℕ → Boot → Boot → Type 0
IsRead m tags b b' =
    (add_all (modules_of m tags) (b.modules) ≡ ok (b'.modules))
    × (b'.vbe ≡ vbe_of m tags (b.vbe))
    × (b'.disp_drv ≡ driver_of m tags (b.disp_drv))

pub tags_loop-zero :
    (rounds : ℕ) (m : Memory) (tag : ℕ) (b : Boot) → tags_loop zero rounds m tag b ≡ out_of_fuel
unfolding tags_loop
tags_loop-zero rounds m tag b = refl

tags_loop_end :
    (fuel rounds : ℕ) (m : Memory) (tag : ℕ) (b : Boot)
    → tag_type m tag ≡ 0
    → tags_loop (suc fuel) rounds m tag b ≡ ok b
unfolding tags_loop
tags_loop_end fuel rounds m tag b end =
    let test : (tag_type m tag == 0) ≡ true = ground arith in rw test refl

pub tags_loop_step :
    (fuel rounds : ℕ) (m : Memory) (tag : ℕ) (b b' : Boot)
    → tag_type m tag ≢ 0
    → tag_type m tag ≤ 21
    → handle_tag rounds m tag b ≡ ok b'
    → tags_loop (suc fuel) rounds m tag b ≡ tags_loop fuel rounds m (next_tag m tag) b'
unfolding tags_loop
tags_loop_step fuel rounds m tag b b' real known one =
    let t0 : (tag_type m tag == 0) ≡ false = ground arith in
    let t21 : ltb 21 (tag_type m tag) ≡ false = ground arith in rw (t0, t21, one) refl

modules_of_module :
    (m : Memory) (tag : ℕ) (tags : List ℕ)
    → tag_type m tag ≡ 3
    → modules_of m (tag ∷ tags) ≡ tag ∷ modules_of m tags
modules_of_module m tag tags is3 =
    let test : (tag_type m tag == 3) ≡ true = ground arith in rw test refl

modules_of_other :
    (m : Memory) (tag : ℕ) (tags : List ℕ)
    → tag_type m tag ≢ 3
    → modules_of m (tag ∷ tags) ≡ modules_of m tags
modules_of_other m tag tags not3 =
    let test : (tag_type m tag == 3) ≡ false = ground arith in rw test refl

modules_after_module :
    (m : Memory) (tag : ℕ) (list : Modules)
    → tag_type m tag ≡ 3
    → modules_after m tag list ≡ added tag list
modules_after_module m tag list is3 =
    let test : (tag_type m tag == 3) ≡ true = ground arith in rw test refl

modules_after_other :
    (m : Memory) (tag : ℕ) (list : Modules) → tag_type m tag ≢ 3 → modules_after m tag list ≡ list
modules_after_other m tag list not3 =
    let test : (tag_type m tag == 3) ≡ false = ground arith in rw test refl

-- The number of modules behind one tag and these.
room_after :
    (m : Memory) (tag : ℕ) (tags : List ℕ) (list : Modules)
    → (modules_after m tag list).modules_count + length (modules_of m tags)
      ≡ list.modules_count + length (modules_of m (tag ∷ tags))
room_after m tag tags list = elim (ℕ_discrete (tag_type m tag) 3) [
  | yes is3 ↦
      let a = modules_after_module m tag list is3 in
      let l = modules_of_module m tag tags is3 in rw (a, l) (omega arith)
  | no not3 ↦
      let a = modules_after_other m tag list not3 in
      let l = modules_of_other m tag tags not3 in rw (a, l) refl
]

room_first :
    (m : Memory) (tag : ℕ) (tags : List ℕ) (list : Modules)
    → list.modules_count + length (modules_of m (tag ∷ tags)) ≤ 256
    → (tag_type m tag ≡ 3 → list.modules_count < 256)
room_first m tag tags list room is3 =
    let l = ap (λ (ms : List ℕ). length ms) (modules_of_module m tag tags is3) in omega arith

add_all-modules_of :
    (m : Memory) (tag : ℕ) (tags : List ℕ) (list : Modules)
    → (tag_type m tag ≡ 3 → list.modules_count < 256)
    → add_all (modules_of m (tag ∷ tags)) list
      ≡ add_all (modules_of m tags) (modules_after m tag list)
add_all-modules_of m tag tags list room = elim (ℕ_discrete (tag_type m tag) 3) [
  | yes is3 ↦
      let a = modules_after_module m tag list is3 in
      let l = modules_of_module m tag tags is3 in
      rw (a, l)
        (add_all-cons tag (modules_of m tags) list (added tag list)
          (module_add_to_list_room tag list (room is3)))
  | no not3 ↦
      let a = modules_after_other m tag list not3 in
      let l = modules_of_other m tag tags not3 in rw (a, l) refl
]

tags_loop-IsRead :
    (tags : List ℕ) (fuel rounds at : ℕ) (m : Memory) (b : Boot)
    → IsTags rounds m at tags
    → length tags < fuel
    → (b.modules).modules_count + length (modules_of m tags) ≤ 256
    → (b' : Boot) × (tags_loop fuel rounds m at b ≡ ok b') × IsRead m tags b b'
unfolding add_all
tags_loop-IsRead tags zero rounds at m b shape enough room = absurd (omega arith)
tags_loop-IsRead [] (suc fuel) rounds at m b shape enough room =
    (b, tags_loop_end fuel rounds m at b shape, (refl, refl, refl))
tags_loop-IsRead (tag ∷ tags) (suc fuel) rounds at m b (here, valid, fits, others) enough room =
    let first = room_first m tag tags (b.modules) room in
    let (b1, one, (list, info, driver)) = handle_tag-IsAfter rounds m tag b valid first in
    let left = room_after m tag tags (b.modules) in
    let count = ap (λ (l : Modules). l.modules_count) list in
    let (b', rest, (lists, infos, drivers)) =
      tags_loop-IsRead tags fuel rounds (tag + (tag_size m tag + 7) / 8 * 8) m b1 others
        (omega arith) (omega arith) in
    (
      b',
      subst (λ (a : ℕ). tags_loop (suc fuel) rounds m a b ≡ ok b') (sym here)
          (tags_loop_step fuel rounds m tag b b1 (valid.0) (valid.1) one
            ∙ rw (next_tag_lem m tag fits) rest),
      (
        add_all-modules_of m tag tags (b.modules) first
            ∙ subst (λ (l : Modules). add_all (modules_of m tags) l ≡ ok (b'.modules)) list lists,
        infos ∙ ap (λ (i : VbeInfo). vbe_of m tags i) info,
        drivers ∙ ap (λ (d : ℕ). driver_of m tags d) driver,
      ),
    )

abbrev modules_in : Outcome Modules → Modules → Modules
modules_in (ok list) _ = list
modules_in fault list = list
modules_in out_of_fuel list = list

-- From a magic number and an address as multiboot2 gives them, on a list of tags below 2 ^ 32 that
-- each are of a known type, a framebuffer of a type up to 2, and a memory map of 16 bytes or more
-- with an `entry_size` above 0 and room for an entry behind it below 2 ^ 32, with more rounds than
-- tags, for a map more rounds than its bytes, and room for their modules, `sys_init` ends and returns
-- 0; `module_get` then gives the modules that were there and behind them the tags of modules in their
-- order, and the last framebuffer tag has set the display's driver, the last of RGB the framebuffer.
pub sys_init-IsRead :
    (tags : List ℕ) (fuel rounds addr : ℕ) (m : Memory) (b : Boot)
    → bit_and addr 7 ≡ 0
    → addr + 8 < 2 ^ 32
    → IsTags rounds m (addr + 8) tags
    → length tags < fuel
    → (b.modules).modules_count + length (modules_of m tags) ≤ 256
    → (b' : Boot) × (sys_init fuel rounds m 0x36d76289 addr b ≡ ok (0, b'))
      × Holds (b.modules) (modules_of m tags) (b'.modules)
      × (b'.vbe ≡ vbe_of m tags (b.vbe))
      × (b'.disp_drv ≡ driver_of m tags (b.disp_drv))
unfolding sys_init modules_init
sys_init-IsRead tags fuel rounds addr m b aligned low shape enough room =
    let start : u32 (addr + 8) ≡ addr + 8 = omega arith in
    let test : (bit_and addr 7 == 0) ≡ true = ground arith in
    let (b', ends, (lists, info, driver)) =
      tags_loop-IsRead tags fuel rounds (addr + 8) m b shape enough room in
    let (list, added_all, holds) = add_all-Holds (modules_of m tags) (b.modules) room in
    let same : list ≡ b'.modules =
      ap (λ (r : Outcome Modules). modules_in r list) (sym added_all ∙ lists) in
    (
      b',
      rw (test, start, ends) refl,
      subst (λ (l : Modules). Holds (b.modules) (modules_of m tags) l) same holds,
      info,
      driver,
    )
