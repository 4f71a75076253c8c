-- ===== src/Kernel/Initrd.antt =====
-- Where `kmain` ends as long as `mm_init` is not called.
use unix_p.Prelude.{
  ℕ, suc, ◌+◌, ◌^◌, ◌≤◌, ◌<◌, ◌≡◌, refl, ◌∙◌, true, false, arith, ◌==◌, List, length, bit_and,
  sub_u32,
}
use native.Mathlib.Decide.{ℕ_discrete}
use unix_p.Prelude.Memory.{Memory, load32}
use unix_p.Pmm.{ok, fault}
use unix_p.Tar.{tar_init}
use unix_p.Modules.{module_get}
use unix_p.Dmm.{kmalloc, kaligned_alloc, alloc_loop}
use unix_p.Boot.{Boot, sys_init}
use unix_p.Boot.Tags.{IsTags, modules_of, sys_init-IsRead}
use unix_p.Kernel.{open_file, kmain}

kmain-open_file :
    (fuel rounds r m_dyn_first_block name magic addr : ℕ) (m : Memory) (b b' : Boot)
    → sys_init fuel rounds m magic addr b ≡ ok (r, b')
    → kmain fuel rounds m m_dyn_first_block name magic addr b
      ≡ open_file fuel m m_dyn_first_block name (module_get 0 (b'.modules))
unfolding kmain
kmain-open_file fuel rounds r m_dyn_first_block name magic addr m b b' ends = rw ends refl

-- With no first block `kmalloc` returns NULL.
tar_init-fault :
    (fuel tar_ptr tar_size : ℕ) (m : Memory) → tar_init (suc fuel) m 0 tar_ptr tar_size ≡ fault
unfolding tar_init kmalloc kaligned_alloc alloc_loop
tar_init-fault fuel tar_ptr tar_size m = refl

open_file-fault : (fuel name mdl : ℕ) (m : Memory) → open_file (suc fuel) m 0 name mdl ≡ fault
unfolding open_file
open_file-fault fuel name mdl m = elim (ℕ_discrete mdl 0) [
  | yes null ↦ let test : (mdl == 0) ≡ true = ground arith in rw test refl
  | no real ↦
      let test : (mdl == 0) ≡ false = ground arith in
      let faults =
        tar_init-fault fuel (load32 m (mdl + 8))
          (sub_u32 (load32 m (mdl + 12)) (load32 m (mdl + 8))) m in
      rw (test, faults) refl
]

-- With no first block, as long as `mm_init` is not called, `kmalloc` returns NULL: from a magic
-- number and an address as multiboot2 gives them, on tags as `sys_init` reads them, with room for
-- their modules, on more rounds than tags, `kmain` ends in an access through NULL, whatever the
-- modules are.
pub kmain-fault :
    (tags : List ℕ) (fuel rounds name addr : ℕ) (m : Memory) (b : Boot)
    → bit_and addr 7 ≡ 0
    → addr + 8 < 2 ^ 32
    → IsTags rounds m (addr + 8) tags
    → length tags < suc fuel
    → (b.modules).modules_count + length (modules_of m tags) ≤ 256
    → kmain (suc fuel) rounds m 0 name 0x36d76289 addr b ≡ fault
kmain-fault tags fuel rounds name addr m b aligned low shape enough few =
    let (b', ends, _, _, _) =
      sys_init-IsRead tags (suc fuel) rounds addr m b aligned low shape enough few in
    kmain-open_file (suc fuel) rounds 0 0 name 0x36d76289 addr m b b' ends
    ∙ open_file-fault fuel name (module_get 0 (b'.modules)) m
