-- ===== src/Kernel.antt =====
-- The entry of the kernel, kernel/kernel.c: the boot loader's first module is an archive, of which a
-- file is looked for.
--
-- Before `sys_init` come `seg_init` and `idt_init`, which share no state with the rest; the lines of the
-- log are left out, but for the reads through the module's pointer, which fault if it is NULL.
pub mod Initrd
mod Tests
use unix_p.Prelude.{ℕ, ◌+◌, Option, none, some, ◌==◌, if◌then◌else◌, sub_u32}
use unix_p.Prelude.Memory.{Memory, load32}
use unix_p.Pmm.{Outcome, ok, fault, out_of_fuel}
use unix_p.Tar.{Tar, tar_init, tar_get_file}
use unix_p.Modules.{module_get}
use unix_p.Boot.{Boot, bind, sys_init}

-- `tar_get_file` of the structure at `tar`.
unfoldable pub find_in : (fuel : ℕ) → Memory → (name tar : ℕ) → Outcome Tar
find_in fuel m name tar =
    elim (tar_get_file fuel m (record { ptr = load32 m tar; size = load32 m (tar + 4) }) name) [
      | none ↦ out_of_fuel
      | some file ↦ ok file
    ]

-- What the calls of `tar_init` and `tar_get_file` return for a module.
unfoldable pub open_file : (fuel : ℕ) → Memory → (m_dyn_first_block name mdl : ℕ) → Outcome Tar
open_file fuel m m_dyn_first_block name mdl =
    if mdl == 0
    then fault
    else bind
        (tar_init fuel m m_dyn_first_block (load32 m (mdl + 8))
          (sub_u32 (load32 m (mdl + 12)) (load32 m (mdl + 8))))
        (λ (tar, m'). find_in fuel m' name tar)

-- The file that `kmain` logs. It does not use what `sys_init` returns.
unfoldable pub kmain :
    (fuel rounds : ℕ) → Memory → (m_dyn_first_block name magic addr : ℕ) → Boot → Outcome Tar
kmain fuel rounds m m_dyn_first_block name magic addr b =
    bind (sys_init fuel rounds m magic addr b)
      (λ r. open_file fuel m m_dyn_first_block name (module_get 0 ((r.1).modules)))
