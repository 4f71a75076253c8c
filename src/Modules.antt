-- ===== src/Modules.antt =====
-- The list of boot modules, kernel/modules.c.
--
-- A null pointer is 0. The test of `module_add_to_list` for a full table has an empty body, and is left
-- out; so are the lines of the log.
pub mod Table
use unix_p.Prelude.{ℕ, ◌+◌, leb, ◌==◌, if◌then◌else◌, u32, List, [], ◌∷◌}
use unix_p.Pmm.{Outcome, ok, fault, out_of_fuel}

abbrev pub modules_max_load : ℕ
modules_max_load = 256

-- `__modules` and `__modules_count`.
pub record Modules : Type 0 where
  pub modules : ℕ → ℕ
  pub modules_count : ℕ

-- A write behind the table has no meaning in C: a fault.
unfoldable pub module_add_to_list : ℕ → Modules → Outcome Modules
module_add_to_list m list =
    if leb modules_max_load (list.modules_count)
    then fault
    else ok (record {
      modules = λ i. if i == list.modules_count then m else list.modules i;
      modules_count = u32 (list.modules_count + 1);
    })

unfoldable pub module_get : ℕ → Modules → ℕ
module_get idx list = if leb (list.modules_count) idx then 0 else list.modules idx

-- It looks for nothing yet.
unfoldable pub module_search : ℕ → Modules → ℕ
module_search name list = 0

unfoldable pub modules_init : ℕ
modules_init = 0
