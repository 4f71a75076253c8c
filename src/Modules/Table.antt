-- ===== src/Modules/Table.antt =====
-- What the list of modules holds after modules are added.
use unix_p.Prelude.{
  ◌∙◌, ℕ, ◌+◌, ◌-◌, ◌≤◌, ◌<◌, ◌≡◌, refl, true, false, arith, leb, ltb, ◌==◌, if◌then◌else◌, u32,
  List, [], ◌∷◌, length,
}
use native.Mathlib.Decide.{dec_le}
use unix_p.Pmm.{Outcome, ok, fault, out_of_fuel}
use unix_p.Modules.{Modules, module_add_to_list, module_get}

-- The modules of a list, added one behind the other.
unfoldable pub add_all : List ℕ → Modules → Outcome Modules
add_all [] list = ok list
add_all (m ∷ ms) list = elim (module_add_to_list m list) [
  | ok list' ↦ add_all ms list'
  | fault ↦ fault
  | out_of_fuel ↦ out_of_fuel
]

-- Entry `i` of a list, and 0 behind its end.
abbrev pub nth : List ℕ → ℕ → ℕ
nth [] i = 0
nth (m ∷ ms) i = if i == 0 then m else nth ms (i - 1)

abbrev pub added : ℕ → Modules → Modules
added m list = record {
  modules = λ i. if i == list.modules_count then m else list.modules i;
  modules_count = list.modules_count + 1;
}

pub module_add_to_list_room :
    (m : ℕ) (list : Modules)
    → list.modules_count < 256
    → module_add_to_list m list ≡ ok (added m list)
unfolding module_add_to_list
module_add_to_list_room m list room =
    let test : leb 256 (list.modules_count) ≡ false = ground arith in
    let count : u32 (list.modules_count + 1) ≡ list.modules_count + 1 = omega arith in
    rw (test, count) refl

module_add_to_list_full :
    (m : ℕ) (list : Modules) → 256 ≤ list.modules_count → module_add_to_list m list ≡ fault
unfolding module_add_to_list
module_add_to_list_full m list full =
    let test : leb 256 (list.modules_count) ≡ true = ground arith in rw test refl

pub add_all-cons :
    (m : ℕ) (ms : List ℕ) (list list' : Modules)
    → module_add_to_list m list ≡ ok list'
    → add_all (m ∷ ms) list ≡ add_all ms list'
unfolding add_all
add_all-cons m ms list list' one = rw (add_all, one) refl

-- The table behind the entries of `list` holds `ms`.
abbrev pub Holds : (list : Modules) (ms : List ℕ) (list' : Modules) → Type 0
Holds list ms list' =
    (idx : ℕ)
    → module_get idx list' ≡ (
        if ltb idx (list.modules_count)
        then list.modules idx
        else nth ms (idx - list.modules_count))

-- While the table has room, the modules added are the next entries of `module_get`, in their order.
pub add_all-Holds :
    (ms : List ℕ) (list : Modules)
    → list.modules_count + length ms ≤ 256
    → (list' : Modules) × (add_all ms list ≡ ok list') × Holds list ms list'
unfolding add_all module_get
add_all-Holds [] list room = (list, refl, λ idx. ground arith)
add_all-Holds (m ∷ ms) list room =
    let one = module_add_to_list_room m list (omega arith) in
    let (list', rest, holds) = add_all-Holds ms (added m list) (omega arith) in
    (
      list',
      add_all-cons m ms list (added m list) one ∙ rest,
      λ idx. let at = holds idx in ground arith,
    )

-- More than 256 modules are written behind the table.
pub add_all-fault :
    (ms : List ℕ) (list : Modules)
    → list.modules_count ≤ 256
    → 256 < list.modules_count + length ms
    → add_all ms list ≡ fault
unfolding add_all
add_all-fault [] list valid over = absurd (omega arith)
add_all-fault (m ∷ ms) list valid over = elim (dec_le 256 (list.modules_count)) [
  | yes full ↦ rw (add_all, module_add_to_list_full m list full) refl
  | no room ↦
      let one = module_add_to_list_room m list (omega arith) in
      let rest = add_all-fault ms (added m list) (omega arith) (omega arith) in
      add_all-cons m ms list (added m list) one ∙ rest
]
