-- ===== src/Tools/Fast.antt =====
-- `tfastcpy` of kernel/tools/t_mem.c.
--
-- The assignment of a `__DT` is a copy of its 32 bytes. `d1` and `s1` start a unit before the areas, and
-- every copy moves them first; the addresses are those of 32 bits.
pub mod Laws
use unix_p.Prelude.{
  ℕ, zero, suc, ◌+◌, ◌/◌, ◌%◌, Option, none, some, ◌>>=◌, ltb, ◌==◌, if◌then◌else◌, u32, sub_u32,
}
use unix_p.Prelude.Memory.{Memory, read, write}
use unix_p.Tools.Copy.{tmemcpy}

-- `d1`, `s1` and the memory behind this many copies.
unfoldable pub copy_units : (units d1 s1 : ℕ) → Memory → ℕ × ℕ × Memory
copy_units zero d1 s1 m = (d1, s1, m)
copy_units (suc units) d1 s1 m =
    copy_units units (u32 (d1 + 32)) (u32 (s1 + 32)) (tmemcpy m (u32 (d1 + 32)) (u32 (s1 + 32)) 32)

-- The loop of copies; `units` of them are left in the round, by the case that the switch enters at.
unfoldable pub units_loop : (fuel units si d1 s1 : ℕ) → Memory → Option (ℕ × ℕ × Memory)
units_loop zero units si d1 s1 m = none
units_loop (suc fuel) units si d1 s1 m =
    let (d2, s2, m') = copy_units units d1 s1 m in
    let rest = units_loop fuel 8 (sub_u32 si 1) d2 s2 m' in
    if sub_u32 si 1 == 0 then some (d2, s2, m') else rest

-- The loop over single bytes.
unfoldable pub bytes_loop : (fuel sa dst src : ℕ) → Memory → Option Memory
bytes_loop zero sa dst src m = none
bytes_loop (suc fuel) sa dst src m =
    let rest =
      bytes_loop fuel sa (u32 (dst + 1)) (u32 (src + 1))
        (write m (u32 (dst + 1)) (read m (u32 (src + 1)))) in
    if ltb src sa then rest else some m

-- `si` behind its second assignment.
abbrev pub rounds_of : (s : ℕ) → ℕ
rounds_of s = (s / 32 + 7) / 8

unfoldable pub tfastcpy : (fuel : ℕ) → Memory → (dst src s : ℕ) → Option Memory
tfastcpy fuel m dst src s = do
  (d1, s1, m') ←
      units_loop fuel (if rounds_of s % 8 == 0 then 8 else rounds_of s % 8) (rounds_of s)
        (sub_u32 dst 32) (sub_u32 src 32) m
  bytes_loop fuel (u32 (src + s)) d1 s1 m'
