-- ===== src/Tar.antt =====
-- The reader of tar archives, kernel/fs/tar.c: the octal size and the search for a file.
--
-- `tar_init` allocates its result with `kmalloc`; the store through a null pointer is a fault.
pub mod Init
pub mod Size
pub mod Walk
mod Tests
use unix_p.Prelude.{
  ℕ, zero, suc, ◌+◌, ◌-◌, ◌*◌, ◌/◌, ◌%◌, ◌^◌, Bool, true, false, Option, none, some, ltb, ◌==◌,
  if◌then◌else◌, u32,
}
use unix_p.Prelude.Int.{ℤ, pos, negsuc}
use unix_p.Prelude.Memory.{Memory, read, store32}
use unix_p.Pmm.{Outcome, ok, fault, out_of_fuel}
use unix_p.Dmm.{kmalloc}
use unix_p.Tools.Str.{strncmp}

-- `tar_t`: an archive, and also a file in it.
pub record Tar : Type 0 where
  pub ptr : ℕ
  pub size : ℕ

-- The address of the structure that `kmalloc` returned, and the memory with it filled in; a fault if that
-- is NULL.
unfoldable pub tar_init :
    (fuel : ℕ) → Memory → (m_dyn_first_block tar_ptr tar_size : ℕ) → Outcome (ℕ × Memory)
tar_init fuel m m_dyn_first_block tar_ptr tar_size = elim (kmalloc fuel m m_dyn_first_block 8) [
  | ok (tar, m') ↦
      if tar == 0 then fault else ok (tar, store32 (store32 m' tar tar_ptr) (tar + 4) tar_size)
  | fault ↦ fault
  | out_of_fuel ↦ out_of_fuel
]

-- `(in[j - 1] - '0') * count` as a `uint32_t`, for a byte below '0' too; a byte above 127 is a
-- negative `char`.
abbrev pub digit_term : (byte count : ℕ) → ℕ
digit_term byte count =
    u32 ((if ltb byte 128 then byte + 2 ^ 32 - 48 else byte + 2 ^ 32 - 304) * count)

unfoldable pub tar_get_size_loop : (j input size count : ℕ) → Memory → ℕ
tar_get_size_loop zero input size count m = size
tar_get_size_loop (suc j) input size count m =
    tar_get_size_loop j input (u32 (size + digit_term (read m (input + j)) count)) (u32 (count * 8))
      m

unfoldable pub tar_get_size : Memory → (input : ℕ) → ℕ
tar_get_size m input = tar_get_size_loop 11 input 0 1 m

-- The offset of the field `size` in `tar_header_t`.
abbrev pub size_field : ℕ
size_field = 124

abbrev pub no_file : Tar
no_file = record { ptr = 0; size = 0 }

abbrev pub next_offset : (offset size : ℕ) → ℕ
next_offset offset size =
    let past = u32 (offset + (size / 512 + 1) * 512) in
    if size % 512 == 0 then past else u32 (past + 512)

abbrev pub is_zero : ℤ → Bool
is_zero (pos zero) = true
is_zero _ = false

-- `none` means that the fuel ran out.
unfoldable pub tar_get_file_loop : (fuel offset ptr name : ℕ) → Memory → Option Tar
tar_get_file_loop zero offset ptr name m = none
tar_get_file_loop (suc fuel) offset ptr name m =
    let th = ptr + offset in
    let file_size = tar_get_size m (th + size_field) in
    let rest = tar_get_file_loop fuel (next_offset offset file_size) ptr name m in
    if read m th == 0
    then some no_file
    else if is_zero (strncmp m th name 100)
    then some (record { ptr = ptr + offset + 512; size = file_size })
    else rest

unfoldable pub tar_get_file : (fuel : ℕ) → Memory → Tar → (name : ℕ) → Option Tar
tar_get_file fuel m tar name = tar_get_file_loop fuel 512 (tar.ptr) name m
