-- ===== src/Tar/Walk.antt =====
-- The search for a file, on an archive given as the list of its headers.
use unix_p.Prelude.{
  ℕ, zero, suc, ◌+◌, ◌*◌, ◌/◌, ◌^◌, ◌<◌, ◌≡◌, refl, ◌≢◌, List, [], ◌∷◌, length, some, false,
  Bool-cases, arith, ◌==◌, if◌then◌else◌, inl, inr,
}
use unix_p.Prelude.Memory.{Memory, read}
use unix_p.Tools.Str.{strncmp}
use unix_p.Tar.{
  Tar, tar_get_size, size_field, no_file, next_offset, is_zero, tar_get_file_loop, tar_get_file,
}

-- From offset `at` on the archive has these headers, at these offsets and with these sizes, each
-- followed by its data in whole blocks, and a zero byte behind them.
abbrev pub IsArchive : Memory → (ptr at : ℕ) → List (ℕ × ℕ) → Type 0
IsArchive m ptr at [] = read m (ptr + at) ≡ 0
IsArchive m ptr at ((offset, size) ∷ entries) =
    (offset ≡ at)
    × (read m (ptr + at) ≢ 0)
    × (tar_get_size m (ptr + at + size_field) ≡ size)
    × (at + 512 + (size + 511) / 512 * 512 < 2 ^ 32)
    × IsArchive m ptr (at + 512 + (size + 511) / 512 * 512) entries

-- The first file whose name agrees with `name` as far as `strncmp` looks.
abbrev pub first_file : Memory → (ptr name : ℕ) → List (ℕ × ℕ) → Tar
first_file m ptr name [] = no_file
first_file m ptr name ((offset, size) ∷ entries) =
    if is_zero (strncmp m (ptr + offset) name 100)
    then record { ptr = ptr + offset + 512; size = size }
    else first_file m ptr name entries

-- The header and the data's blocks.
next_offset_lem :
    (at size : ℕ)
    → at + 512 + (size + 511) / 512 * 512 < 2 ^ 32
    → next_offset at size ≡ at + 512 + (size + 511) / 512 * 512
next_offset_lem at size fits = ground arith

tar_get_file_loop-first_file :
    (entries : List (ℕ × ℕ)) (fuel at ptr name : ℕ) (m : Memory)
    → IsArchive m ptr at entries
    → length entries < fuel
    → tar_get_file_loop fuel at ptr name m ≡ some (first_file m ptr name entries)
unfolding tar_get_file_loop
tar_get_file_loop-first_file [] zero at ptr name m archive enough = absurd (omega arith)
tar_get_file_loop-first_file (_ ∷ _) zero at ptr name m archive enough = absurd (omega arith)
tar_get_file_loop-first_file [] (suc fuel) at ptr name m archive enough = rw archive refl
tar_get_file_loop-first_file ((offset, size) ∷ entries) (suc fuel) at ptr name m
      (here, used, sized, fits, rest) enough =
    let goes_on : (read m (ptr + at) == 0) ≡ false = ground arith in
    let next = next_offset_lem at size fits in
    elim (Bool-cases (is_zero (strncmp m (ptr + at) name 100))) [
      | inl found ↦ rw (goes_on, sized, here, found) refl
      | inr other ↦
          rw (goes_on, sized, here, other, next)
            (tar_get_file_loop-first_file entries fuel (at + 512 + (size + 511) / 512 * 512) ptr
              name m rest (omega arith))
    ]

-- On an archive whose headers from offset 512 on are `entries`, `tar_get_file` ends on more rounds
-- than headers, and returns the data and the size of the first file with the name, or no file.
pub tar_get_file-first_file :
    (entries : List (ℕ × ℕ)) (fuel : ℕ) (m : Memory) (tar : Tar) (name : ℕ)
    → IsArchive m (tar.ptr) 512 entries
    → length entries < fuel
    → tar_get_file fuel m tar name ≡ some (first_file m (tar.ptr) name entries)
unfolding tar_get_file
tar_get_file-first_file entries fuel m tar name archive enough =
    tar_get_file_loop-first_file entries fuel 512 (tar.ptr) name m archive enough
