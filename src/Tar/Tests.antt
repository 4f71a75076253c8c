-- ===== src/Tar/Tests.antt =====
-- The archive reader at concrete inputs.
use unix_p.Prelude.{
  List, true, ◌⊎◌, ◌≡◌, refl, [], ◌∷◌, some, arith, ltb, leb, ◌==◌, ◌&&◌, ◌||◌, if◌then◌else◌, u32,
}
use unix_p.Prelude.Memory.{Memory, read, load32}
use unix_p.Pmm.{ok, fault}
use unix_p.Dmm.Layout.{Block, link, IsLayout, alloc}
use unix_p.Tar.Init.{IsStored, tar_init-IsStored}
use unix_p.Tools.Str.{strncmp, strncmp_loop}
use unix_p.Tar.{Tar, tar_init, tar_get_size_loop, tar_get_size, tar_get_file_loop, tar_get_file}
use unix_p.Tar.Size.{octal, tar_get_size-octal}
use unix_p.Tar.Walk.{first_file, tar_get_file-first_file}

-- An archive at 10000: an empty file "a" at offset 512, and the file "b" of 3 bytes at 1024. The
-- names "b" and "c" are at 500 and 600.
abbrev disk : Memory
disk a =
    if a == 500 || a == 11024
    then 98
    else if a == 600
    then 99
    else if a == 10512
    then 97
    else if leb 10636 a && ltb a 10647
    then 48
    else if a == 11158
    then 51
    else if leb 11148 a && ltb a 11158
    then 48
    else 0

abbrev archive : Tar
archive = record { ptr = 10000; size = 4096 }

tar_get_size-octal_example : tar_get_size disk 11148 ≡ u32 (octal disk 11148 11)
unfolding read
tar_get_size-octal_example = tar_get_size-octal disk 11148 (λ k below. ground arith)

finds_b : tar_get_file 5 disk archive 500 ≡ some (record { ptr = 11536; size = 3 })
unfolding tar_get_file tar_get_file_loop tar_get_size tar_get_size_loop strncmp strncmp_loop read
finds_b = refl

tar_get_file-first_file_example :
    tar_get_file 5 disk archive 500 ≡ some (first_file disk 10000 500 ((512, 0) ∷ (1024, 3) ∷ []))
unfolding tar_get_size tar_get_size_loop read
tar_get_file-first_file_example =
    tar_get_file-first_file ((512, 0) ∷ (1024, 3) ∷ []) 5 disk archive 500
      (refl, (omega arith), refl, (omega arith), (refl, (omega arith), refl, (omega arith), refl))
      (omega arith)

-- A free block of 100 words at 1000, and no other.
abbrev heap : Memory
heap a = if a == 1008 then 1 else if a == 1012 then 100 else 0

abbrev heap_blocks : List Block
heap_blocks = record { is_free = true; size = 100 } ∷ []

heap-IsLayout : IsLayout heap 1416 1000 heap_blocks
unfolding load32 read
heap-IsLayout = ((refl, refl, refl), refl)

tar_init-IsStored_example :
    let (tar, bs') = alloc 1000 8 heap_blocks in
    ((tar ≡ 0) × (tar_init 2 heap (link 1416 1000) 10000 4096 ≡ fault))
    ⊎ ((m' : Memory) × (tar_init 2 heap (link 1416 1000) 10000 4096 ≡ ok (tar, m'))
        × IsStored heap 1416 1000 tar 10000 4096 heap_blocks bs' m')
tar_init-IsStored_example =
    tar_init-IsStored 2 heap 1416 1000 10000 4096 heap_blocks heap-IsLayout (omega arith)
      (omega arith) (omega arith) (omega arith) (omega arith)
