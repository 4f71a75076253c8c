-- ===== src/Seg.antt =====
-- The segment descriptors: kernel/arch/seg.c, with `gdt_entry_t` and `gdt_setgate` of
-- include/kernel/x86.h.
pub mod Encoding
mod Tests
use unix_p.Prelude.{ℕ, ◌+◌, ◌*◌, ◌/◌, ◌%◌, ◌^◌, ◌-◌, ◌==◌, if◌then◌else◌, u8, u16}

abbrev pub dpl_krnl : ℕ
dpl_krnl = 0

abbrev pub dpl_user : ℕ
dpl_user = 3

abbrev pub is_cs : ℕ
is_cs = 1

abbrev pub is_ds : ℕ
is_ds = 0

abbrev pub numsegs : ℕ
numsegs = 5

-- The fields that the first view of the union names, which are those of the access byte.
pub record GdtEntry : Type 0 where
  pub limit_low : ℕ
  pub offset_low : ℕ
  pub offset_middle : ℕ
  pub a : ℕ
  pub rw_bit : ℕ
  pub dc : ℕ
  pub e : ℕ
  pub s : ℕ
  pub dpl : ℕ
  pub p : ℕ
  pub limit_high : ℕ
  pub res1 : ℕ
  pub res2 : ℕ
  pub db : ℕ
  pub g : ℕ
  pub offset_high : ℕ

-- An assignment to a field keeps the bits that it has.
unfoldable pub gdt_setgate : (offset limit dpl iscsords iscs : ℕ) → GdtEntry
gdt_setgate offset limit dpl iscsords iscs = record {
  limit_low = limit % 2 ^ 16;
  offset_low = offset % 2 ^ 16;
  offset_middle = offset / 2 ^ 16 % 2 ^ 8;
  a = 0;
  rw_bit = 1;
  dc = 0;
  e = iscs % 2;
  s = if iscsords == 0 then 1 else 0;
  dpl = dpl % 4;
  p = 1;
  limit_high = limit / 2 ^ 16 % 2 ^ 8 % 2 ^ 4;
  res1 = 0;
  res2 = 0;
  db = 1;
  g = 1;
  offset_high = offset / 2 ^ 24 % 2 ^ 8;
}

abbrev pub null_entry : GdtEntry
null_entry = record {
  limit_low = 0;
  offset_low = 0;
  offset_middle = 0;
  a = 0;
  rw_bit = 0;
  dc = 0;
  e = 0;
  s = 0;
  dpl = 0;
  p = 0;
  limit_high = 0;
  res1 = 0;
  res2 = 0;
  db = 0;
  g = 0;
  offset_high = 0;
}

-- The limit of `gdtr` and the table: five descriptors of 8 bytes.
unfoldable pub seg_init : ℕ × (ℕ → GdtEntry)
seg_init = (
  numsegs * 8 - 1,
  λ i.
      if i == 1
      then gdt_setgate 0 0xFFFFF dpl_krnl 0 is_cs
      else if i == 2
      then gdt_setgate 0 0xFFFFF dpl_krnl 0 is_ds
      else if i == 3
      then gdt_setgate 0 0xFFFFF dpl_user 0 is_cs
      else if i == 4
      then gdt_setgate 0 0xFFFFF dpl_user 0 is_ds
      else null_entry,
)
