-- ===== src/Seg/Encoding.antt =====
-- What the processor reads from a descriptor is what `gdt_setgate` was given.
use unix_p.Prelude.{ℕ, ◌+◌, ◌*◌, ◌/◌, ◌%◌, ◌^◌, ◌<◌, ◌≡◌, arith}
use unix_p.Seg.{GdtEntry, gdt_setgate}

-- The eight bytes of a descriptor as a number, the fields in the order of the structure.
abbrev pub encoded : GdtEntry → ℕ
encoded d =
    d.limit_low
    + d.offset_low * 2 ^ 16
    + d.offset_middle * 2 ^ 32
    + (d.a + d.rw_bit * 2 + d.dc * 2 ^ 2 + d.e * 2 ^ 3 + d.s * 2 ^ 4 + d.dpl * 2 ^ 5 + d.p * 2 ^ 7)
      * 2 ^ 40
    + (d.limit_high + d.res1 * 2 ^ 4 + d.res2 * 2 ^ 5 + d.db * 2 ^ 6 + d.g * 2 ^ 7) * 2 ^ 48
    + d.offset_high * 2 ^ 56

-- The processor's view of the eight bytes: base, limit, access byte and flags, by their bits.
abbrev pub base_of : ℕ → ℕ
base_of w = w / 2 ^ 16 % 2 ^ 24 + w / 2 ^ 56 % 2 ^ 8 * 2 ^ 24

abbrev pub limit_of : ℕ → ℕ
limit_of w = w % 2 ^ 16 + w / 2 ^ 48 % 2 ^ 4 * 2 ^ 16

abbrev pub access_of : ℕ → ℕ
access_of w = w / 2 ^ 40 % 2 ^ 8

abbrev pub flags_of : ℕ → ℕ
flags_of w = w / 2 ^ 52 % 2 ^ 4

-- From the eight bytes of a descriptor that `gdt_setgate` makes, the processor reads the base, the
-- limit, for a limit below 2 ^ 20, a present segment of code or data (`iscsords` 0) of the privilege
-- level, below 4, that is readable or writable, and 32-bit with a limit in pages.
pub gdt_setgate_lem :
    (offset limit dpl iscs : ℕ)
    → offset < 2 ^ 32
    → limit < 2 ^ 20
    → dpl < 4
    → iscs < 2
    → let w = encoded (gdt_setgate offset limit dpl 0 iscs) in
      (base_of w ≡ offset)
      × (limit_of w ≡ limit)
      × (access_of w ≡ 0x80 + dpl * 0x20 + 0x10 + iscs * 8 + 2)
      × (flags_of w ≡ 0xC)
unfolding gdt_setgate
gdt_setgate_lem offset limit dpl iscs small1 small2 small3 small4 =
    (omega arith, omega arith, omega arith, omega arith)
