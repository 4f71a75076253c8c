-- ===== src/Seg/Tests.antt =====
-- The descriptors of the kernel.
use unix_p.Prelude.{◌+◌, ◌*◌, ◌≡◌, refl, arith}
use unix_p.Seg.{gdt_setgate, seg_init}
use unix_p.Seg.Encoding.{encoded, base_of, limit_of, access_of, flags_of, gdt_setgate_lem}

kernel_code : encoded (seg_init.1 1) ≡ 0x00CF9A000000FFFF
unfolding seg_init gdt_setgate
kernel_code = refl

user_data : encoded (seg_init.1 4) ≡ 0x00CFF2000000FFFF
unfolding seg_init gdt_setgate
user_data = refl

gdt_setgate_lem_example :
    let w = encoded (gdt_setgate 0 0xFFFFF 3 0 1) in
    (base_of w ≡ 0)
    × (limit_of w ≡ 0xFFFFF)
    × (access_of w ≡ 0x80 + 3 * 0x20 + 0x10 + 1 * 8 + 2)
    × (flags_of w ≡ 0xC)
gdt_setgate_lem_example =
    gdt_setgate_lem 0 0xFFFFF 3 1 (omega arith) (omega arith) (omega arith) (omega arith)
