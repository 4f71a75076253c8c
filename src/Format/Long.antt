-- ===== src/Format/Long.antt =====
-- The directive `%l`, which passes over one character too many.
use unix_p.Prelude.{ℕ, suc, ◌+◌, ◌≡◌, refl}
use unix_p.Prelude.Memory.{read}
use unix_p.Format.{Printer, put_long, doprnt_round, doprnt_loop}

-- At a `%l` that ends the format, the loop goes on behind the terminator, at whatever stands there.
doprnt_loop_overrun :
    (fuel i fmt buffer : ℕ) (p : Printer)
    → read (p.memory) (fmt + i) ≡ 37
    → read (p.memory) (fmt + (i + 1)) ≡ 108
    → read (p.memory) (fmt + (i + 2)) ≡ 0
    → doprnt_loop (suc fuel) i fmt buffer p ≡ doprnt_loop fuel (i + 3) fmt buffer p
unfolding doprnt_loop doprnt_round put_long
doprnt_loop_overrun fuel i fmt buffer p percent long ends = rw (percent, long, ends) refl
