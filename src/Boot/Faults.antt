-- ===== src/Boot/Faults.antt =====
-- A list of tags that the loop does not get past.
use unix_p.Prelude.{ℕ, ◌≤◌, ◌≡◌, ◌≢◌}
use unix_p.Prelude.Memory.{Memory}
use unix_p.Boot.{Boot, tag_type, tag_size}

-- A tag that is only logged, and takes up no bytes.
abbrev pub IsEmptyTag : Memory → ℕ → Type 0
IsEmptyTag m tag =
    (tag_type m tag ≢ 0)
    × (tag_type m tag ≢ 3)
    × (tag_type m tag ≢ 6)
    × (tag_type m tag ≢ 8)
    × (tag_type m tag ≤ 21)
    × (tag_size m tag ≡ 0)
