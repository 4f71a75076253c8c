-- ===== src/Tools/Mirror.antt =====
-- Where the elements of an array go when it is reversed in place by swaps from both ends.
use unix_p.Prelude.{ℕ, suc, ◌+◌, ◌-◌, ◌≤◌, ◌<◌, ◌≡◌, ◌&&◌, arith, leb, ◌==◌, if◌then◌else◌}

-- The index that swaps with `k` when `i` and `j` change places.
abbrev pub swapped : (i j k : ℕ) → ℕ
swapped i j k = if k == j then i else if k == i then j else k

-- The index opposite `k` between `start` and `end`, and `k` itself outside.
unfoldable pub mirror : (start end k : ℕ) → ℕ
mirror start end k = if leb start k && leb k end then start + (end - k) else k

pub mirror_base : (start k : ℕ) → mirror start 0 k ≡ k
unfolding mirror
mirror_base start k = ground arith

pub mirror_done : (start end k : ℕ) → end ≤ start → mirror start end k ≡ k
unfolding mirror
mirror_done start end k h = ground arith

-- A swap of the ends, and then the rest reversed, is the whole reversed.
pub mirror_step :
    (start end k : ℕ)
    → start < suc end
    → swapped start (suc end) (mirror (start + 1) end k) ≡ mirror start (suc end) k
unfolding mirror
mirror_step start end k h = ground arith
