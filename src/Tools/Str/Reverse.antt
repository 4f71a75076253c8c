-- ===== src/Tools/Str/Reverse.antt =====
-- What `reverse_str` does to a string.
use unix_p.Prelude.{
  ℕ, zero, suc, ◌+◌, ◌-◌, ◌^◌, ◌≤◌, ◌<◌, ◌≡◌, refl, ap, ◌∙◌, some, true, false, arith, ltb,
}
use native.Mathlib.Decide.{dec_lt}
use unix_p.Prelude.Memory.{Memory, read, read-lt, write, read-write}
use unix_p.Tools.Mirror.{swapped, mirror, mirror_base, mirror_done, mirror_step}
use unix_p.Tools.Str.Scan.{IsCString, strlen_lem}
use unix_p.Tools.Str.{strlen, strlen_loop, swap8, reverse_loop, reverse_str}

read-swap8 :
    (m : Memory) (str i j k : ℕ)
    → read (swap8 m (str + i) (str + j)) (str + k) ≡ read m (str + swapped i j k)
read-swap8 m str i j k =
    let m1 = write m (str + i) (read m (str + j)) in
    ground (
      arith,
      read-write m1 (str + j) (read m (str + i)) (str + k),
      read-write m (str + i) (read m (str + j)) (str + k),
      read-lt m (str + i),
      read-lt m (str + j),
    )

read-swap8_below :
    (m : Memory) (str i j a : ℕ) → a < str → read (swap8 m (str + i) (str + j)) a ≡ read m a
read-swap8_below m str i j a below =
    let m1 = write m (str + i) (read m (str + j)) in
    ground (
      arith,
      read-write m1 (str + j) (read m (str + i)) a,
      read-write m (str + i) (read m (str + j)) a,
    )

reverse_loop-mirror :
    (end start str k : ℕ) (m : Memory)
    → read (reverse_loop str start end m) (str + k) ≡ read m (str + mirror start end k)
unfolding reverse_loop
reverse_loop-mirror zero start str k m = rw mirror_base
reverse_loop-mirror (suc end) start str k m =
    let m1 = swap8 m (str + start) (str + suc end) in
    elim (dec_lt start (suc end)) [
      | yes more ↦
          let goes_on : ltb start (suc end) ≡ true = ground arith in
          rw goes_on (
            reverse_loop-mirror end (start + 1) str k m1
            ∙ read-swap8 m str start (suc end) (mirror (start + 1) end k)
            ∙ ap (λ (t : ℕ). read m (str + t)) (mirror_step start end k more))
      | no done ↦
          let ends : ltb start (suc end) ≡ false = ground arith in
          rw (ends, mirror_done start (suc end) k (omega arith))
    ]

reverse_loop-below :
    (end start str a : ℕ) (m : Memory) → a < str → read (reverse_loop str start end m) a ≡ read m a
unfolding reverse_loop
reverse_loop-below zero start str a m below = refl
reverse_loop-below (suc end) start str a m below =
    let m1 = swap8 m (str + start) (str + suc end) in
    ground
      (arith, reverse_loop-below end (start + 1) str a m1, read-swap8_below m str start (suc end) a)

-- `reverse_str` of a string of `n` characters, `n` below 2 ^ 32, ends; character `k` is then the
-- one that stood `k` places before the last, and no other byte has changed.
pub reverse_str_lem :
    (fuel : ℕ) (m : Memory) (str n : ℕ)
    → IsCString m str n
    → n < fuel
    → n < 2 ^ 32
    → (m' : Memory) × (reverse_str fuel m str ≡ some m')
      × ((k : ℕ) → k < n → read m' (str + k) ≡ read m (str + (n - 1 - k)))
      × ((k : ℕ) → n ≤ k → read m' (str + k) ≡ read m (str + k))
      × ((a : ℕ) → a < str → read m' a ≡ read m a)
unfolding reverse_str mirror strlen
reverse_str_lem fuel m str n h enough small =
    let len : strlen_loop fuel str 0 m ≡ some n = strlen_lem fuel m str n h enough small in
    (
      reverse_loop str 0 (n - 1) m,
      rw len refl,
      λ k lo.
          reverse_loop-mirror (n - 1) 0 str k m ∙ ap (λ (t : ℕ). read m (str + t)) (ground arith),
      λ k hi.
          reverse_loop-mirror (n - 1) 0 str k m ∙ ap (λ (t : ℕ). read m (str + t)) (ground arith),
      λ a below. reverse_loop-below (n - 1) 0 str a m below,
    )
