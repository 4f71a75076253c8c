-- ===== src/Tools/Str/Scan.antt =====
-- Strings in memory, and what `strlen` and `strcpy` do with them.
use unix_p.Prelude.{
  ℕ, zero, suc, ◌+◌, ◌-◌, ◌^◌, ◌≤◌, ◌<◌, ◌≡◌, refl, sym, ap, ◌∙◌, ◌≢◌, ◌&&◌, some, false, arith,
  ltb, leb, ◌==◌, if◌then◌else◌, u32,
}
use unix_p.Prelude.Memory.{Memory, read, read-lt, write, read-write}
use unix_p.Tools.Copy.Laws.{IsForward, copied}
use unix_p.Tools.Str.{strlen_loop, strlen, strcpy_loop, strcpy}

-- The string at `str` has `n` characters before its terminator.
abbrev pub IsCString : Memory → (str n : ℕ) → Type 0
IsCString m str n = ((k : ℕ) → k < n → read m (str + k) ≢ 0) × (read m (str + n) ≡ 0)

pub IsCString-tail : (m : Memory) (str n : ℕ) → IsCString m str (suc n) → IsCString m (str + 1) n
IsCString-tail m str n (chars, ends) = (
  λ k below.
      let next : str + 1 + k ≡ str + suc k = omega arith in rw next (chars (suc k) (omega arith)),
  let next : str + 1 + n ≡ str + suc n = omega arith in rw next ends,
)

pub IsCString-head : (m : Memory) (str n : ℕ) → IsCString m str (suc n) → read m str ≢ 0
IsCString-head m str n (chars, ends) =
    let here : str ≡ str + 0 = omega arith in rw here (chars 0 (omega arith))

strlen_loop-eq :
    (n fuel str length : ℕ) (m : Memory)
    → IsCString m str n
    → n < fuel
    → length + n < 2 ^ 32
    → strlen_loop fuel str length m ≡ some (length + n)
unfolding strlen_loop
strlen_loop-eq zero zero str length m h enough small = absurd (omega arith)
strlen_loop-eq (suc n) zero str length m h enough small = absurd (omega arith)
strlen_loop-eq zero (suc fuel) str length m (chars, ends) enough small =
    let same : str ≡ str + 0 = omega arith in
    let here : read m str ≡ 0 = rw same ends in
    let sum : length + 0 ≡ length = omega arith in rw (here, sum) refl
strlen_loop-eq (suc n) (suc fuel) str length m h enough small =
    let here : read m str ≢ 0 = IsCString-head m str n h in
    let goes_on : (read m str == 0) ≡ false = ground arith in
    let next : u32 (length + 1) ≡ length + 1 = omega arith in
    let rest =
      strlen_loop-eq n fuel (str + 1) (length + 1) m (IsCString-tail m str n h) (omega arith)
        (omega arith) in
    let sum : length + 1 + n ≡ length + suc n = omega arith in rw (goes_on, next, rest, sum) refl

-- `strlen` of a string of `n` characters, `n` below 2 ^ 32, ends after `n` rounds and returns `n`.
pub strlen_lem :
    (fuel : ℕ) (m : Memory) (str n : ℕ)
    → IsCString m str n
    → n < fuel
    → n < 2 ^ 32
    → strlen fuel m str ≡ some n
unfolding strlen
strlen_lem fuel m str n h enough small =
    let sum : n ≡ 0 + n = omega arith in
    strlen_loop-eq n fuel str 0 m h enough (omega arith) ∙ ap (λ (t : ℕ). some t) (sym sum)

-- What the rest of a copy, from character `i` to the terminator at `n`, makes of the memory.
abbrev IsRest : Memory → (dest src i n : ℕ) → Memory → Type 0
IsRest m dest src i n m' =
    (a : ℕ)
    → read m' a
      ≡ (if leb (dest + i) a && ltb a (dest + (n + 1)) then read m (src + (a - dest)) else read m a)

strcpy_loop-IsRest :
    (left fuel i dest src n : ℕ) (m : Memory)
    → i + left ≡ n
    → left < fuel
    → n < 2 ^ 32
    → IsForward dest src (n + 1)
    → ((k : ℕ) → i ≤ k → k < n → read m (src + k) ≢ 0)
    → read m (src + n) ≡ 0
    → (m' : Memory) × (strcpy_loop fuel i dest src m ≡ some m') × IsRest m dest src i n m'
unfolding strcpy_loop
strcpy_loop-IsRest left zero i dest src n m at enough low fwd chars ends = absurd (omega arith)
strcpy_loop-IsRest zero (suc fuel) i dest src n m at enough low fwd chars ends =
    let same : i ≡ n = omega arith in
    let here : read m (src + i) ≡ 0 = rw same ends in
    (write m (dest + i) 0, rw here refl, λ a. ground (arith, read-write m (dest + i) 0 a))
strcpy_loop-IsRest (suc left) (suc fuel) i dest src n m at enough low fwd chars ends =
    let v = read m (src + i) in
    let m1 = write m (dest + i) v in
    let goes_on : (v == 0) ≡ false = ground (arith, chars i) in
    let later : (k : ℕ) → i < k → k < n + 1 → read m1 (src + k) ≡ read m (src + k) =
      λ k lo hi. ground (arith, read-write m (dest + i) v (src + k)) in
    let (m', returns, rest) =
      strcpy_loop-IsRest left fuel (i + 1) dest src n m1 (omega arith) (omega arith) low fwd
        (λ k lo hi.
          let same = later k (omega arith) (omega arith) in rw same (chars k (omega arith) hi))
        (let same = later n (omega arith) (omega arith) in rw same ends) in
    (
      m',
      let next : u32 (i + 1) ≡ i + 1 = omega arith in rw (goes_on, next, returns) refl,
      λ a.
          ground
            (arith, rest a, read-write m (dest + i) v a, later (a - dest), read-lt m (src + i)),
    )

-- `strcpy` of a string of fewer than 2 ^ 32 characters to a target that does not start inside it
-- ends, having copied the characters and the terminator as they were, and changed no other byte.
pub strcpy_lem :
    (fuel : ℕ) (m : Memory) (dest src n : ℕ)
    → IsCString m src n
    → n < fuel
    → n < 2 ^ 32
    → IsForward dest src (n + 1)
    → (m' : Memory) × (strcpy fuel m dest src ≡ some m')
      × ((a : ℕ) → read m' a ≡ copied m dest src (n + 1) a)
unfolding strcpy
strcpy_lem fuel m dest src n (chars, ends) enough low fwd =
    let (m', returns, rest) =
      strcpy_loop-IsRest n fuel 0 dest src n m (omega arith) enough low fwd (λ k lo hi. chars k hi)
        ends in
    (m', returns, λ a. ground (arith, rest a))
