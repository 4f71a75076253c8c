-- ===== src/Tools/Str/Compare.antt =====
-- What the comparisons `strcmp`, `strncmp` and `check_eq_of_strings` return.
use unix_p.Prelude.{
  ℕ, zero, suc, ◌+◌, ◌^◌, ◌≤◌, ◌<◌, ◌≡◌, refl, ◌∙◌, ◌≢◌, ◌↔◌, ◌||◌, some, Bool, true, false, arith,
  ◌==◌, inl, inr, Bool-cases, ap,
}
use native.Mathlib.Decide.{dec_lt, ℕ_discrete}
use unix_p.Prelude.Int.{ℤ, pos, negsuc, sub_ℕ}
use unix_p.Prelude.Memory.{Memory, read}
use unix_p.Tools.Str.Scan.{IsCString, strlen_lem}
use unix_p.Tools.Str.{strcmp, strncmp_loop, strncmp, check_eq_of_strings, strlen}

-- The first `n` characters of the two strings are the same.
abbrev pub SameChars : Memory → (s1 s2 n : ℕ) → Type 0
SameChars m s1 s2 n = (k : ℕ) → k < n → read m (s1 + k) ≡ read m (s2 + k)

-- The strings are the same up to the end of the shorter one.
abbrev pub IsPrefix : Memory → (s1 n1 s2 n2 : ℕ) → Type 0
IsPrefix m s1 n1 s2 n2 = (k : ℕ) → k < n1 → k < n2 → read m (s1 + k) ≡ read m (s2 + k)

sub_ℕ-eq_0 : (a b : ℕ) → sub_ℕ a b ≡ pos 0 → a ≡ b
sub_ℕ-eq_0 a b h = ground arith

before_end :
    (m : Memory) (str n i : ℕ) → read m (str + n) ≡ 0 → i ≤ n → read m (str + i) ≢ 0 → i < n
before_end m str n i ends inside here = elim (dec_lt i n) [
  | yes h ↦ h
  | no past ↦ let at : i ≡ n = omega arith in absurd (here (rw at ends))
]

strcmp_from :
    (fuel i s1 n1 s2 n2 : ℕ) (m : Memory)
    → IsCString m s1 n1
    → IsCString m s2 n2
    → i ≤ n1
    → i ≤ n2
    → n1 < i + fuel
    → SameChars m s1 s2 i
    → (d : ℤ) × (strcmp fuel m (s1 + i) (s2 + i) ≡ some d) × ((d ≡ pos 0) ↔ IsPrefix m s1 n1 s2 n2)
unfolding strcmp
strcmp_from zero i s1 n1 s2 n2 m h1 h2 in1 in2 enough same = absurd (omega arith)
strcmp_from (suc fuel) i s1 n1 s2 n2 m (chars1, ends1) (chars2, ends2) in1 in2 enough same =
    let r1 = read m (s1 + i) in
    let r2 = read m (s2 + i) in
    elim (Bool-cases (r1 == 0 || r2 == 0)) [
      | inl stop ↦ (
        pos 0,
        rw stop refl,
        (λ _ k lo1 lo2. same k (ground (arith, chars1 i, chars2 i)), λ _. refl),
      )
      | inr go ↦ elim (ℕ_discrete r1 r2) [
        | yes now ↦
            let equal : (r1 == r2) ≡ true = ground arith in
            let next1 : s1 + i + 1 ≡ s1 + (i + 1) = omega arith in
            let next2 : s2 + i + 1 ≡ s2 + (i + 1) = omega arith in
            let further : SameChars m s1 s2 (i + 1) = λ k lo. elim (dec_lt k i) [
              | yes before ↦ same k before
              | no past ↦ let here : k ≡ i = omega arith in rw here now
            ] in
            let in1' : i < n1 = before_end m s1 n1 i ends1 in1 (ground arith) in
            let in2' : i < n2 = before_end m s2 n2 i ends2 in2 (ground arith) in
            let (d, returns, iff) =
              strcmp_from fuel (i + 1) s1 n1 s2 n2 m (chars1, ends1) (chars2, ends2) (omega arith)
                (omega arith) (omega arith) further in
            (d, rw (go, equal, next1, next2, returns) refl, iff)
        | no differ ↦
            let unequal : (r1 == r2) ≡ false = ground arith in
            (
              sub_ℕ (s1 + i) (s2 + i),
              rw (go, unequal) refl,
              (
                λ h. absurd (
                    differ
                      (let eq = sub_ℕ-eq_0 (s1 + i) (s2 + i) h in ap (λ (t : ℕ). read m t) eq)),
                λ prefix. absurd (
                    differ (
                      prefix i (before_end m s1 n1 i ends1 in1 (ground arith))
                        (before_end m s2 n2 i ends2 in2 (ground arith)))),
              ),
            )
      ]
    ]

-- `strcmp` of two strings ends, and returns 0 exactly if one of them starts with the other: it does
-- not tell a string from its prefixes.
pub strcmp_lem :
    (fuel : ℕ) (m : Memory) (s1 n1 s2 n2 : ℕ)
    → IsCString m s1 n1
    → IsCString m s2 n2
    → n1 < fuel
    → (d : ℤ) × (strcmp fuel m s1 s2 ≡ some d) × ((d ≡ pos 0) ↔ IsPrefix m s1 n1 s2 n2)
strcmp_lem fuel m s1 n1 s2 n2 h1 h2 enough =
    let same1 : s1 ≡ s1 + 0 = omega arith in
    let same2 : s2 ≡ s2 + 0 = omega arith in
    let (d, returns, iff) =
      strcmp_from fuel 0 s1 n1 s2 n2 m h1 h2 (omega arith) (omega arith) (omega arith)
        (λ k lo. absurd (omega arith)) in
    (
      d,
      (ap (λ (t : ℕ). strcmp fuel m t s2) same1 ∙ ap (λ (t : ℕ). strcmp fuel m (s1 + 0) t) same2)
          ∙ returns,
      iff,
    )

check_of_strcmp :
    (fuel : ℕ) (m : Memory) (s1 n1 s2 n2 : ℕ) (d : ℤ)
    → strlen fuel m s1 ≡ some n1
    → strlen fuel m s2 ≡ some n2
    → strcmp fuel m s1 s2 ≡ some d
    → ((d ≡ pos 0) ↔ IsPrefix m s1 n1 s2 n2)
    → (b : Bool) × (check_eq_of_strings fuel m s1 s2 ≡ some b)
      × ((b ≡ true) ↔ ((n1 ≡ n2) × SameChars m s1 s2 n1))
unfolding check_eq_of_strings
check_of_strcmp fuel m s1 n1 s2 n2 (pos zero) len1 len2 returns (to, from) = (
  n1 == n2,
  rw (returns, len1, len2) refl,
  (
    λ h. let same : n1 ≡ n2 = ground arith in (same, λ k lo. to refl k lo (omega arith)),
    λ (same, chars). ground arith,
  ),
)
check_of_strcmp fuel m s1 n1 s2 n2 (pos (suc d)) len1 len2 returns (to, from) = (
  false,
  rw returns refl,
  (λ h. ground arith, λ (same, chars). let no = from (λ k lo1 lo2. chars k lo1) in ground arith),
)
check_of_strcmp fuel m s1 n1 s2 n2 (negsuc d) len1 len2 returns (to, from) = (
  false,
  rw returns refl,
  (λ h. ground arith, λ (same, chars). let no = from (λ k lo1 lo2. chars k lo1) in ground arith),
)

-- `check_eq_of_strings` of two strings, of lengths below 2 ^ 32, ends, and returns `true` exactly if they have the same length
-- and the same characters.
pub check_eq_of_strings_lem :
    (fuel : ℕ) (m : Memory) (s1 n1 s2 n2 : ℕ)
    → IsCString m s1 n1
    → IsCString m s2 n2
    → n1 < fuel
    → n2 < fuel
    → n1 < 2 ^ 32
    → n2 < 2 ^ 32
    → (b : Bool) × (check_eq_of_strings fuel m s1 s2 ≡ some b)
      × ((b ≡ true) ↔ ((n1 ≡ n2) × SameChars m s1 s2 n1))
check_eq_of_strings_lem fuel m s1 n1 s2 n2 h1 h2 enough1 enough2 small1 small2 =
    let (d, returns, iff) = strcmp_lem fuel m s1 n1 s2 n2 h1 h2 enough1 in
    check_of_strcmp fuel m s1 n1 s2 n2 d (strlen_lem fuel m s1 n1 h1 enough1 small1)
      (strlen_lem fuel m s2 n2 h2 enough2 small2) returns iff

-- From character `i` on, the first `n` characters agree, those behind a terminator aside.
abbrev pub AgreeString : Memory → (s1 s2 i n : ℕ) → Type 0
AgreeString m s1 s2 i n =
    (k : ℕ)
    → i ≤ k
    → k < n
    → ((j : ℕ) → i ≤ j → j < k → read m (s1 + j) ≢ 0)
    → read m (s1 + k) ≡ read m (s2 + k)

strncmp_loop-AgreeString :
    (left i s1 s2 n : ℕ) (m : Memory)
    → i + left ≡ n
    → strncmp_loop left i s1 s2 m ≡ pos 0
    → AgreeString m s1 s2 i n
unfolding strncmp_loop
strncmp_loop-AgreeString zero i s1 s2 n m at h k lo hi before = absurd (omega arith)
strncmp_loop-AgreeString (suc left) i s1 s2 n m at h k lo hi before = elim (dec_lt i k) [
  | yes later ↦
      let here = before i (omega arith) later in
      let rest : strncmp_loop left (i + 1) s1 s2 m ≡ pos 0 = ground arith in
      strncmp_loop-AgreeString left (i + 1) s1 s2 n m (omega arith) rest k (omega arith) hi
        (λ j lo' hi'. before j (omega arith) hi')
  | no past ↦ let here : k ≡ i = omega arith in rw here (ground arith)
]

AgreeString-strncmp_loop :
    (left i s1 s2 n : ℕ) (m : Memory)
    → i + left ≡ n
    → AgreeString m s1 s2 i n
    → strncmp_loop left i s1 s2 m ≡ pos 0
unfolding strncmp_loop
AgreeString-strncmp_loop zero i s1 s2 n m at h = refl
AgreeString-strncmp_loop (suc left) i s1 s2 n m at h =
    let here : read m (s1 + i) ≡ read m (s2 + i) =
      h i (omega arith) (omega arith) (λ j lo hi. absurd (omega arith)) in
    elim (ℕ_discrete (read m (s1 + i)) 0) [
      | yes ends ↦ ground arith
      | no goes_on ↦
          let rest =
            AgreeString-strncmp_loop left (i + 1) s1 s2 n m (omega arith) (λ k lo hi before.
              h k (omega arith) hi (λ j lo' hi'. elim (dec_lt i j) [
                | yes later ↦ before j (omega arith) hi'
                | no past ↦ let at' : j ≡ i = omega arith in rw at' goes_on
              ])) in
          ground arith
    ]

-- `strncmp` returns 0 exactly if the first `n` characters agree, those behind a terminator aside.
pub strncmp_iff : (m : Memory) (s1 s2 n : ℕ) → (strncmp m s1 s2 n ≡ pos 0) ↔ AgreeString m s1 s2 0 n
unfolding strncmp
strncmp_iff m s1 s2 n = (
  strncmp_loop-AgreeString n 0 s1 s2 n m (omega arith),
  AgreeString-strncmp_loop n 0 s1 s2 n m (omega arith),
)
