-- ===== src/Tools/Str/Text.antt =====
-- A string in memory as the list of its characters.
use unix_p.Prelude.{
  ℕ, zero, suc, ◌+◌, ◌-◌, ◌^◌, ◌≤◌, ◌<◌, ◌≡◌, ◌≢◌, ◌⊎◌, inl, inr, refl, sym, ap, subst, ◌∙◌, List,
  [], ◌∷◌, ◌++◌, some, arith, length,
}
use mathlib.Core.List.{reverse, reverse-cons}
use unix_p.Prelude.Memory.{Memory, read}
use unix_p.Tools.Str.Scan.{IsCString}
use unix_p.Tools.Str.Reverse.{reverse_str_lem}
use unix_p.Tools.Str.{reverse_str}

-- The characters from `str` on, none of them a terminator.
abbrev pub Chars : Memory → (str : ℕ) → List ℕ → Type 0
Chars m str [] = Unit {0}
Chars m str (c ∷ cs) = (read m str ≡ c) × (c ≢ 0) × Chars m (str + 1) cs

-- The string at `str` is these characters.
abbrev pub Holds : Memory → (str : ℕ) → List ℕ → Type 0
Holds m str cs = Chars m str cs × (read m (str + length cs) ≡ 0)

-- No byte but those of the `size` from `buf` on differs.
abbrev pub SameBut : (buf size : ℕ) → Memory → Memory → Type 0
SameBut buf size m m' = (a : ℕ) → (a < buf) ⊎ (buf + size ≤ a) → read m' a ≡ read m a

pub Chars-SameBut :
    (cs : List ℕ) (buf size str : ℕ) (m m' : Memory)
    → SameBut buf size m m'
    → (str + length cs ≤ buf) ⊎ (buf + size ≤ str)
    → Chars m str cs
    → Chars m' str cs
Chars-SameBut [] buf size str m m' same apart held = tt
Chars-SameBut (c ∷ cs) buf size str m m' same apart (here, real, others) = (
  same str (ground arith) ∙ here,
  real,
  Chars-SameBut cs buf size (str + 1) m m' same (ground arith) others,
)

pub Holds-SameBut :
    (cs : List ℕ) (buf size str : ℕ) (m m' : Memory)
    → SameBut buf size m m'
    → (str + length cs < buf) ⊎ (buf + size ≤ str)
    → Holds m str cs
    → Holds m' str cs
Holds-SameBut cs buf size str m m' same apart (chars, ends) = (
  Chars-SameBut cs buf size str m m' same (ground arith) chars,
  same (str + length cs) (ground arith) ∙ ends,
)

pub length-append : (xs ys : List ℕ) → length (xs ++ ys) ≡ length xs + length ys
length-append [] ys = omega arith
length-append (x ∷ xs) ys = let rest = length-append xs ys in omega arith

pub length-reverse : (xs : List ℕ) → length (reverse xs) ≡ length xs
length-reverse [] = refl
length-reverse (x ∷ xs) =
    let rest = length-reverse xs in
    let snoc = length-append (reverse xs) (x ∷ []) in rw (reverse-cons x xs) (omega arith)

pub Chars-append :
    (xs ys : List ℕ) (m : Memory) (str : ℕ)
    → Chars m str xs
    → Chars m (str + length xs) ys
    → Chars m str (xs ++ ys)
Chars-append [] ys m str before after =
    let at : str + 0 ≡ str = omega arith in subst (λ (a : ℕ). Chars m a ys) at after
Chars-append (x ∷ xs) ys m str (here, real, others) after =
    let at : str + suc (length xs) ≡ str + 1 + length xs = omega arith in
    (here, real, Chars-append xs ys m (str + 1) others (subst (λ (a : ℕ). Chars m a ys) at after))

pub Chars-append_left :
    (xs ys : List ℕ) (m : Memory) (str : ℕ) → Chars m str (xs ++ ys) → Chars m str xs
Chars-append_left [] ys m str held = tt
Chars-append_left (x ∷ xs) ys m str (here, real, others) =
    (here, real, Chars-append_left xs ys m (str + 1) others)

pub Chars-append_right :
    (xs ys : List ℕ) (m : Memory) (str : ℕ) → Chars m str (xs ++ ys) → Chars m (str + length xs) ys
Chars-append_right [] ys m str held =
    let at : str ≡ str + 0 = omega arith in subst (λ (a : ℕ). Chars m a ys) at held
Chars-append_right (x ∷ xs) ys m str (here, real, others) =
    let at : str + 1 + length xs ≡ str + suc (length xs) = omega arith in
    subst (λ (a : ℕ). Chars m a ys) at (Chars-append_right xs ys m (str + 1) others)

Chars-at :
    (cs : List ℕ) (m : Memory) (str k : ℕ) → Chars m str cs → k < length cs → read m (str + k) ≢ 0
Chars-at [] m str k held inside = absurd (omega arith)
Chars-at (c ∷ cs) m str zero (here, real, others) inside =
    let at : str + 0 ≡ str = omega arith in rw (at, here) real
Chars-at (c ∷ cs) m str (suc k) (here, real, others) inside =
    let at : str + suc k ≡ str + 1 + k = omega arith in
    rw at (Chars-at cs m (str + 1) k others (omega arith))

pub Holds-IsCString :
    (cs : List ℕ) (m : Memory) (str : ℕ) → Holds m str cs → IsCString m str (length cs)
Holds-IsCString cs m str (chars, ends) = (λ k inside. Chars-at cs m str k chars inside, ends)

-- Characters that stand mirrored at another place.
Chars-reverse :
    (cs : List ℕ) (m m' : Memory) (to from : ℕ)
    → ((k : ℕ) → k < length cs → read m' (to + k) ≡ read m (from + (length cs - 1 - k)))
    → Chars m from cs
    → Chars m' to (reverse cs)
Chars-reverse [] m m' to from mirrored held = tt
Chars-reverse (c ∷ cs) m m' to from mirrored (here, real, others) =
    let before =
      Chars-reverse cs m m' to (from + 1)
        (λ k inside.
          let at : from + (suc (length cs) - 1 - k) ≡ from + 1 + (length cs - 1 - k) =
            omega arith in
          mirrored k (omega arith) ∙ ap (λ (a : ℕ). read m a) at)
        others in
    let last : from + (suc (length cs) - 1 - length cs) ≡ from = omega arith in
    let end : read m' (to + length cs) ≡ c =
      mirrored (length cs) (omega arith) ∙ ap (λ (a : ℕ). read m a) last ∙ here in
    let count = length-reverse cs in
    subst (λ (l : List ℕ). Chars m' to l) (sym (reverse-cons c cs))
      (Chars-append (reverse cs) (c ∷ []) m' to before
        (ap (λ (k : ℕ). read m' (to + k)) count ∙ end, real, tt))

-- `reverse_str` of a string turns its characters round, and changes no other byte.
pub reverse_str-Holds :
    (fuel : ℕ) (m : Memory) (str : ℕ) (cs : List ℕ)
    → Holds m str cs
    → length cs < fuel
    → length cs < 2 ^ 32
    → (m' : Memory) × (reverse_str fuel m str ≡ some m')
      × Holds m' str (reverse cs)
      × SameBut str (length cs) m m'
reverse_str-Holds fuel m str cs (chars, ends) enough small =
    let (m', turned, swapped, kept, below) =
      reverse_str_lem fuel m str (length cs) (Holds-IsCString cs m str (chars, ends)) enough
        small in
    let count = length-reverse cs in
    (
      m',
      turned,
      (
        Chars-reverse cs m m' str str swapped chars,
        ap (λ (k : ℕ). read m' (str + k)) count ∙ kept (length cs) (omega arith) ∙ ends,
      ),
      λ a out. elim out [
        | inl before ↦ below a before
        | inr behind ↦
            let at : str + (a - str) ≡ a = omega arith in
            subst (λ (x : ℕ). read m' x ≡ read m x) at (kept (a - str) (omega arith))
      ],
    )
