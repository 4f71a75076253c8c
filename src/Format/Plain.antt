-- ===== src/Format/Plain.antt =====
-- Strings are put out as they are.
use unix_p.Prelude.{
  ℕ, zero, suc, ◌+◌, ◌<◌, ◌≡◌, refl, ap, ◌∙◌, List, [], ◌∷◌, ◌++◌, some, false, arith, ◌==◌, u8,
}
use mathlib.Core.List.{append-nil, append_assoc}
use unix_p.Prelude.Memory.{Memory, read, read-lt}
use unix_p.Tools.Str.Scan.{IsCString, IsCString-tail, IsCString-head}
use unix_p.Format.{Printer, putch, doprnt_put_string}

-- The `n` characters at `str`.
abbrev pub text : Memory → (str n : ℕ) → List ℕ
text m str zero = []
text m str (suc n) = read m str ∷ text m (str + 1) n

-- The printer after it has put out these characters.
abbrev pub after : Printer → List ℕ → Printer
after p cs = record { memory = p.memory; argp = p.argp; put = p.put ++ cs }

after-putch :
    (c : ℕ) (p : Printer) (cs : List ℕ) → c < 256 → after (putch c p) cs ≡ after p (c ∷ cs)
after-putch c p cs small =
    let byte : u8 c ≡ c = omega arith in
    ap (λ (t : List ℕ). record { memory = p.memory; argp = p.argp; put = t })
      (rw byte (append_assoc (p.put) (c ∷ []) cs))

after-none : (p : Printer) → after p [] ≡ p
after-none p =
    ap (λ (t : List ℕ). record { memory = p.memory; argp = p.argp; put = t }) (append-nil (p.put))

-- `__doprnt_put_string` of a string ends, having put out its characters in order.
pub doprnt_put_string_lem :
    (n fuel str : ℕ) (p : Printer)
    → IsCString (p.memory) str n
    → n < fuel
    → doprnt_put_string fuel str p ≡ some (after p (text (p.memory) str n))
unfolding doprnt_put_string
doprnt_put_string_lem n zero str p string enough = absurd (omega arith)
doprnt_put_string_lem zero (suc fuel) str p (_, ends) enough =
    let at : str ≡ str + 0 = omega arith in
    let here : read (p.memory) str ≡ 0 = rw at ends in rw (here, after-none p) refl
doprnt_put_string_lem (suc n) (suc fuel) str p string enough =
    let here = IsCString-head (p.memory) str n string in
    let goes_on : (read (p.memory) str == 0) ≡ false = ground arith in
    let rest =
      doprnt_put_string_lem n fuel (str + 1) (putch (read (p.memory) str) p)
        (IsCString-tail (p.memory) str n string) (omega arith) in
    rw goes_on (
      rest
      ∙ ap (λ (t : Printer). some t)
          (after-putch (read (p.memory) str) p (text (p.memory) (str + 1) n)
            (read-lt (p.memory) str)))
