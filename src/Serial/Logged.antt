-- ===== src/Serial/Logged.antt =====
-- Several lines of the log, one behind the other.
use unix_p.Prelude.{
  ℕ, ◌≡◌, refl, ap, ◌∙◌, true, false, List, [], ◌∷◌, ◌++◌, Option, some, arith, ◌==◌, if◌then◌else◌,
}
use mathlib.Core.List.{append_assoc, append-nil}
use native.Mathlib.Decide.{ℕ_discrete}
use unix_p.Vga.Cursor.{OnScreen}
use unix_p.Serial.{Console, Ports}
use unix_p.Serial.Output.{bytes_of}

-- What has been sent to the serial port once this has been put out too.
abbrev pub logged : (out : ℕ) → Ports → List ℕ → Ports
logged out sent cs = if out == 0 then sent ++ bytes_of cs else sent

bytes_of-append : (xs ys : List ℕ) → bytes_of (xs ++ ys) ≡ bytes_of xs ++ bytes_of ys
bytes_of-append [] ys = refl
bytes_of-append (x ∷ xs) ys = elim (ℕ_discrete x 10) [
  | yes feed ↦ let test : (x == 10) ≡ true = ground arith in rw (test, bytes_of-append xs ys) refl
  | no other ↦ let test : (x == 10) ≡ false = ground arith in rw (test, bytes_of-append xs ys) refl
]

logged-append :
    (out : ℕ) (sent : Ports) (xs ys : List ℕ)
    → logged out (logged out sent xs) ys ≡ logged out sent (xs ++ ys)
logged-append out sent xs ys = elim (ℕ_discrete out 0) [
  | yes port ↦
      let test : (out == 0) ≡ true = ground arith in
      rw (test, bytes_of-append xs ys) (append_assoc sent (bytes_of xs) (bytes_of ys))
  | no screen ↦ let test : (out == 0) ≡ false = ground arith in rw test refl
]

pub logged_none : (out : ℕ) (sent : Ports) → logged out sent [] ≡ sent
logged_none out sent = elim (ℕ_discrete out 0) [
  | yes port ↦ let test : (out == 0) ≡ true = ground arith in rw test (append-nil sent)
  | no screen ↦ let test : (out == 0) ≡ false = ground arith in rw test refl
]

-- A line of the log has been put out.
abbrev pub IsLogged : Console → List ℕ → Option Console → Type 0
IsLogged c cs r =
    (c' : Console) × (r ≡ some c')
    × OnScreen (c'.screen)
    × (c'.sent ≡ logged (c.log_out) (c.sent) cs)
    × (c'.log_out ≡ c.log_out)

pub IsLogged-append :
    (c c1 : Console) (xs ys : List ℕ) (r : Option Console)
    → c1.log_out ≡ c.log_out
    → c1.sent ≡ logged (c.log_out) (c.sent) xs
    → IsLogged c1 ys r
    → IsLogged c (xs ++ ys) r
IsLogged-append c c1 xs ys r out sent (c2, returns, on, sent2, out2) = (
  c2,
  returns,
  on,
  sent2
      ∙ ap (λ (o : ℕ). logged o (c1.sent) ys) out
      ∙ ap (λ (s : Ports). logged (c.log_out) s ys) sent
      ∙ logged-append (c.log_out) (c.sent) xs ys,
  out2 ∙ out,
)
