-- ===== src/Decimal/Format.antt =====
-- Go's `%d` and `strconv.Itoa`, and that `Atoi` reads them back.
use Prim.Native.Nat.{◌/◌, ◌%◌, ◌^◌, ◌≤◌, ◌<◌}
use mathlib.Core.Logic.{◌≢◌}
use capstone_project_git_fla.Prelude.{
  ℕ, zero, suc, ◌+◌, false, some, [], ◌∷◌, ◌≡◌, refl, arith, Bytes, eqb, if◌then◌else◌, ℤ, pos,
  negsuc, All,
}
use capstone_project_git_fla.Decimal.{digits, natural, within, negate, atoi}

-- The digits of `n` in front of `out`; as many rounds as `n` are enough.
digits_before : ℕ → ℕ → Bytes → Bytes
digits_before zero n out = out
digits_before (suc rounds) n out =
    let more = digits_before rounds (n / 10) ((b'0' + n % 10) ∷ out) in
    if eqb n 0 then out else more

unfoldable pub format : ℕ → Bytes
unfolding digits_before
format n = if eqb n 0 then b'0' ∷ [] else digits_before n n []

unfoldable pub itoa : ℤ → Bytes
unfolding format
itoa (pos n) = format n
itoa (negsuc n) = b'-' ∷ format (n + 1)

abbrev pub IsDigit : ℕ → Type 0
IsDigit c = (b'0' ≤ c) × (c ≤ b'9')

digits-digits_before :
    (rounds n : ℕ) (out : Bytes) → n ≤ rounds → digits 0 (digits_before rounds n out) ≡ digits n out
unfolding digits_before digits
digits-digits_before zero n out h = ground arith
digits-digits_before (suc rounds) n out h =
    ground (arith, digits-digits_before rounds (n / 10) ((b'0' + n % 10) ∷ out))

All-digits_before :
    (rounds n : ℕ) (out : Bytes) → All IsDigit out → All IsDigit (digits_before rounds n out)
unfolding digits_before
All-digits_before zero n out h = h
All-digits_before (suc rounds) n out h =
    ground (arith, All-digits_before rounds (n / 10) ((b'0' + n % 10) ∷ out))

digits_before-filled : (rounds n c : ℕ) (out : Bytes) → digits_before rounds n (c ∷ out) ≢ []
unfolding digits_before
digits_before-filled zero n c out = λ e. cc
digits_before-filled (suc rounds) n c out =
    ground (arith, digits_before-filled rounds (n / 10) (b'0' + n % 10) (c ∷ out))

pub format-IsDigit : (n : ℕ) → All IsDigit (format n)
unfolding format
format-IsDigit n = ground (arith, All-digits_before n n [])

pub format-filled : (n : ℕ) → format n ≢ []
unfolding format digits_before
format-filled zero = ground arith
format-filled (suc n) = ground (arith, digits_before-filled n (suc n / 10) (b'0' + suc n % 10) [])

natural_filled : (s : Bytes) → s ≢ [] → natural s ≡ digits 0 s
unfolding natural
natural_filled [] h = absurd (h refl)
natural_filled (c ∷ s) h = refl

digits-format : (n : ℕ) → digits 0 (format n) ≡ some n
unfolding format digits
digits-format n = ground (arith, digits-digits_before n n [])

pub natural-format : (n : ℕ) → natural (format n) ≡ some n
natural-format n = rw (natural_filled (format n) (format-filled n)) (digits-format n)

unsigned : (s : Bytes) → s ≢ [] → All IsDigit s → atoi s ≡ within false (natural s)
unfolding atoi
unsigned [] h d = absurd (h refl)
unsigned (c ∷ s) h d = ground arith

-- Atoi reads back every number below 2 ^ 63.
pub atoi-format : (n : ℕ) → n < 2 ^ 63 → atoi (format n) ≡ some (pos n)
unfolding within
atoi-format n h =
    rw (unsigned (format n) (format-filled n) (format-IsDigit n), natural-format n) (ground arith)

pub atoi-minus : (n : ℕ) → n < 2 ^ 63 → atoi (b'-' ∷ format (suc n)) ≡ some (negsuc n)
unfolding atoi within negate
atoi-minus n h = rw (natural-format (suc n)) (ground arith)
