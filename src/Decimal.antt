-- ===== src/Decimal.antt =====
-- Go's `strconv.Atoi` on 64-bit integers.
pub mod Format
use capstone_project_git_fla.Prelude.{
  ℕ, zero, suc, ◌+◌, ◌-◌, ◌*◌, ◌^◌, Bool, true, false, ◌&&◌, Option, none, some, [], ◌∷◌, Bytes,
  eqb, leb, ltb, if◌then◌else◌, ℤ, pos, negsuc,
}

-- The value of a run of digits behind `n`.
digits : ℕ → Bytes → Option ℕ
digits n [] = some n
digits n (c ∷ s) =
    let rest = digits (n * 10 + (c - b'0')) s in if leb b'0' c && leb c b'9' then rest else none

-- One digit or more.
unfoldable pub natural : Bytes → Option ℕ
unfolding digits
natural [] = none
natural (c ∷ s) = digits 0 (c ∷ s)

negate : ℕ → ℤ
negate zero = pos 0
negate (suc n) = negsuc n

within : Bool → Option ℕ → Option ℤ
within minus none = none
within true (some n) = if leb n (2 ^ 63) then some (negate n) else none
within false (some n) = if ltb n (2 ^ 63) then some (pos n) else none

-- strconv.Atoi; `none` is an error, of syntax or of range.
unfoldable pub atoi : Bytes → Option ℤ
unfolding within negate
atoi [] = none
atoi (c ∷ s) =
    if eqb c b'-'
    then within true (natural s)
    else if eqb c b'+'
    then within false (natural s)
    else within false (natural (c ∷ s))
