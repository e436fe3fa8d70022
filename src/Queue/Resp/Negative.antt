-- ===== src/Queue/Resp/Negative.antt =====
-- Replies with a negative length.
use Prim.Native.Nat.{◌≤◌, ◌<◌}
use capstone_project_git_fla.Prelude.{
  ℕ, zero, suc, ◌^◌, ◌∷◌, ◌++◌, ◌≡◌, ◌⊎◌, inl, inr, refl, ap, ◌∙◌, arith, Bytes, All, negsuc,
}
use capstone_project_git_fla.Decimal.Format.{format, atoi-minus}
use capstone_project_git_fla.Queue.Resp.{
  got, panicked, ◌▹▹◌, number_in, number_or_error, kind_of, read_kind, read_number, read_bulk,
  read_array, read_resp, read,
}
use capstone_project_git_fla.Queue.Resp.RoundTrip.{IsInLine, read_line_lem, format-IsInLine}

minus_line : (n : ℕ) → All IsInLine (b'-' ∷ format n)
minus_line n = ((λ e. cc), format-IsInLine n)

read_number-minus :
    (n : ℕ) (rest : Bytes)
    → n < 2 ^ 63
    → read_number (b'-' ∷ format (suc n) ++ 13 ∷ 10 ∷ rest) ≡ got (negsuc n) rest
unfolding read_number
read_number-minus n rest h =
    ap (λ r. r ▹▹ number_in) (read_line_lem (b'-' ∷ format (suc n)) rest (minus_line (suc n)))
    ∙ ap (number_or_error (b'-' ∷ format (suc n)) rest) (atoi-minus n h)

-- A reply that gives a bulk string or a slice any length from -2 down to the least 64-bit number makes `readRESP` panic, whatever follows.
pub read-panicked :
    (prefix n : ℕ) (rest : Bytes)
    → (prefix ≡ b'$') ⊎ (prefix ≡ b'*')
    → 2 ≤ n
    → n ≤ 2 ^ 63
    → read (prefix ∷ b'-' ∷ format n ++ 13 ∷ 10 ∷ rest) ≡ panicked
unfolding read_resp read_kind kind_of read_bulk read_array
read-panicked prefix zero rest k two h = absurd (omega arith)
read-panicked prefix (suc zero) rest k two h = absurd (omega arith)
read-panicked prefix (suc (suc m)) rest (inl e) two h =
    rw (e, read_number-minus (suc m) rest (omega arith)) refl
read-panicked prefix (suc (suc m)) rest (inr e) two h =
    rw (e, read_number-minus (suc m) rest (omega arith)) refl
