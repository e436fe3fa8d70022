-- ===== src/Queue/Resp/RoundTrip.antt =====
-- What `writeCommand` writes, `readRESP` reads back: a request has the form of a reply.
use Prim.Native.Nat.{◌≤◌, ◌<◌}
use mathlib.Core.Logic.{◌≢◌}
use capstone_project_git_fla.Prelude.{
  ℕ, zero, suc, ◌+◌, ◌*◌, ◌^◌, some, List, [], ◌∷◌, ◌++◌, ◌≡◌, refl, ap, ◌∙◌, arith, Bytes, length,
  pos, All, All-map, append_assoc, length-append, lt→ltb,
}
use capstone_project_git_fla.Decimal.Format.{format, IsDigit, format-IsDigit, atoi-format}
use capstone_project_git_fla.Queue.Resp.{
  Replies, string, array, end, item, got, ◌▹▹◌, number_in, number_or_error, kind_of, read_kind,
  crlf, write_bulk, write_bulks, write_command, until_newline, trim_cr, read_line, take_exactly,
  read_number, read_exactly, read_bulk, read_array, read_resp, read_items, read,
}

abbrev pub IsInLine : ℕ → Type 0
IsInLine c = c ≢ 10

pub until_newline_lem :
    (s rest : Bytes)
    → All IsInLine s
    → until_newline (s ++ 13 ∷ 10 ∷ rest) ≡ some (s ++ 13 ∷ [], rest)
unfolding until_newline
until_newline_lem [] rest h = refl
until_newline_lem (c ∷ s) rest (n, h) = rw (until_newline_lem s rest h) (ground arith)

pub trim_cr_lem : (s : Bytes) → trim_cr (s ++ 13 ∷ []) ≡ s
unfolding trim_cr
trim_cr_lem [] = refl
trim_cr_lem (c ∷ []) = refl
trim_cr_lem (c ∷ d ∷ s) = ap (λ t. c ∷ t) (trim_cr_lem (d ∷ s))

pub read_line_lem : (s rest : Bytes) → All IsInLine s → read_line (s ++ 13 ∷ 10 ∷ rest) ≡ got s rest
unfolding read_line
read_line_lem s rest h = rw (read_line, until_newline_lem s rest h, trim_cr_lem s) refl

digits-IsInLine : (s : Bytes) → All IsDigit s → All IsInLine s
digits-IsInLine s = All-map IsDigit IsInLine (λ c d e. omega arith) s

pub format-IsInLine : (n : ℕ) → All IsInLine (format n)
format-IsInLine n = digits-IsInLine (format n) (format-IsDigit n)

read_number-format :
    (n : ℕ) (rest : Bytes)
    → n < 2 ^ 63
    → read_number (format n ++ 13 ∷ 10 ∷ rest) ≡ got (pos n) rest
unfolding read_number
read_number-format n rest h =
    ap (λ r. r ▹▹ number_in) (read_line_lem (format n) rest (format-IsInLine n))
    ∙ ap (number_or_error (format n) rest) (atoi-format n h)

take_exactly_lem : (s rest : Bytes) → take_exactly (length s) (s ++ rest) ≡ some (s, rest)
unfolding take_exactly
take_exactly_lem [] rest = refl
take_exactly_lem (c ∷ s) rest = rw (take_exactly_lem s rest) refl

read_exactly_lem :
    (s rest : Bytes) → read_exactly (length s) (s ++ 13 ∷ 10 ∷ rest) ≡ got (string s) rest
unfolding read_exactly take_exactly
read_exactly_lem s rest = rw (read_exactly, take_exactly_lem s (13 ∷ 10 ∷ rest)) refl

-- An argument that `make` has room for, and the line's end behind it.
abbrev pub IsShort : Bytes → Type 0
IsShort s = length s + 2 < 2 ^ 63

regroup :
    (s rest : Bytes)
    → write_bulk s ++ rest ≡ b'$' ∷ format (length s) ++ (13 ∷ 10 ∷ (s ++ 13 ∷ 10 ∷ rest))
unfolding write_bulk
regroup s rest = simp append_assoc

read_resp-write_bulk :
    (rounds : ℕ) (s rest : Bytes)
    → IsShort s
    → read_resp (suc rounds) (write_bulk s ++ rest) ≡ got (string s) rest
unfolding read_resp read_kind kind_of read_bulk
read_resp-write_bulk rounds s rest h =
    rw
      (
        regroup s rest,
        read_number-format (length s) (s ++ 13 ∷ 10 ∷ rest) (omega arith),
        lt→ltb (length s + 2) (2 ^ 63) h,
      )
      (read_exactly_lem s rest)

-- The slice of strings that is read for a list of arguments.
pub strings : List Bytes → Replies
strings [] = end
strings (s ∷ ss) = item (string s) (strings ss)

read_items-write_bulks :
    (rounds : ℕ) (ss : List Bytes) (rest : Bytes)
    → All IsShort ss
    → length ss < rounds
    → read_items rounds (length ss) (write_bulks ss ++ rest) ≡ got (strings ss) rest
unfolding read_items write_bulks strings
read_items-write_bulks zero ss rest h n = absurd (omega arith)
read_items-write_bulks (suc rounds) [] rest h n = refl
read_items-write_bulks (suc zero) (s ∷ ss) rest h n = absurd (omega arith)
read_items-write_bulks (suc (suc rounds)) (s ∷ ss) rest (short, h) n =
    rw
      (
        append_assoc (write_bulk s) (write_bulks ss) rest,
        read_resp-write_bulk rounds s (write_bulks ss ++ rest) short,
        read_items-write_bulks (suc rounds) ss rest h (omega arith),
      )
      refl

write_bulk_filled : (s : Bytes) → 1 ≤ length (write_bulk s)
unfolding write_bulk
write_bulk_filled s = omega arith

length-write_bulks : (ss : List Bytes) → length ss ≤ length (write_bulks ss)
unfolding write_bulks
length-write_bulks [] = omega arith
length-write_bulks (s ∷ ss) = omega (
  arith,
  length-write_bulks ss,
  write_bulk_filled s,
  length-append (write_bulk s) (write_bulks ss),
)

regroup_command :
    (ss : List Bytes) (rest : Bytes)
    → write_command ss ++ rest ≡ b'*' ∷ format (length ss) ++ (13 ∷ 10 ∷ (write_bulks ss ++ rest))
unfolding write_command
regroup_command ss rest = simp append_assoc

read_array_lem :
    (rounds : ℕ) (ss : List Bytes) (rest : Bytes)
    → All IsShort ss
    → length ss < 2 ^ 63
    → length ss < rounds
    → read_resp (suc rounds) (write_command ss ++ rest) ≡ got (array (strings ss)) rest
unfolding read_resp read_kind kind_of read_array
read_array_lem rounds ss rest h n r =
    rw
      (
        regroup_command ss rest,
        read_number-format (length ss) (write_bulks ss ++ rest) n,
        read_items-write_bulks rounds ss rest h r,
      )
      refl

length-write_command : (ss : List Bytes) → length ss < length (write_command ss)
unfolding write_command
length-write_command ss =
    omega
      (arith, length-write_bulks ss, length-append (format (length ss)) (crlf ++ write_bulks ss))

-- A request of fewer than 2^63 arguments, each short enough for a buffer, is read back by `readRESP` as the slice of its arguments, and what stands behind it is left, whatever bytes the arguments hold.
pub read-write_command :
    (arguments : List Bytes) (rest : Bytes)
    → All IsShort arguments
    → length arguments < 2 ^ 63
    → read (write_command arguments ++ rest) ≡ got (array (strings arguments)) rest
read-write_command arguments rest h n =
    read_array_lem (2 * length (write_command arguments ++ rest)) arguments rest h n
      (omega (arith, length-write_command arguments, length-append (write_command arguments) rest))
