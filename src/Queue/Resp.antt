-- ===== src/Queue/Resp.antt =====
-- The Redis protocol (backend/internal/queue/redis.go): `writeCommand`, which prints a request, and
-- `readRESP`, which reads a reply. Its input is the list of the bytes that arrive; where it ends,
-- the connection is closed or its deadline is over. Memory is taken as large enough for `make`: a
-- length that is not negative and too large for the address space, for which `make` panics as well,
-- is read on like any other.
pub mod Total
pub mod RoundTrip
pub mod Negative
use capstone_project_git_fla.Prelude.{
  ℕ, zero, suc, ◌+◌, ◌-◌, ◌*◌, ◌^◌, Bool, true, false, Option, none, some, List, [], ◌∷◌, ◌++◌,
  Bytes, codes, length, eqb, ltb, if◌then◌else◌, ℤ, pos, negsuc,
}
use capstone_project_git_fla.Decimal.{atoi}
use capstone_project_git_fla.Decimal.Format.{format}
use capstone_project_git_fla.Errors.{Err, text, about}

-- An `any` that `readRESP` returns: a string of either kind, an int64, nil, or a slice.
mutual
  pub data Reply : Type 0 where
    nil : Reply
    number : ℤ → Reply
    string : Bytes → Reply
    array : Replies → Reply

  pub data Replies : Type 0 where
    end : Replies
    item : Reply → Replies → Replies

-- A value and the input behind it, an error, a panic, or no more rounds of the model.
pub data Reading {ℓ} (A : Type ℓ) : Type ℓ where
  got : A → Bytes → Reading A
  failed : Err → Reading A
  panicked : Reading A
  stuck : Reading A

infixl 5 ◌▹▹◌
abbrev pub ◌▹▹◌ {ℓ κ} : {A : Type ℓ} {B : Type κ} → Reading A → (A → Bytes → Reading B) → Reading B
got value rest ▹▹ next = next value rest
failed cause ▹▹ next = failed cause
panicked ▹▹ next = panicked
stuck ▹▹ next = stuck

abbrev crlf : Bytes
crlf = 13 ∷ 10 ∷ []

unfoldable pub write_bulk : Bytes → Bytes
write_bulk argument = b'$' ∷ format (length argument) ++ (crlf ++ (argument ++ crlf))

unfoldable pub write_bulks : List Bytes → Bytes
write_bulks [] = []
write_bulks (argument ∷ arguments) = write_bulk argument ++ write_bulks arguments

unfoldable pub write_command : List Bytes → Bytes
write_command arguments = b'*' ∷ format (length arguments) ++ (crlf ++ write_bulks arguments)

-- ReadString('\n'), without the "\n"
unfoldable pub until_newline : Bytes → Option (Bytes × Bytes)
until_newline [] = none
until_newline (c ∷ s) =
    let rest = until_newline s in
    if eqb c 10
    then some ([], s)
    else elim rest [ none ↦ none | some (line, after) ↦ some (c ∷ line, after) ]

-- strings.TrimSuffix(value, "\r")
unfoldable pub trim_cr : Bytes → Bytes
trim_cr [] = []
trim_cr (c ∷ []) = if eqb c 13 then [] else c ∷ []
trim_cr (c ∷ d ∷ s) = c ∷ trim_cr (d ∷ s)

unfoldable pub read_line : Bytes → Reading Bytes
read_line s = elim (until_newline s) [
  | none ↦ failed (text "EOF")
  | some (line, rest) ↦ got (trim_cr line) rest
]

-- The first `n` bytes and the others, if there are as many.
unfoldable pub take_exactly : ℕ → Bytes → Option (Bytes × Bytes)
take_exactly zero s = some ([], s)
take_exactly (suc n) [] = none
take_exactly (suc n) (c ∷ s) = elim (take_exactly n s) [
  | none ↦ none
  | some (taken, rest) ↦ some (c ∷ taken, rest)
]

-- The error of `strconv` for a line that is not a number in 64 bits; its text for a number out of
-- range is another one.
abbrev not_a_number : Bytes → Err
not_a_number line = about "strconv: parsing " line ": invalid syntax"

abbrev pub number_or_error : Bytes → Bytes → Option ℤ → Reading ℤ
number_or_error line rest none = failed (not_a_number line)
number_or_error line rest (some n) = got n rest

abbrev pub number_in : Bytes → Bytes → Reading ℤ
number_in line rest = number_or_error line rest (atoi line)

unfoldable pub read_number : Bytes → Reading ℤ
read_number s = read_line s ▹▹ number_in

-- `io.ReadFull` of the bytes and the line's end, of which only their number is looked at.
read_exactly : ℕ → Bytes → Reading Reply
read_exactly n s = elim (take_exactly n s) [
  | none ↦ failed (text "unexpected EOF")
  | some (taken, rest) ↦ elim (take_exactly 2 rest) [
    | none ↦ failed (text "unexpected EOF")
    | some (line_end, after) ↦ got (string taken) after
  ]
]

-- `make` panics on a negative size, to which `length + 2` may wrap, and so does `buffer[:-2]`.
unfoldable pub read_bulk : ℤ → Bytes → Reading Reply
unfolding read_exactly
read_bulk (negsuc zero) s = got nil s
read_bulk (negsuc (suc n)) s = panicked
read_bulk (pos n) s = if ltb (n + 2) (2 ^ 63) then read_exactly n s else panicked

abbrev pub array_of : Reading Replies → Reading Reply
array_of items = items ▹▹ λ replies rest. got (array replies) rest

-- by the length and the loop over the elements
unfoldable pub read_array : ℤ → Bytes → (ℕ → Reading Replies) → Reading Reply
read_array (negsuc zero) s items = got nil s
read_array (negsuc (suc n)) s items = panicked
read_array (pos n) s items = array_of (items n)

pub data Kind : Type 0 where
  status failure integer bulk multi unsupported : Kind

-- the cases of the `switch`
unfoldable pub kind_of : ℕ → Kind
kind_of prefix =
    if eqb prefix b'+'
    then status
    else if eqb prefix b'-'
    then failure
    else if eqb prefix b':'
    then integer
    else if eqb prefix b'$'
    then bulk
    else if eqb prefix b'*'
    then multi
    else unsupported

-- what follows the prefix, with the loop over an array's elements
unfoldable pub read_kind : Kind → ℕ → Bytes → (ℕ → Bytes → Reading Replies) → Reading Reply
read_kind status prefix s items = read_line s ▹▹ λ line rest. got (string line) rest
read_kind failure prefix s items = read_line s ▹▹ λ line rest. failed (about "" line "")
read_kind integer prefix s items = read_number s ▹▹ λ n rest. got (number n) rest
read_kind bulk prefix s items = read_number s ▹▹ read_bulk
read_kind multi prefix s items =
    read_number s ▹▹ λ n rest. read_array n rest (λ size. items size rest)
read_kind unsupported prefix s items =
    failed (about "unsupported Redis response prefix " (prefix ∷ []) "")

unfoldable mutual
  pub read_resp : ℕ → Bytes → Reading Reply
  read_resp zero s = stuck
  read_resp (suc rounds) [] = failed (text "EOF")
  read_resp (suc rounds) (prefix ∷ s) =
      read_kind (kind_of prefix) prefix s (λ size rest. read_items rounds size rest)

  -- the elements that are left
  pub read_items : ℕ → ℕ → Bytes → Reading Replies
  read_items zero n s = stuck
  read_items (suc rounds) zero s = got end s
  read_items (suc rounds) (suc n) s = read_resp rounds s ▹▹ λ reply rest.
      read_items rounds n rest ▹▹ λ items after. got (item reply items) after

-- An element takes a byte and two rounds at most, so twice the length is enough.
abbrev pub read : Bytes → Reading Reply
read s = read_resp (suc (2 * length s)) s
