-- ===== src/Queue/Resp/Total.antt =====
-- `readRESP` ends: every element takes a byte at least.
use capstone_project_git_fla.Prelude.{
  ℕ, zero, suc, ◌+◌, ◌*◌, ◌≤◌, ◌^◌, Bool, true, false, Option, none, some, [], ◌∷◌, arith, Bytes,
  length, eqb, ltb, if◌then◌else◌, ℤ, pos, negsuc,
}
use capstone_project_git_fla.Decimal.{atoi}
use capstone_project_git_fla.Errors.{text}
use capstone_project_git_fla.Queue.Resp.{
  Kind, status, failure, integer, bulk, multi, unsupported, kind_of, read_kind, Reply, Replies,
  string, number_or_error, Reading, got, failed, panicked, stuck, ◌▹▹◌, until_newline, trim_cr,
  read_line, take_exactly, read_number, read_exactly, read_bulk, read_array, read_resp, read_items,
  read,
}

-- The reading ends, and leaves at most `n` bytes.
abbrev pub Ends : {A : Type 0} → ℕ → Reading A → Type 0
Ends n (got a rest) = length rest ≤ n
Ends n (failed e) = Unit {0}
Ends n panicked = Unit {0}
Ends n stuck = ⊥

Ends-weaken : {A : Type 0} (m n : ℕ) (r : Reading A) → m ≤ n → Ends m r → Ends n r
Ends-weaken m n (got a rest) h e = omega arith
Ends-weaken m n (failed c) h e = tt
Ends-weaken m n panicked h e = tt
Ends-weaken m n stuck h e = e

Ends-bind :
    {A B : Type 0} (n : ℕ) (r : Reading A) (f : A → Bytes → Reading B)
    → Ends n r
    → ((a : A) (rest : Bytes) → length rest ≤ n → Ends n (f a rest))
    → Ends n (r ▹▹ f)
Ends-bind n (got a rest) f e k = k a rest e
Ends-bind n (failed c) f e k = tt
Ends-bind n panicked f e k = tt
Ends-bind n stuck f e k = e

-- The split leaves at most `n` bytes, if there is one.
Leaves : {A : Type 0} → ℕ → Option (A × Bytes) → Type 0
Leaves n none = Unit {0}
Leaves n (some (a, rest)) = length rest ≤ n

until_newline-Leaves : (s : Bytes) → Leaves (length s) (until_newline s)
unfolding until_newline Leaves
until_newline-Leaves [] = tt
until_newline-Leaves (c ∷ s) = step (eqb c 10) (until_newline s) (until_newline-Leaves s)
  where
    step :
        (b : Bool) (o : Option (Bytes × Bytes))
        → Leaves (length s) o
        → Leaves (suc (length s)) (
            if b
            then some ([], s)
            else elim o [ none ↦ none | some (line, after) ↦ some (c ∷ line, after) ])
    step true o h = omega arith
    step false none h = tt
    step false (some (line, after)) h = omega arith

take_exactly-Leaves : (n : ℕ) (s : Bytes) → Leaves (length s) (take_exactly n s)
unfolding take_exactly Leaves
take_exactly-Leaves zero s = omega arith
take_exactly-Leaves (suc n) [] = tt
take_exactly-Leaves (suc n) (c ∷ s) = step (take_exactly n s) (take_exactly-Leaves n s)
  where
    step :
        (o : Option (Bytes × Bytes))
        → Leaves (length s) o
        → Leaves (suc (length s)) (elim o [ none ↦ none | some (t, rest) ↦ some (c ∷ t, rest) ])
    step none h = tt
    step (some (t, rest)) h = omega arith

read_line-Ends : (s : Bytes) → Ends (length s) (read_line s)
unfolding read_line Leaves
read_line-Ends s = step (until_newline s) (until_newline-Leaves s)
  where
    step :
        (o : Option (Bytes × Bytes))
        → Leaves (length s) o
        → Ends
            (length s)
            (elim o [ none ↦ failed (text "EOF") | some (line, rest) ↦ got (trim_cr line) rest ])
    step none h = tt
    step (some (line, rest)) h = h

read_number-Ends : (s : Bytes) → Ends (length s) (read_number s)
unfolding read_number
read_number-Ends s =
    Ends-bind (length s) (read_line s) _ (read_line-Ends s)
      (λ line rest h. step line (atoi line) rest h)
  where
    step :
        (line : Bytes) (o : Option ℤ) (rest : Bytes)
        → length rest ≤ length s
        → Ends (length s) (number_or_error line rest o)
    step line none rest h = tt
    step line (some n) rest h = h

read_exactly-Ends : (n : ℕ) (s : Bytes) → Ends (length s) (read_exactly n s)
unfolding read_exactly Leaves
read_exactly-Ends n s = step (take_exactly n s) (take_exactly-Leaves n s)
  where
    second :
        (taken rest : Bytes) (o : Option (Bytes × Bytes))
        → length rest ≤ length s
        → Leaves (length rest) o
        → Ends (length s) (elim o [
          | none ↦ failed (text "unexpected EOF")
          | some (line_end, after) ↦ got (string taken) after
        ])
    second taken rest none h k = tt
    second taken rest (some (line_end, after)) h k = omega arith

    step :
        (o : Option (Bytes × Bytes))
        → Leaves (length s) o
        → Ends (length s) (elim o [
          | none ↦ failed (text "unexpected EOF")
          | some (taken, rest) ↦ elim (take_exactly 2 rest) [
            | none ↦ failed (text "unexpected EOF")
            | some (line_end, after) ↦ got (string taken) after
          ]
        ])
    step none h = tt
    step (some (taken, rest)) h =
        second taken rest (take_exactly 2 rest) h (take_exactly-Leaves 2 rest)

read_bulk-Ends : (z : ℤ) (s : Bytes) → Ends (length s) (read_bulk z s)
unfolding read_bulk
read_bulk-Ends (negsuc zero) s = omega arith
read_bulk-Ends (negsuc (suc n)) s = tt
read_bulk-Ends (pos n) s = step (ltb (n + 2) (2 ^ 63)) (read_exactly n s) (read_exactly-Ends n s)
  where
    step :
        (b : Bool) (r : Reading Reply)
        → Ends (length s) r
        → Ends (length s) (if b then r else panicked)
    step true r h = h
    step false r h = tt

read_array-Ends :
    (m : ℕ) (z : ℤ) (s : Bytes) (items : ℕ → Reading Replies)
    → length s ≤ m
    → ((n : ℕ) → Ends m (items n))
    → Ends m (read_array z s items)
unfolding read_array
read_array-Ends m (negsuc zero) s items h k = h
read_array-Ends m (negsuc (suc n)) s items h k = tt
read_array-Ends m (pos n) s items h k = Ends-bind m (items n) _ (k n) (λ replies rest e. e)

read_kind-Ends :
    (kind : Kind) (prefix : ℕ) (s : Bytes) (items : ℕ → Bytes → Reading Replies)
    → ((n : ℕ) (rest : Bytes) → length rest ≤ length s → Ends (length rest) (items n rest))
    → Ends (length s) (read_kind kind prefix s items)
unfolding read_kind
read_kind-Ends status prefix s items k =
    Ends-bind (length s) (read_line s) _ (read_line-Ends s) (λ line rest e. e)
read_kind-Ends failure prefix s items k =
    Ends-bind (length s) (read_line s) _ (read_line-Ends s) (λ line rest e. tt)
read_kind-Ends integer prefix s items k =
    Ends-bind (length s) (read_number s) _ (read_number-Ends s) (λ n rest e. e)
read_kind-Ends bulk prefix s items k =
    Ends-bind (length s) (read_number s) _ (read_number-Ends s) (λ n rest e.
      Ends-weaken (length rest) (length s) (read_bulk n rest) e (read_bulk-Ends n rest))
read_kind-Ends multi prefix s items k =
    Ends-bind (length s) (read_number s) _ (read_number-Ends s) (λ z rest e.
      read_array-Ends (length s) z rest (λ size. items size rest) e
        (λ n. Ends-weaken (length rest) (length s) (items n rest) e (k n rest e)))
read_kind-Ends unsupported prefix s items k = tt

abbrev pub after_prefix : Bytes → ℕ
after_prefix [] = 0
after_prefix (c ∷ s) = length s

mutual
  unfolding read_resp read_items

  read_resp-Ends :
      (rounds : ℕ) (s : Bytes)
      → 2 * length s + 1 ≤ rounds
      → Ends (after_prefix s) (read_resp rounds s)
  read_resp-Ends zero s h = absurd (omega arith)
  read_resp-Ends (suc rounds) [] h = tt
  read_resp-Ends (suc rounds) (prefix ∷ s) h =
      read_kind-Ends (kind_of prefix) prefix s (λ size rest. read_items rounds size rest)
        (λ n rest e. read_items-Ends rounds n rest (omega arith))

  read_items-Ends :
      (rounds n : ℕ) (s : Bytes)
      → 2 * length s + 2 ≤ rounds
      → Ends (length s) (read_items rounds n s)
  read_items-Ends zero n s h = absurd (omega arith)
  read_items-Ends (suc rounds) zero s h = omega arith
  read_items-Ends (suc zero) (suc n) [] h = absurd (omega arith)
  read_items-Ends (suc (suc rounds)) (suc n) [] h = tt
  read_items-Ends (suc rounds) (suc n) (c ∷ s) h =
      Ends-weaken (length s) (suc (length s)) _ (omega arith) (
        Ends-bind (length s) (read_resp rounds (c ∷ s)) _
          (read_resp-Ends rounds (c ∷ s) (omega arith))
          (λ reply rest e.
            Ends-bind (length s) (read_items rounds n rest) _
              (Ends-weaken (length rest) (length s) (read_items rounds n rest) e
                (read_items-Ends rounds n rest (omega arith)))
              (λ items after k. k)))

-- Reading a reply always ends, whatever bytes arrive: with a value, an error or a panic. A value leaves fewer bytes than there were.
pub read-Ends : (s : Bytes) → Ends (after_prefix s) (read s)
read-Ends s = read_resp-Ends (suc (2 * length s)) s (omega arith)
