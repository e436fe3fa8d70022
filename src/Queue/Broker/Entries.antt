-- ===== src/Queue/Broker/Entries.antt =====
-- `DeadLetterEntries`: how much of a dead letter leaves it.

use capstone_project_git_fla.Prelude.{
  ℕ, ◌≤◌, Bool, true, false, not, ◌||◌, Option, none, some, List, [], ◌∷◌, ◌++◌, ◌≡◌, ◌==◌, refl,
  arith, Bytes, codes, length, leb, if◌then◌else◌, take, length-take, length-append, ℤ, pos, negsuc,
  All,
}
use capstone_project_git_fla.Domain.Agent.{AgentJob}
use capstone_project_git_fla.Errors.{Result, ok, err}
use capstone_project_git_fla.Effect.{Step, continue_with, give}
use capstone_project_git_fla.Queue.Connection.{RedisBroker}
use capstone_project_git_fla.Queue.Resp.{Reply, Replies, nil, number, string, array, end, item}
use capstone_project_git_fla.Queue.Broker.{
  DeadLetterEntry, range_request, dead_letter_entries, truncate_cause, with_task, with_field,
  entry_fields, decode_entries, entry_limit,
}
use capstone_project_git_fla.Queue.Messages.{string_of, items_of}

-- 300 bytes and the three of the ellipsis
abbrev pub IsTruncated : DeadLetterEntry → Type 0
IsTruncated entry = length entry.error ≤ 303

length-truncate_cause : (cause : Bytes) → length (truncate_cause cause) ≤ 303
unfolding truncate_cause
length-truncate_cause cause = step (leb (length cause) 300) refl
  where
    step :
        (b : Bool)
        → leb (length cause) 300 ≡ b
        → length (if b then cause else take 300 cause ++ 0xe2 ∷ 0x80 ∷ 0xa6 ∷ []) ≤ 303
    step true e = ground arith
    step false e =
        omega
          (arith, length-take 300 cause, length-append (take 300 cause) (0xe2 ∷ 0x80 ∷ 0xa6 ∷ []))

module _ (identify : Bytes → Option (Bytes × Bytes)) where
  with_task-IsTruncated :
      (entry : DeadLetterEntry) (task : Option (Bytes × Bytes))
      → IsTruncated entry
      → IsTruncated (with_task identify entry task)
  with_task-IsTruncated entry none h = h
  with_task-IsTruncated entry (some task) h = h

  with_field-IsTruncated :
      (entry : DeadLetterEntry) (name value : Bytes)
      → IsTruncated entry
      → IsTruncated (with_field identify entry name value)
  unfolding with_field
  with_field-IsTruncated entry name value h = step (name == codes "error") (name == codes "job")
    where
      step :
          (b c : Bool)
          → IsTruncated (
              if b
              then record entry { error = truncate_cause value }
              else if c
              then with_task identify entry (identify value)
              else entry)
      step true c = length-truncate_cause value
      step false true = with_task-IsTruncated entry (identify value) h
      step false false = h

  entry_fields-IsTruncated :
      (entry : DeadLetterEntry) (fields : Replies)
      → IsTruncated entry
      → IsTruncated (entry_fields identify entry fields)
  unfolding entry_fields
  entry_fields-IsTruncated entry end h = h
  entry_fields-IsTruncated entry (item name end) h = h
  entry_fields-IsTruncated entry (item name (item value rest)) h =
      entry_fields-IsTruncated (with_field identify entry (string_of name) (string_of value)) rest
        (with_field-IsTruncated entry (string_of name) (string_of value) h)

  decode_entries-IsTruncated :
      (entries : Replies) → All IsTruncated (decode_entries identify entries)
  unfolding decode_entries
  decode_entries-IsTruncated end = tt
  decode_entries-IsTruncated (item (array (item id (item fields rest))) others) = (
    entry_fields-IsTruncated (record { id = string_of id; task = none; error = [] })
        (items_of fields) (omega arith),
    decode_entries-IsTruncated others,
  )
  decode_entries-IsTruncated (item (array (item id end)) others) = decode_entries-IsTruncated others
  decode_entries-IsTruncated (item (array end) others) = decode_entries-IsTruncated others
  decode_entries-IsTruncated (item nil others) = decode_entries-IsTruncated others
  decode_entries-IsTruncated (item (number n) others) = decode_entries-IsTruncated others
  decode_entries-IsTruncated (item (string s) others) = decode_entries-IsTruncated others

limit_bounds : (limit : ℤ) → (n : ℕ) × (entry_limit limit ≡ pos n) × (1 ≤ n) × (n ≤ 100)
limit_bounds (negsuc n) = (20, refl, omega arith, omega arith)
limit_bounds (pos n) = step (leb n 0) (leb n 100) refl refl
  where
    step :
        (b c : Bool)
        → leb n 0 ≡ b
        → leb n 100 ≡ c
        → (m : ℕ) × ((if b || not c then pos 20 else pos n) ≡ pos m) × (1 ≤ m) × (m ≤ 100)
    step true c e k = (20, refl, omega arith, omega arith)
    step false true e k = (n, refl, ground arith, ground arith)
    step false false e k = (20, refl, omega arith, omega arith)

-- what the theorem says of the outcome, by the answer to XREVRANGE
abbrev pub FoundBy : Result Reply → Result (List DeadLetterEntry) → Type 0
FoundBy (ok reply) (ok found) = All IsTruncated found
FoundBy (ok reply) (err e) = ⊥
FoundBy (err e) (ok found) = ⊥
FoundBy (err e) (err c) = e ≡ c

module _ {S : Type 0} (broker : RedisBroker) (command : List Bytes → Step S Reply)
    (marshal : Option AgentJob → Result Bytes) (unmarshal : Bytes → Result AgentJob) where
  -- Whatever limit it is given, `DeadLetterEntries` sends the one request for `n` entries, `n` from 1 to 100; it fails just when that fails and with the same error, and no entry that it returns has an error text of more than 303 bytes.
  pub dead_letter_entries-FoundBy :
      (identify : Bytes → Option (Bytes × Bytes)) (limit : ℤ) (s : S)
      → (n : ℕ) × (1 ≤ n)
        × (n ≤ 100)
        × FoundBy
            (command (range_request broker (pos n)) s).0
            (dead_letter_entries broker command marshal unmarshal identify limit s).0
        × ((dead_letter_entries broker command marshal unmarshal identify limit s).1
            ≡ (command (range_request broker (pos n)) s).1)
  unfolding dead_letter_entries
  dead_letter_entries-FoundBy identify limit s =
      let (n, e, low, high) = limit_bounds limit in
      (
        n,
        low,
        high,
        rw e (
            found (command (range_request broker (pos n)) s).0
              (command (range_request broker (pos n)) s).1),
        rw e (reached (command (range_request broker (pos n)) s)),
      )
    where
      found :
          (answer : Result Reply) (t : S)
          → FoundBy answer
              (continue_with answer (λ reply. give (decode_entries identify (items_of reply))) t).0
      found (ok reply) t = decode_entries-IsTruncated identify (items_of reply)
      found (err e) t = refl

      reached :
          (answer : Result Reply × S)
          → (continue_with answer.0
              (λ reply. give (decode_entries identify (items_of reply)))
              answer.1).1
            ≡ answer.1
      reached (ok reply, t) = refl
      reached (err e, t) = refl
