-- ===== src/Queue/Broker.antt =====
-- The operations of `RedisBroker` (backend/internal/queue/redis.go) over its `command`, with the
-- JSON encoding of a job as a parameter. A job is an option: none is Go's zero job.
pub mod Bounded
pub mod Delivered
pub mod Entries
use capstone_project_git_fla.Queue.Messages.{
  Message, Received, nothing, received, broken, unreadable, string_of, number_of, items_of, is_text,
  job_field, decode_job, decode_fields, decode_stream_message, claimed_message, first_of_stream,
  first_of_reply,
}
use capstone_project_git_fla.Prelude.{
  ℕ, Bool, true, false, not, ◌&&◌, ◌||◌, Option, none, some, List, [], ◌∷◌, ◌++◌, Bytes, codes,
  ◌==◌, is_empty, length, take, leb, if◌then◌else◌, ℤ, pos, negsuc, leb_ℤ,
}
use capstone_project_git_fla.Text.{has_infix}
use capstone_project_git_fla.Decimal.Format.{itoa}
use capstone_project_git_fla.Domain.Agent.{AgentJob}
use capstone_project_git_fla.Errors.{Err, text, wrapped, Result, ok, err, message}
use capstone_project_git_fla.Effect.{Step, ◌>>=◌, ◌>>◌, give, fail, from, inspect}
use capstone_project_git_fla.Queue.Resp.{Reply, Replies, nil, number, string, array, end, item}
use capstone_project_git_fla.Queue.Connection.{RedisBroker}

abbrev pub queue_full : Err
queue_full = text "agent task queue is full"

-- `limit` of DeadLetterEntries
abbrev pub entry_limit : ℤ → ℤ
entry_limit limit = if leb_ℤ limit (pos 0) || not (leb_ℤ limit (pos 100)) then pos 20 else limit

abbrev pub range_request : RedisBroker → ℤ → List Bytes
range_request broker count =
    codes "XREVRANGE" ∷ broker.dead_letter ∷ codes "+" ∷ codes "-" ∷ codes "COUNT" ∷ itoa count ∷ []

-- `task` is the id and the type of the job.
pub record DeadLetterEntry : Type 0 where
  pub id : Bytes
  pub task : Option (Bytes × Bytes)
  pub error : Bytes

unfoldable pub truncate_cause : Bytes → Bytes
truncate_cause cause =
    if leb (length cause) 300 then cause else take 300 cause ++ 0xe2 ∷ 0x80 ∷ 0xa6 ∷ []

module _ (identify : Bytes → Option (Bytes × Bytes)) where
  abbrev with_task : DeadLetterEntry → Option (Bytes × Bytes) → DeadLetterEntry
  with_task entry none = entry
  with_task entry (some task) = record entry { task = some task }

  -- `identify` decodes a job as far as the entry needs it.
  with_field : DeadLetterEntry → Bytes → Bytes → DeadLetterEntry
  with_field entry name value =
      if name == codes "error"
      then record entry { error = truncate_cause value }
      else if name == codes "job"
      then with_task entry (identify value)
      else entry

  unfoldable pub entry_fields : DeadLetterEntry → Replies → DeadLetterEntry
  unfolding with_field
  entry_fields entry (item name (item value rest)) =
      entry_fields (with_field entry (string_of name) (string_of value)) rest
  entry_fields entry _ = entry

  -- an element that is no pair is skipped
  unfoldable pub decode_entries : Replies → List DeadLetterEntry
  decode_entries end = []
  decode_entries (item (array (item id (item fields rest))) others) =
      entry_fields (record { id = string_of id; task = none; error = [] }) (items_of fields)
      ∷ decode_entries others
  decode_entries (item skipped others) = decode_entries others

module _ {S : Type 0} (broker : RedisBroker) (command : List Bytes → Step S Reply)
    (marshal : Option AgentJob → Result Bytes) (unmarshal : Bytes → Result AgentJob) where
  abbrev pong : Reply → Step S (Unit {0})
  pong reply =
      if is_text (codes "PONG") reply then give tt else fail (text "unexpected Redis PING response")

  unfoldable pub ping : Step S (Unit {0})
  ping = command (codes "PING" ∷ []) >>= pong

  abbrev pub is_full : Reply → Bool
  is_full (number count) = leb_ℤ broker.max_length count
  is_full _ = false

  unfoldable pub publish : AgentJob → Step S (Unit {0})
  publish job = do
    count ← command (codes "XLEN" ∷ broker.stream ∷ [])
    from (if is_full count then err queue_full else ok tt)
    payload ← from (marshal (some job))
    command (codes "XADD" ∷ broker.stream ∷ codes "*" ∷ codes "job" ∷ payload ∷ [])
    give tt

  abbrev unless_busy : Result Reply → Step S (Unit {0})
  unless_busy (ok reply) = give tt
  unless_busy (err e) = if has_infix (message e) (codes "BUSYGROUP") then give tt else fail e

  unfoldable pub ensure_group : Step S (Unit {0})
  ensure_group =
      inspect
        (command (
          codes "XGROUP"
          ∷ codes "CREATE"
          ∷ broker.stream
          ∷ broker.group
          ∷ codes "0"
          ∷ codes "MKSTREAM"
          ∷ []))
        unless_busy

  abbrev pub read_claim : Bytes → List Bytes
  read_claim consumer =
      codes "XAUTOCLAIM"
      ∷ broker.stream
      ∷ broker.group
      ∷ consumer
      ∷ codes "60000"
      ∷ codes "0-0"
      ∷ codes "COUNT"
      ∷ codes "1"
      ∷ []

  abbrev pub read_group : Bytes → List Bytes
  read_group consumer =
      codes "XREADGROUP"
      ∷ codes "GROUP"
      ∷ broker.group
      ∷ consumer
      ∷ codes "COUNT"
      ∷ codes "1"
      ∷ codes "BLOCK"
      ∷ codes "1000"
      ∷ codes "STREAMS"
      ∷ broker.stream
      ∷ codes ">"
      ∷ []

  abbrev received_of : Result Reply → Received
  received_of (ok reply) = first_of_reply unmarshal reply
  received_of (err e) = unreadable e

  read_new : Bytes → S → Received × S
  read_new consumer s =
      let (result, reached) = command (read_group consumer) s in (received_of result, reached)

  read_claimed : Bytes → Result Reply → S → Received × S
  unfolding read_new
  read_claimed consumer (err e) s = (unreadable e, s)
  read_claimed consumer (ok reply) s = elim (claimed_message unmarshal reply) [
    | some first ↦ (decode_stream_message unmarshal first, s)
    | none ↦ read_new consumer s
  ]

  unfoldable pub read_message : Bytes → S → Received × S
  unfolding read_claimed
  read_message consumer s =
      let (result, reached) = command (read_claim consumer) s in
      read_claimed consumer result reached

  unfoldable pub ack : Bytes → Step S (Unit {0})
  ack id = do
    command (codes "XACK" ∷ broker.stream ∷ broker.group ∷ id ∷ [])
    command (codes "XDEL" ∷ broker.stream ∷ id ∷ [])
    give tt

  unfoldable pub dead_letter : Message → Err → Step S (Unit {0})
  dead_letter failed cause = do
    payload ← from (marshal failed.job)
    command (
        codes "XADD"
        ∷ broker.dead_letter
        ∷ codes "*"
        ∷ codes "original_id"
        ∷ failed.id
        ∷ codes "error"
        ∷ message cause
        ∷ codes "job"
        ∷ payload
        ∷ [])
    give tt

  unfoldable pub stream_length : Bytes → Step S ℤ
  stream_length stream = do reply ← command (codes "XLEN" ∷ stream ∷ []); give (number_of reply)

  first_number : Replies → ℤ
  first_number end = pos 0
  first_number (item first others) = number_of first

  pending_of : Result Reply → Step S ℤ
  unfolding first_number
  pending_of (ok reply) = give (first_number (items_of reply))
  pending_of (err e) = if has_infix (message e) (codes "NOGROUP") then give (pos 0) else fail e

  unfoldable pub pending_count : Step S ℤ
  unfolding pending_of
  pending_count =
      inspect (command (codes "XPENDING" ∷ broker.stream ∷ broker.group ∷ [])) pending_of

  -- the stream's length, the pending messages and the dead letters' number
  unfoldable pub depths : Step S (ℤ × ℤ × ℤ)
  depths = do
    stream ← stream_length broker.stream
    dead ← stream_length broker.dead_letter
    pending ← pending_count
    give (stream, pending, dead)

  unfoldable pub dead_letter_entries :
      (Bytes → Option (Bytes × Bytes)) → ℤ → Step S (List DeadLetterEntry)
  dead_letter_entries identify limit = do
    reply ← command (range_request broker (entry_limit limit))
    give (decode_entries identify (items_of reply))
