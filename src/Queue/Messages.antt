-- ===== src/Queue/Messages.antt =====
-- The messages of the stream (backend/internal/queue/queue.go, and `decodeStreamMessage` in
-- backend/internal/queue/redis.go), and the shapes of Redis' answers with them. JSON is a parameter.
use capstone_project_git_fla.Prelude.{
  Bool, false, Option, none, some, [], Bytes, codes, ◌==◌, is_empty, if◌then◌else◌, ℤ, pos,
}
use capstone_project_git_fla.Domain.Agent.{AgentJob}
use capstone_project_git_fla.Errors.{Err, text, wrapped, Result, ok, err}
use capstone_project_git_fla.Queue.Resp.{Reply, Replies, nil, number, string, array, end, item}

-- queue.go: `Message`
pub record Message : Type 0 where
  pub id : Bytes
  pub job : Option AgentJob

-- What `Read` returns: no message, a message, an error with a message that has an id only, or an
-- error.
pub data Received : Type 0 where
  nothing : Received
  received : Bytes → AgentJob → Received
  broken : Bytes → Err → Received
  unreadable : Err → Received

-- The type assertions: an absent or another type is the zero value.
abbrev pub string_of : Reply → Bytes
string_of (string s) = s
string_of _ = []

abbrev pub number_of : Reply → ℤ
number_of (number n) = n
number_of _ = pos 0

abbrev pub items_of : Reply → Replies
items_of (array items) = items
items_of _ = end

abbrev pub is_text : Bytes → Reply → Bool
is_text name (string s) = s == name
is_text name _ = false

-- The value of the last field "job"; `payload` is what was found before.
unfoldable pub job_field : Bytes → Replies → Bytes
job_field payload (item name (item value rest)) =
    job_field (if is_text (codes "job") name then string_of value else payload) rest
job_field payload _ = payload

module _ (unmarshal : Bytes → Result AgentJob) where
  unfoldable pub decode_job : Bytes → Result AgentJob → Received
  decode_job id (ok job) = received id job
  decode_job id (err e) = broken id (wrapped "decode Redis job: " e)

  unfoldable pub decode_fields : Bytes → Reply → Received
  unfolding decode_job
  decode_fields id (array fields) =
      let payload = job_field [] fields in
      if is_empty payload
      then broken id (text "Redis message does not contain job payload")
      else decode_job id (unmarshal payload)
  decode_fields id _ = unreadable (text "invalid Redis message fields")

  unfoldable pub decode_stream_message : Reply → Received
  unfolding decode_fields
  decode_stream_message (array (item (string id) (item fields end))) = decode_fields id fields
  decode_stream_message (array (item other (item fields end))) =
      unreadable (text "invalid Redis message id")
  decode_stream_message other = unreadable (text "invalid Redis message")

  -- the message that `XAUTOCLAIM` hands over, if there is one
  unfoldable pub claimed_message : Reply → Option Reply
  claimed_message (array (item cursor (item (array (item first others)) rest))) = some first
  claimed_message _ = none

  -- the messages of one stream
  unfoldable pub first_of_stream : Reply → Received
  unfolding decode_stream_message
  first_of_stream (array (item stream (item (array (item first others)) end))) =
      decode_stream_message first
  first_of_stream (array (item stream (item other end))) = nothing
  first_of_stream other = unreadable (text "invalid Redis stream entry")

  unfoldable pub first_of_reply : Reply → Received
  unfolding first_of_stream
  first_of_reply nil = nothing
  first_of_reply (array (item stream streams)) = first_of_stream stream
  first_of_reply other = unreadable (text "invalid Redis stream response")
