-- ===== src/Queue/Broker/Delivered.antt =====
-- `Read`: what comes back of a published job.
use capstone_project_git_fla.Prelude.{
  Option, List, [], ◌∷◌, Bytes, codes, ◌≡◌, ◌≢◌, ◌⊎◌, inl, inr, refl, ◌==◌,
}
use capstone_project_git_fla.Domain.Agent.{AgentJob}
use capstone_project_git_fla.Errors.{Result, ok}
use capstone_project_git_fla.Effect.{Step}
use capstone_project_git_fla.Queue.Resp.{Reply, Replies, string, array, end, item}
use capstone_project_git_fla.Queue.Connection.{RedisBroker}
use capstone_project_git_fla.Queue.Broker.{
  read_claim, read_group, read_claimed, read_new, read_message,
}
use capstone_project_git_fla.Queue.Messages.{
  received, decode_job, decode_fields, decode_stream_message, job_field, first_of_stream,
  first_of_reply, claimed_message,
}

-- the entry that XADD of `Publish` makes, as Redis gives it back
abbrev pub entry_of : Bytes → Bytes → Reply
entry_of id payload =
    array (
      item (string id) (item (array (item (string (codes "job")) (item (string payload) end))) end))

-- the answer to XAUTOCLAIM with the messages that were claimed
abbrev pub claim_of : Bytes → Replies → Replies → Reply
claim_of cursor messages deleted = array (item (string cursor) (item (array messages) deleted))

-- the answer to XREADGROUP of one stream
abbrev pub stream_of : Bytes → Replies → Reply
stream_of stream messages =
    array (item (array (item (string stream) (item (array messages) end))) end)

module _ (unmarshal : Bytes → Result AgentJob) where
  decode_stream_message-entry_of :
      (id payload : Bytes) (job : AgentJob)
      → payload ≢ []
      → unmarshal payload ≡ ok job
      → decode_stream_message unmarshal (entry_of id payload) ≡ received id job
  unfolding decode_stream_message decode_fields decode_job job_field ◌==◌
  decode_stream_message-entry_of id [] job n e = absurd (n refl)
  decode_stream_message-entry_of id (c ∷ payload) job n e = rw (decode_job, e) refl

module _ {S : Type 0} (broker : RedisBroker) (command : List Bytes → Step S Reply)
    (marshal : Option AgentJob → Result Bytes) (unmarshal : Bytes → Result AgentJob) where
  -- A job whose encoding can be decoded is what `Read` returns, with the id of its entry: the one that XAUTOCLAIM hands over, and then XREADGROUP is not sent, or else the one that XREADGROUP delivers.
  pub read_message-publish :
      (consumer cursor id payload : Bytes) (job : AgentJob) (others deleted : Replies)
      (s claimed delivered : S)
      → payload ≢ []
      → unmarshal payload ≡ ok job
      → (command (read_claim broker command marshal unmarshal consumer) s
          ≡ (ok (claim_of cursor (item (entry_of id payload) others) deleted), delivered))
        ⊎ ((command (read_claim broker command marshal unmarshal consumer) s
              ≡ (ok (claim_of cursor end deleted), claimed))
            × (command (read_group broker command marshal unmarshal consumer) claimed
                ≡ (ok (stream_of broker.stream (item (entry_of id payload) others)), delivered)))
      → read_message broker command marshal unmarshal consumer s ≡ (received id job, delivered)
  unfolding read_message read_claimed read_new claimed_message first_of_reply first_of_stream
  read_message-publish consumer cursor id payload job others deleted s claimed delivered n e
        (inl h) =
      rw (read_message, h, decode_stream_message-entry_of unmarshal id payload job n e) refl
  read_message-publish consumer cursor id payload job others deleted s claimed delivered n e
        (inr (h, k)) =
      rw (read_message, h, k, decode_stream_message-entry_of unmarshal id payload job n e) refl
