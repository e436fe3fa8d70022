-- ===== src/Queue/Samples.antt =====
-- A Redis server that answers three requests, and the theorems on the queue there.
use Prim.Native.Nat.{◌≤◌}
use capstone_project_git_fla.Prelude.{
  ℕ, Option, none, some, List, [], ◌∷◌, ◌++◌, ◌≡◌, inl, inr, refl, arith, Bytes, codes, length,
  ◌==◌, if◌then◌else◌, pos,
}
use capstone_project_git_fla.Domain.{initial_plan}
use capstone_project_git_fla.Domain.Agent.{AgentJob, no_plan_request, no_code_request}
use capstone_project_git_fla.Decimal.Format.{format}
use capstone_project_git_fla.Errors.{text, Result, ok, err}
use capstone_project_git_fla.Effect.{Step}
use capstone_project_git_fla.Queue.Resp.{
  Reply, nil, number, string, array, end, item, got, panicked, write_command, read,
}
use capstone_project_git_fla.Queue.Resp.Total.{Ends, read-Ends}
use capstone_project_git_fla.Queue.Resp.RoundTrip.{strings, read-write_command}
use capstone_project_git_fla.Queue.Resp.Negative.{read-panicked}
use capstone_project_git_fla.Queue.Connection.{RedisBroker}
use capstone_project_git_fla.Queue.Broker.{
  publish, read_message, dead_letter_entries, range_request,
}
use capstone_project_git_fla.Queue.Messages.{received}
use capstone_project_git_fla.Queue.Broker.Bounded.{StreamLaws, Bounded, publish-Bounded}
use capstone_project_git_fla.Queue.Broker.Delivered.{
  entry_of, claim_of, stream_of, read_message-publish,
}
use capstone_project_git_fla.Queue.Broker.Entries.{FoundBy, dead_letter_entries-FoundBy}

read-Ends_example : Ends 4 (read (codes "*2\r\n:"))
read-Ends_example = read-Ends (codes "*2\r\n:")

abbrev two_arguments : List Bytes
two_arguments = codes "GET" ∷ codes "a\r\n" ∷ []

read-write_command_example :
    read (write_command two_arguments ++ codes "+OK")
    ≡ got (array (strings two_arguments)) (codes "+OK")
read-write_command_example =
    read-write_command two_arguments (codes "+OK") (omega arith, (omega arith, tt)) (omega arith)

read-panicked_example : read (b'$' ∷ b'-' ∷ format 2 ++ 13 ∷ 10 ∷ []) ≡ panicked
read-panicked_example = read-panicked b'$' 2 [] (inl refl) (omega arith) (omega arith)

abbrev sample_broker : RedisBroker
sample_broker = record {
  address = codes "redis:6379";
  username = [];
  password = [];
  stream = codes "tasks";
  group = codes "workers";
  dead_letter = codes "tasks:dead-letter";
  database = pos 0;
  max_length = pos 2;
}

abbrev first_of : List Bytes → Reply
first_of [] = nil
first_of (payload ∷ payloads) =
    stream_of (codes "tasks") (item (entry_of (codes "1-0") payload) end)

abbrev add : List Bytes → Step (List Bytes) Reply
add (stream ∷ id ∷ field ∷ payload ∷ []) entries =
    (ok (string (codes "1-0")), entries ++ payload ∷ [])
add arguments entries = (err (text "ERR wrong number of arguments"), entries)

abbrev server : List Bytes → Step (List Bytes) Reply
server [] entries = (err (text "ERR no command"), entries)
server (name ∷ arguments) entries =
    if name == codes "XLEN"
    then (ok (number (pos (length entries))), entries)
    else if name == codes "XADD"
    then add arguments entries
    else if name == codes "XAUTOCLAIM"
    then (ok (claim_of (codes "0-0") end end), entries)
    else (ok (first_of entries), entries)

abbrev sample_job : AgentJob
sample_job = record {
  task_id = codes "t1";
  session_id = codes "s1";
  kind = initial_plan;
  attempt = 0;
  request = no_plan_request;
  code_generation_request = no_code_request;
}

-- an encoding of the task's id only
abbrev marshal : Option AgentJob → Result Bytes
marshal none = ok []
marshal (some job) = ok job.task_id

abbrev unmarshal : Bytes → Result AgentJob
unmarshal payload = ok (record sample_job { task_id = payload })

server-StreamLaws : StreamLaws sample_broker server (λ entries. entries)
unfolding ◌==◌
server-StreamLaws = record { counts = λ s. inl refl; appends = λ payload s. refl }

publish-Bounded_example :
    Bounded sample_broker server marshal unmarshal
      (λ entries. entries)
      server-StreamLaws
      2
      (marshal (some sample_job))
      (codes "t0" ∷ [])
      (publish sample_broker server marshal unmarshal sample_job (codes "t0" ∷ []))
publish-Bounded_example =
    publish-Bounded sample_broker server marshal unmarshal (λ entries. entries) server-StreamLaws 2
      sample_job (codes "t0" ∷ []) refl (omega arith)

read_message-publish_example :
    read_message sample_broker server marshal unmarshal (codes "w-1") (codes "t1" ∷ [])
    ≡ (received (codes "1-0") sample_job, codes "t1" ∷ [])
unfolding ◌==◌
read_message-publish_example =
    read_message-publish sample_broker server marshal unmarshal (codes "w-1") (codes "0-0")
      (codes "1-0") (codes "t1") sample_job end end (codes "t1" ∷ []) (codes "t1" ∷ [])
      (codes "t1" ∷ []) (λ e. cc) refl (inr (refl, refl))

dead_letter_entries-FoundBy_example :
    (n : ℕ) × (1 ≤ n)
    × (n ≤ 100)
    × FoundBy
        (server (range_request sample_broker (pos n)) (codes "t1" ∷ [])).0
        (dead_letter_entries sample_broker server marshal unmarshal
          (λ s. none)
          (pos 0)
          (codes "t1" ∷ [])).0
    × ((dead_letter_entries sample_broker server marshal unmarshal
          (λ s. none)
          (pos 0)
          (codes "t1" ∷ [])).1
        ≡ (server (range_request sample_broker (pos n)) (codes "t1" ∷ [])).1)
dead_letter_entries-FoundBy_example =
    dead_letter_entries-FoundBy sample_broker server marshal unmarshal (λ s. none) (pos 0)
      (codes "t1" ∷ [])
