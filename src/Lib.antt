-- ===== src/Lib.antt =====
-- GitFlame CodePilot, the backend (backend/internal): an issue is analysed by the Agent Engine into a
-- plan, a user approves the plan, and the Agent Engine turns it into file operations.
--
-- The parts and their models:
-- - Paths (backend/internal/service/plan_validation.go): `normalize_plan_path` and `safe_plan_path` are
--   normalizePlanPath and safePlanPath, with Go's path.Clean as Paths/Clean.
-- - Plan (backend/internal/service/plan_validation.go): `validate_plan` is ValidatePlan. Its regular expressions run on
--   the matcher of Regex, by Go's rules of the leftmost match and of greedy and lazy choices.
-- - Generated (backend/internal/service/workflow.go): `normalize_generated_files`, the filters and
--   `validate_generated_files`, which the code generation task applies in this order.
-- - Config (backend/internal/service/config.go): `parse_ai_config` is ParseAIConfig, over the value that the YAML
--   library gives; Decimal is strconv.Atoi.
-- - Store (backend/internal/repository/memory.go): `MemoryStore` is the store's maps; one function per method, which
--   takes the time and the drawn id and returns the new store. Store/Cards has NormalizeRecommendations
--   (backend/internal/repository/recommendations.go), Store/Events the webhook events and Store/Recent what operators see.
-- - Workflow (backend/internal/service/workflow.go): one action per method of Workflow. An action is a function from a
--   world (the store, the draws of ids and times, the jobs published and the goroutines started) to a
--   result and a world. Workflow/Commands has what users call, Workflow/Execute what the worker calls.
--   Workflow/Sound has the sequences of calls.
-- - Queue (backend/internal/queue/redis.go): Queue/Resp has writeCommand and readRESP on lists of bytes, Queue/Connection
--   NewRedisBroker and `command`, Queue/Messages decodeStreamMessage, and Queue/Broker the operations of RedisBroker, one function each, over a
--   `command` that is a step on the state of Redis (Effect).
-- - Worker (backend/cmd/agent-worker/main.go): `process`, and `turn` for a round of the loop in main, over a
--   record for each of the interfaces taskExecutor and Broker. Worker/Calls is the state machine of its calls.
-- - Engine (backend/internal/agent/client.go): `generate_plan`, `generate_files` and `ready`.
-- - Webhooks (backend/internal/httpapi/webhooks.go): the secrets, and `receive_webhook`, the handler of deliveries;
--   Webhooks/Managing has those that manage a registration, and authenticate (backend/internal/httpapi/auth.go).
-- - Security (backend/internal/security/credentials.go): the cipher of credentials and the session tokens.
-- - Metrics (backend/internal/observability/metrics.go): the counters, gauges and histograms and their text.
-- - IndexJobs (backend/internal/httpapi/repository_index_jobs.go): the registry of indexing jobs.
-- - Domain (backend/internal/domain/domain.go) has the data, Errors the errors, Prelude and Text what is shared.
--
-- How they interact: Workflow reads the configuration by Config, checks plans by Plan and responses by
-- Generated, both of which use Paths, and keeps sessions and tasks in Store. The broker, the Agent
-- Engine, the clock, the ids, the YAML library and the printing of usages are fields of the
-- environment `Env`; Worker runs on any executor and broker, and Worker/Unpublished on the methods of Workflow.
-- The client of the Agent Engine has HTTP and JSON as the fields of `Libraries`, Webhooks and Security
-- have the cryptographic functions so, and Metrics the operations of a float64; hashing, lower case, fields and the printing of a number are fields of `Codec`.
--
-- Strings are lists of bytes and a Go map is an association list, in an arbitrary order. What makes a plan
-- valid, and what a delivery comes to, is written out in modules of its own: Plan/Valid, and
-- Webhooks/Authentic with Webhooks/Outcomes. A session's
-- revision wraps at 64 bits. Every loop is a structural recursion; the matcher's repetitions run on
-- the length of the rest of the text, which each round but an empty one makes shorter, and the reader of
-- replies on twice the number of bytes, since a reply takes a byte and two rounds at most. A method holds
-- its lock from beginning to end, and is one step; the Agent Engine's answer separates the two halves
-- of a task, which are two actions. A dereference of nil and an index out of range are errors whose
-- text begins with "panic".
--
-- Not modelled: the HTTP handlers but those of webhooks, the processing of a webhook event, the clients of GitFlame, of the index and of
-- recommendations, the Postgres store, the collectors of metrics, logs and the reading of the environment; `%q`
-- quotes without escapes; deadlines; the redelivery of messages that are not acknowledged.
pub mod Prelude
pub mod Text
pub mod Paths
pub mod Domain
pub mod Errors
pub mod Effect
pub mod Regex
pub mod Plan
pub mod Decimal
pub mod Config
pub mod IndexJobs
pub mod Queue
pub mod Worker
pub mod Engine
pub mod Webhooks
pub mod Security
pub mod Metrics
pub mod Store
pub mod Workflow
pub mod Generated
