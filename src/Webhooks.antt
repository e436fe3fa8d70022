-- ===== src/Webhooks.antt =====
-- Webhooks (backend/internal/httpapi/webhooks.go): the secrets and the signatures, what is read of a
-- delivery, and the handler `receiveGitFlameWebhook` up to the goroutine that it starts.
pub mod Secrets
pub mod Authentic
pub mod Outcomes
pub mod Receiving
pub mod Redelivery
pub mod Managing
mod Samples
use capstone_project_git_fla.Prelude.{
  ℕ, ◌≤◌, Bool, true, false, not, ◌&&◌, ◌||◌, Option, none, some, List, [], ◌∷◌, ◌++◌, Bytes, codes,
  ◌==◌, is_empty, eqb, length, drop, if◌then◌else◌, ℤ, pos,
}
use capstone_project_git_fla.Text.{trim_space, is_blank, has_prefix, has_infix, trim_prefix, split}
use capstone_project_git_fla.Domain.Json.{
  Json, null, boolean, number, string, array, object, Members, get,
}
use capstone_project_git_fla.Domain.Accounts.{GitFlameWebhookRegistration, GitFlameWebhookEvent}
use capstone_project_git_fla.Errors.{Err, Result, ok, err, message}
use capstone_project_git_fla.Store.{MemoryStore}
use capstone_project_git_fla.Store.Connections.{webhook, connection}
use capstone_project_git_fla.Store.Events.{save_event, webhook_events}

-- crypto/sha256, crypto/hmac with it, encoding/base64's RawURLEncoding, encoding/hex, and
-- strings.ToLower; `decode_object` is encoding/json into a nil map, which takes an object, and also
-- null, that leaves the map without members
pub record Libraries : Type 0 where
  pub sum256 : Bytes → Bytes
  pub hmac256 : Bytes → Bytes → Bytes
  pub base64 : Bytes → Bytes
  pub encode_hex : Bytes → Bytes
  pub decode_hex : Bytes → Option Bytes
  pub decode_object : Bytes → Result Members
  pub to_lower : Bytes → Bytes

-- `r.Header.Get` and the body, which is none if it is longer than 2 MiB or cannot be read
pub record Request : Type 0 where
  pub header : Bytes → Bytes
  pub body : Option Bytes

-- the member at a path of keys; nil if there is none
unfoldable pub value_at : List Bytes → Json → Json
value_at [] current = current
value_at (part ∷ parts) (object members) = value_at parts (get part members)
value_at (part ∷ parts) current = null

unfoldable pub first_webhook_value : Members → Bytes → Json
first_webhook_value payload path = value_at (split b'.' path) (object payload)

-- what a value gives, if it ends the search
unfoldable pub text_of : Json → Option Bytes
text_of (string typed) = if is_blank typed then none else some (trim_space typed)
text_of (number typed) = some typed
text_of other = none

unfoldable pub first_webhook_string : Members → List Bytes → Bytes
first_webhook_string payload [] = []
first_webhook_string payload (path ∷ paths) =
    let rest = first_webhook_string payload paths in
    elim (text_of (first_webhook_value payload path)) [ none ↦ rest | some value ↦ value ]

unfoldable pub first_non_empty_header : (Bytes → Bytes) → List Bytes → Bytes
first_non_empty_header header [] = []
first_non_empty_header header (name ∷ names) =
    let rest = first_non_empty_header header names in
    let value = trim_space (header name) in if is_empty value then rest else value

abbrev pub is_nil : Json → Bool
is_nil null = true
is_nil _ = false

module _ (libraries : Libraries) where
  unfoldable pub derive_webhook_secret : Bytes → Bytes → Bytes → Bytes
  derive_webhook_secret master_key webhook_id salt =
      libraries.base64 (libraries.hmac256 master_key (webhook_id ++ b':' ∷ salt))

  -- `salt_bytes` is what `rand.Read` gives; a secret and what is stored of it.
  unfoldable pub new_webhook_secret : Bytes → Bytes → Bytes → Bytes × Bytes
  new_webhook_secret master_key webhook_id salt_bytes =
      let salt = libraries.base64 salt_bytes in
      let secret = derive_webhook_secret master_key webhook_id salt in
      (secret, b'v' ∷ b'1' ∷ b':' ∷ salt ++ b':' ∷ libraries.encode_hex (libraries.sum256 secret))

  -- the parts of a stored hash of version 1: its salt and its digest
  unfoldable pub version1_parts : List Bytes → Option (Bytes × Bytes)
  version1_parts (version ∷ salt ∷ digest ∷ []) =
      if version == codes "v1" then some (salt, digest) else none
  version1_parts parts = none

  abbrev same_digest : Option Bytes → Bytes → Bool
  same_digest none digest = false
  same_digest (some decoded) digest = eqb (length decoded) 32 && decoded == digest

  unfoldable pub hash_of : Bytes → Option (Bytes × Bytes) → Bytes
  hash_of expected_hash none = expected_hash
  hash_of expected_hash (some (salt, digest)) = digest

  unfoldable pub valid_webhook_secret : Bytes → Bytes → Bool
  valid_webhook_secret expected_hash secret =
      same_digest
        (libraries.decode_hex (hash_of expected_hash (version1_parts (split b':' expected_hash))))
        (libraries.sum256 secret)
      && not (is_empty secret)

  -- A text whose lower case begins with "bearer " has seven bytes at least.
  unfoldable pub webhook_secret_from_request : (Bytes → Bytes) → Bytes
  webhook_secret_from_request header =
      let secret = first_non_empty_header header (
        codes "X-GitFlame-Webhook-Secret"
        ∷ codes "X-GitFlame-Token"
        ∷ codes "X-Gitlab-Token"
        ∷ []) in
      let authorization = trim_space (header (codes "Authorization")) in
      if not (is_empty secret)
      then secret
      else if has_prefix (libraries.to_lower authorization) (codes "bearer ")
      then trim_space (drop 7 authorization)
      else []

  -- `hmac.Equal` of a signature and the body's one
  unfoldable pub valid_signature : Bytes → Bytes → Bytes → Bool
  valid_signature secret body signature =
      same_digest (libraries.decode_hex (trim_prefix (trim_space signature) (codes "sha256=")))
        (libraries.hmac256 secret body)

  unfoldable pub valid_signatures :
      Bytes → Bytes → (Bytes → Bytes) → Bytes → Option (Bytes × Bytes) → Bool
  valid_signatures master_key webhook_id header body none = false
  valid_signatures master_key webhook_id header body (some (salt, digest)) =
      let secret = derive_webhook_secret master_key webhook_id salt in
      valid_signature secret body (header (codes "X-Gitea-Signature"))
      || valid_signature secret body (header (codes "X-Hub-Signature-256"))

  unfoldable pub valid_webhook_request :
      Bytes → GitFlameWebhookRegistration → (Bytes → Bytes) → Bytes → Bool
  valid_webhook_request master_key registration header body =
      valid_webhook_secret registration.webhook_secret_hash (webhook_secret_from_request header)
      || valid_signatures master_key registration.id header body
          (version1_parts (split b':' registration.webhook_secret_hash))

  unfoldable pub normalized_webhook_event : (Bytes → Bytes) → Members → Bytes
  normalized_webhook_event header payload =
      let named = libraries.to_lower (
        first_non_empty_header header
          (codes "X-GitFlame-Event" ∷ codes "X-Gitea-Event" ∷ codes "X-GitHub-Event" ∷ [])) in
      let raw =
        if is_empty named
        then libraries.to_lower (
            first_webhook_string payload
              (codes "event" ∷ codes "event_type" ∷ codes "object_kind" ∷ codes "type" ∷ []))
        else named in
      if has_infix raw (codes "issue") || not (is_nil (first_webhook_value payload (codes "issue")))
      then codes "issue"
      else if has_infix raw (codes "push")
          || has_infix raw (codes "commit")
          || has_infix raw (codes "repository")
      then codes "push"
      else codes "unknown"

-- What is answered: a problem with its status and code, the id of an event that was stored before,
-- or the event that is stored now, which a goroutine processes.
pub data Response : Type 0 where
  problem : ℕ → Bytes → Response
  duplicate : Bytes → Response
  received : GitFlameWebhookEvent → Response

unfoldable pub same_delivery : Bytes → List GitFlameWebhookEvent → Option GitFlameWebhookEvent
same_delivery delivery_id [] = none
same_delivery delivery_id (v ∷ vs) =
    let rest = same_delivery delivery_id vs in if v.delivery_id == delivery_id then some v else rest

abbrev pub delivery_headers : List Bytes
delivery_headers =
    codes "X-GitFlame-Delivery" ∷ codes "X-Gitea-Delivery" ∷ codes "X-GitHub-Delivery" ∷ []

-- `master_key` is the server's signing key, `now` the time and `fresh` the id that `NewID` draws.
module _ (libraries : Libraries) (master_key : Bytes) (now : ℕ) (fresh : Bytes) where
  unfoldable pub event_for : GitFlameWebhookRegistration → Request → Members → GitFlameWebhookEvent
  event_for registration request payload = record {
    id = [];
    webhook_id = registration.id;
    event_type = normalized_webhook_event libraries request.header payload;
    action =
        first_webhook_string payload
          (codes "action" ∷ codes "issue.action" ∷ codes "issue.state" ∷ codes "state" ∷ []);
    delivery_id = first_non_empty_header request.header delivery_headers;
    repository_id = first_webhook_string payload (
        codes "repository.full_name"
        ∷ codes "repository.path_with_namespace"
        ∷ codes "repository.id"
        ∷ []);
    issue_session_id = [];
    payload = payload;
    status = codes "received";
    error = none;
    received_at = 0;
    processed_at = none;
  }

  unfoldable pub store_event : GitFlameWebhookEvent → MemoryStore → Response × MemoryStore
  store_event event s =
      let (saved, reached) = save_event now fresh event s in (received saved, reached)

  -- with the connection that was looked up
  unfoldable pub for_connection :
      {A : Type 0} → Result A → GitFlameWebhookEvent → MemoryStore → Response × MemoryStore
  unfolding store_event
  for_connection (err e) event s = (problem 410 (codes "connection_not_found"), s)
  for_connection (ok c) event s = store_event event s

  -- with the event of the same delivery, if there is one
  unfoldable pub unless_known :
      Option GitFlameWebhookEvent
      → Bytes
      → GitFlameWebhookEvent
      → MemoryStore
      → Response × MemoryStore
  unfolding for_connection
  unless_known (some known) connection_id event s = (duplicate known.id, s)
  unless_known none connection_id event s = for_connection (connection connection_id s) event s

  unfoldable pub known_delivery :
      GitFlameWebhookRegistration → Bytes → MemoryStore → Option GitFlameWebhookEvent
  known_delivery registration delivery_id s =
      if is_empty delivery_id
      then none
      else same_delivery delivery_id (webhook_events registration.id (pos 100) s)

  unfoldable pub with_payload :
      GitFlameWebhookRegistration → Request → Result Members → MemoryStore → Response × MemoryStore
  unfolding unless_known known_delivery
  with_payload registration request (err e) s = (problem 400 (codes "invalid_json"), s)
  with_payload registration request (ok payload) s =
      let event = event_for registration request payload in
      unless_known (known_delivery registration event.delivery_id s) registration.connection_id
        event s

  unfoldable pub with_body :
      GitFlameWebhookRegistration → Request → Option Bytes → MemoryStore → Response × MemoryStore
  unfolding with_payload
  with_body registration request none s = (problem 413 (codes "webhook_payload_too_large"), s)
  with_body registration request (some body) s =
      if valid_webhook_request libraries master_key registration request.header body
      then with_payload registration request (libraries.decode_object body) s
      else (problem 401 (codes "invalid_webhook_secret"), s)

  unfoldable pub for_webhook :
      Result GitFlameWebhookRegistration → Request → MemoryStore → Response × MemoryStore
  unfolding with_body
  for_webhook (err e) request s = (problem 404 (codes "webhook_not_found"), s)
  for_webhook (ok registration) request s =
      if registration.status == codes "active"
      then with_body registration request request.body s
      else (problem 404 (codes "webhook_not_found"), s)

  unfoldable pub receive_webhook : Bytes → Request → MemoryStore → Response × MemoryStore
  unfolding for_webhook
  receive_webhook id request s = for_webhook (webhook id s) request s
