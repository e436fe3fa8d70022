-- ===== src/Webhooks/Samples.antt =====
-- Encodings by shifted bytes, a store with one webhook, and the theorems on webhooks there.
use capstone_project_git_fla.Prelude.{
  ℕ, suc, ◌+◌, ◌-◌, ◌≤◌, true, false, none, some, [], ◌∷◌, ◌≡◌, ◌≢◌, ◌⊎◌, ◌↔◌, refl, ap, ◌∙◌, arith,
  Bytes, codes, ◌==◌, is_empty, length, replicate, Lacks, if◌then◌else◌,
}
use capstone_project_git_fla.Prelude.Map.{lookup}
use capstone_project_git_fla.Text.{
  trim_space, split, trim_left, trim_right, strip, is_space, is_space2, is_space3, has_infix,
  has_prefix,
}
use capstone_project_git_fla.Domain.Json.{no_members, get}
use capstone_project_git_fla.Domain.Accounts.{GitFlameWebhookRegistration, GitFlameWebhookEvent}
use capstone_project_git_fla.Errors.{ok}
use capstone_project_git_fla.Store.{MemoryStore, new_memory_store}
use capstone_project_git_fla.Store.Connections.{webhook, connection}
use capstone_project_git_fla.Store.Events.{events_of, sort_events, webhook_events, save_event}
use capstone_project_git_fla.Store.Samples.{linked, store, token}
use capstone_project_git_fla.Webhooks.{
  Libraries, Request, duplicate, received, new_webhook_secret, valid_webhook_secret,
  receive_webhook, first_non_empty_header, delivery_headers, for_webhook, with_body, with_payload,
  unless_known, known_delivery, for_connection, store_event, event_for, valid_webhook_request,
  webhook_secret_from_request, version1_parts, hash_of, valid_signatures, same_delivery,
  normalized_webhook_event, first_webhook_string, first_webhook_value, value_at, text_of,
}
use capstone_project_git_fla.Webhooks.Managing.{disable_webhook}
use capstone_project_git_fla.Webhooks.Managing.Disabled.{IsClosed, disable_webhook-IsClosed}
use capstone_project_git_fla.Webhooks.Secrets.{
  EncodingLaws, valid_webhook_secret-new_webhook_secret,
}
use capstone_project_git_fla.Webhooks.Outcomes.{Refused, Taken}
use capstone_project_git_fla.Webhooks.Receiving.{receive_webhook-Taken}
use capstone_project_git_fla.Webhooks.Redelivery.{receive_webhook-receive_webhook}

-- every byte above the colon
abbrev shift : Bytes → Bytes
shift [] = []
shift (c ∷ s) = (c + 59) ∷ shift s

abbrev unshift : Bytes → Bytes
unshift [] = []
unshift (c ∷ s) = (c - 59) ∷ unshift s

unshift-shift : (s : Bytes) → unshift (shift s) ≡ s
unshift-shift [] = refl
unshift-shift (c ∷ s) = ap (λ x. x ∷ unshift (shift s)) (back c) ∙ ap (λ t. c ∷ t) (unshift-shift s)
  where
    back : (n : ℕ) → n + 59 - 59 ≡ n
    back n = omega arith

shift-Lacks : (s : Bytes) → Lacks b':' (shift s)
shift-Lacks [] = tt
shift-Lacks (c ∷ s) = ((λ e. omega arith), shift-Lacks s)

abbrev sample_libraries : Libraries
sample_libraries = record {
  sum256 = λ s. replicate 32 (length s);
  hmac256 = λ key s. replicate 32 (length key);
  base64 = shift;
  encode_hex = shift;
  decode_hex = λ s. some (unshift s);
  decode_object = λ s. ok no_members;
  to_lower = λ s. s;
}

sample_libraries-EncodingLaws : EncodingLaws sample_libraries
sample_libraries-EncodingLaws = record {
  decodes = λ s. ap some (unshift-shift s);
  hex-Lacks = shift-Lacks;
  base64-Lacks = shift-Lacks;
  length-sum256 = λ s. refl;
}

valid_webhook_secret-new_webhook_secret_example :
    (valid_webhook_secret sample_libraries
        (new_webhook_secret sample_libraries (codes "key") (codes "w") (1 ∷ 2 ∷ [])).1
        (codes "guess")
      ≡ true)
    ↔ ((replicate 32 5
          ≡ replicate 32 (
              length
                (new_webhook_secret sample_libraries (codes "key") (codes "w") (1 ∷ 2 ∷ [])).0))
        × (codes "guess" ≢ []))
valid_webhook_secret-new_webhook_secret_example =
    valid_webhook_secret-new_webhook_secret sample_libraries sample_libraries-EncodingLaws
      (codes "key") (codes "w") (1 ∷ 2 ∷ []) (codes "guess")

-- The stored hash is the sum of a secret of six bytes.
abbrev sample_webhook : GitFlameWebhookRegistration
sample_webhook = record {
  id = codes "w";
  connection_id = codes "c";
  webhook_url = [];
  webhook_secret_hash = replicate 32 65;
  events = [];
  status = codes "active";
  external_webhook_id = [];
  created_at = 1;
  updated_at = 1;
}

abbrev sample_store : MemoryStore
sample_store = record new_memory_store {
  connections = (codes "c", linked) ∷ [];
  webhooks = (codes "w", sample_webhook) ∷ [];
}

abbrev sample_request : Request
sample_request = record {
  header = λ name.
      if name == codes "X-GitFlame-Token"
      then codes "secret"
      else if name == codes "X-Gitea-Delivery"
      then codes "d1"
      else [];
  body = some (codes "{}");
}

receive_webhook-Taken_example :
    Refused sample_libraries (codes "key") 7 (codes "e1") (codes "w") sample_request sample_store (
      receive_webhook sample_libraries
        (codes "key")
        7
        (codes "e1")
        (codes "w")
        sample_request
        sample_store)
    ⊎ Taken sample_libraries (codes "key") 7 (codes "e1") (codes "w") sample_request sample_store (
        receive_webhook sample_libraries
          (codes "key")
          7
          (codes "e1")
          (codes "w")
          sample_request
          sample_store)
receive_webhook-Taken_example =
    receive_webhook-Taken sample_libraries (codes "key") 7 (codes "e1") (codes "w") sample_request
      sample_store

found_webhook : webhook (codes "w") sample_store ≡ ok sample_webhook
unfolding webhook lookup ◌==◌
found_webhook = refl

-- the event that the delivery makes
abbrev first_event : GitFlameWebhookEvent
first_event = record {
  id = codes "e1";
  webhook_id = codes "w";
  event_type = codes "unknown";
  action = [];
  delivery_id = codes "d1";
  repository_id = [];
  issue_session_id = [];
  payload = no_members;
  status = codes "received";
  error = none;
  received_at = 7;
  processed_at = none;
}

first_delivery :
    (receive_webhook sample_libraries
      (codes "key")
      7
      (codes "e1")
      (codes "w")
      sample_request
      sample_store).0
    ≡ received first_event
unfolding receive_webhook for_webhook with_body with_payload unless_known for_connection store_event
    known_delivery event_for valid_webhook_request valid_webhook_secret webhook_secret_from_request
    valid_signatures version1_parts hash_of first_non_empty_header same_delivery webhook_events
    events_of sort_events save_event webhook connection lookup ◌==◌ split trim_space trim_left
    trim_right strip is_space is_space2 is_space3 has_infix has_prefix normalized_webhook_event
    first_webhook_string first_webhook_value value_at text_of get
first_delivery = refl

first_delivery_id : is_empty (first_non_empty_header sample_request.header delivery_headers) ≡ false
unfolding first_non_empty_header trim_space trim_left trim_right strip is_space is_space2 is_space3
    ◌==◌
first_delivery_id = refl

no_events : suc (length (events_of (codes "w") [])) ≤ 100
unfolding events_of
no_events = omega arith

receive_webhook-receive_webhook_example :
    (v : GitFlameWebhookEvent) × (receive_webhook sample_libraries
        (codes "key")
        9
        (codes "e2")
        (codes "w")
        sample_request
        (receive_webhook sample_libraries
          (codes "key")
          7
          (codes "e1")
          (codes "w")
          sample_request
          sample_store).1
      ≡ (
        duplicate v.id,
        (receive_webhook sample_libraries
            (codes "key")
            7
            (codes "e1")
            (codes "w")
            sample_request
            sample_store).1,
      ))
receive_webhook-receive_webhook_example =
    receive_webhook-receive_webhook sample_libraries (codes "key") 7 9 (codes "e1") (codes "e2")
      (codes "w") sample_request sample_webhook first_event sample_store found_webhook
      first_delivery first_delivery_id no_events

-- the same webhook, and a user with a session
abbrev owned_store : MemoryStore
owned_store = record store { webhooks = (codes "w", sample_webhook) ∷ [] }

disable_webhook-IsClosed_example :
    IsClosed sample_libraries (codes "key") 9 (codes "e2") sample_request (
      disable_webhook
        (λ cookie. ok token)
        3
        4
        (codes "x")
        (some (codes "cookie"))
        (codes "c")
        owned_store)
disable_webhook-IsClosed_example =
    disable_webhook-IsClosed sample_libraries (codes "key") 9 (codes "e2") sample_request
      (λ cookie. ok token) 3 4 (codes "x") (some (codes "cookie")) (codes "c") owned_store
