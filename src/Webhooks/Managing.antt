-- ===== src/Webhooks/Managing.antt =====
-- The handlers that manage a connection's webhook: `createGitFlameWebhook`, `getGitFlameWebhook`,
-- `disableGitFlameWebhook` and `listGitFlameWebhookEvents` (backend/internal/httpapi/webhooks.go),
-- with the session of the request (`authenticate`, backend/internal/httpapi/auth.go). The memory
-- store's other errors do not occur. A child module is about disabled webhooks.
pub mod Disabled
use capstone_project_git_fla.Prelude.{
  ℕ, Bool, true, false, Option, none, some, List, [], ◌∷◌, ◌++◌, Bytes, codes, is_empty,
  if◌then◌else◌, ℤ, pos,
}
use capstone_project_git_fla.Decimal.{atoi}
use capstone_project_git_fla.Domain.Accounts.{
  AppSession, GitFlameConnection, GitFlameWebhookRegistration, GitFlameWebhookEvent,
}
use capstone_project_git_fla.Errors.{Err, not_found, Result, ok, err}
use capstone_project_git_fla.Store.{MemoryStore}
use capstone_project_git_fla.Store.Accounts.{app_session_by_token_hash}
use capstone_project_git_fla.Store.Connections.{
  user_connection, save_webhook, webhook_by_connection,
}
use capstone_project_git_fla.Store.Events.{webhook_events}
use capstone_project_git_fla.Webhooks.{Libraries, new_webhook_secret}

-- What is answered: a problem, a registration with the secret, if it is new, or events.
pub data Answer : Type 0 where
  refused : ℕ → Bytes → Answer
  registered : GitFlameWebhookRegistration → Bytes → Answer
  listed : Bytes → List GitFlameWebhookEvent → Answer

-- `hash_of` is `SessionTokenHashFromCookie`; `now` and `seen` are the times that the store reads,
-- and `fresh` is an id that `NewID` draws.
module _ (hash_of : Bytes → Result Bytes) (now seen : ℕ) (fresh : Bytes) where
  session_of : Result Bytes → MemoryStore → Result AppSession × MemoryStore
  session_of (err e) s = (err not_found, s)
  session_of (ok token_hash) s = app_session_by_token_hash now seen token_hash s

  -- by the cookie of the request, if it has one
  unfoldable pub authenticate : Option Bytes → MemoryStore → Result AppSession × MemoryStore
  unfolding session_of
  authenticate none s = (err not_found, s)
  authenticate (some cookie) s = session_of (hash_of cookie) s

  unfoldable pub owned_by :
      Bytes
      → (GitFlameConnection → MemoryStore → Answer × MemoryStore)
      → Result AppSession
      → MemoryStore
      → Answer × MemoryStore
  owned_by id next (err e) s = (refused 401 (codes "unauthorized"), s)
  owned_by id next (ok session) s = elim (user_connection session.user.id id s) [
    | err e ↦ (refused 404 (codes "connection_not_found"), s)
    | ok connection ↦ next connection s
  ]

  -- `authenticatedConnection`, and what follows it
  unfoldable pub authenticated_connection :
      Option Bytes
      → Bytes
      → (GitFlameConnection → MemoryStore → Answer × MemoryStore)
      → MemoryStore
      → Answer × MemoryStore
  authenticated_connection cookie id next s =
      let (session, reached) = authenticate cookie s in owned_by id next session reached

  id_of : Result GitFlameWebhookRegistration → Bytes
  id_of (err e) = fresh
  id_of (ok existing) = existing.id

  -- `salt_bytes` is what `rand.Read` gives.
  register_webhook :
      Libraries → Bytes → Bytes → Bytes → GitFlameConnection → MemoryStore → Answer × MemoryStore
  unfolding id_of
  register_webhook libraries master_key base_url salt_bytes connection s =
      let id = id_of (webhook_by_connection connection.id s) in
      let (secret, secret_hash) = new_webhook_secret libraries master_key id salt_bytes in
      let (saved, reached) =
        save_webhook now fresh
          (record {
            id = id;
            connection_id = connection.id;
            webhook_url = base_url ++ codes "/integrations/gitflame/webhooks/" ++ id;
            webhook_secret_hash = secret_hash;
            events = codes "push" ∷ codes "issues" ∷ [];
            status = codes "active";
            external_webhook_id = [];
            created_at = 0;
            updated_at = 0;
          })
          s in
      if is_empty base_url
      then (refused 422 (codes "public_base_url_required"), s)
      else (registered saved secret, reached)

  unfoldable pub create_webhook :
      Libraries → Bytes → Bytes → Bytes → Option Bytes → Bytes → MemoryStore → Answer × MemoryStore
  unfolding register_webhook
  create_webhook libraries master_key base_url salt_bytes cookie id s =
      authenticated_connection cookie id (register_webhook libraries master_key base_url salt_bytes)
        s

  shown : Result GitFlameWebhookRegistration → Answer
  shown (err e) = refused 404 (codes "webhook_not_found")
  shown (ok registration) = registered registration []

  unfoldable pub get_webhook : Option Bytes → Bytes → MemoryStore → Answer × MemoryStore
  unfolding shown
  get_webhook cookie id s =
      authenticated_connection cookie id
        (λ connection t. (shown (webhook_by_connection connection.id t), t)) s

  disabled : Result GitFlameWebhookRegistration → MemoryStore → Answer × MemoryStore
  disabled (err e) s = (refused 404 (codes "webhook_not_found"), s)
  disabled (ok registration) s =
      let (saved, reached) =
        save_webhook now fresh (record registration { status = codes "disabled" }) s in
      (registered saved [], reached)

  unfoldable pub disable_webhook : Option Bytes → Bytes → MemoryStore → Answer × MemoryStore
  unfolding disabled
  disable_webhook cookie id s =
      authenticated_connection cookie id
        (λ connection t. disabled (webhook_by_connection connection.id t) t) s

  -- `limit, _ = strconv.Atoi(…)`, which is 0 for a text that is no number
  limit_of : Option ℤ → ℤ
  limit_of none = pos 0
  limit_of (some n) = n

  listing : Bytes → Result GitFlameWebhookRegistration → MemoryStore → Answer
  unfolding limit_of
  listing limit (err e) s = listed [] []
  listing limit (ok registration) s =
      listed registration.id (webhook_events registration.id (limit_of (atoi limit)) s)

  unfoldable pub list_webhook_events :
      Bytes → Option Bytes → Bytes → MemoryStore → Answer × MemoryStore
  unfolding listing
  list_webhook_events limit cookie id s =
      authenticated_connection cookie id
        (λ connection t. (listing limit (webhook_by_connection connection.id t) t, t)) s
