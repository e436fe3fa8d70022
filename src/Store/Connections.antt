-- ===== src/Store/Connections.antt =====
-- Connections to repositories and webhooks (backend/internal/repository/memory.go). A child
-- module states what a connection's reads return.
pub mod Reads
use capstone_project_git_fla.Prelude.{
  ℕ, Bool, true, false, not, ◌&&◌, Option, none, some, List, [], ◌∷◌, Bytes, codes, is_empty,
  is_some, ◌==◌, if◌then◌else◌,
}
use capstone_project_git_fla.Prelude.Map.{Map, lookup, insert}
use capstone_project_git_fla.Domain.Accounts.{GitFlameConnection, GitFlameWebhookRegistration}
use capstone_project_git_fla.Errors.{Err, not_found, Result, ok, err}
use capstone_project_git_fla.Store.{MemoryStore, found}

abbrev pub or_text : Bytes → Bytes → Bytes
or_text s default = if is_empty s then default else s

-- the loop that looks for the user's connection to the same repository
same_connection : GitFlameConnection → Map GitFlameConnection → Option GitFlameConnection
same_connection v [] = none
same_connection v ((id, existing) ∷ m) =
    let rest = same_connection v m in
    if existing.user_id == v.user_id
      && existing.repository.id == v.repository.id
      && not (is_empty v.repository.id)
    then some existing
    else rest

take_identity : Option GitFlameConnection → GitFlameConnection → GitFlameConnection
take_identity none v = v
take_identity (some existing) v = record v { id = existing.id; created_at = existing.created_at }

keep_created : Option GitFlameConnection → GitFlameConnection → GitFlameConnection
keep_created none v = v
keep_created (some existing) v = record v { created_at = existing.created_at }

identified : ℕ → Bytes → GitFlameConnection → Map GitFlameConnection → GitFlameConnection
unfolding keep_created
identified now fresh v m =
    if is_empty v.id
    then record v { id = fresh; created_at = now }
    else keep_created (lookup v.id m) v

-- The status and the branches that an empty field falls back to: the connection's branch first,
-- then the repository's, which reads the connection's.
with_defaults : GitFlameConnection → GitFlameConnection
with_defaults v =
    let branch = or_text v.default_branch v.repository.default_branch in
    record v {
      token_status = or_text v.token_status (codes "active");
      default_branch = branch;
      repository = record v.repository {
        default_branch = or_text v.repository.default_branch branch;
      };
    }

unfoldable pub save_connection :
    ℕ → Bytes → GitFlameConnection → MemoryStore → GitFlameConnection × MemoryStore
unfolding same_connection take_identity identified with_defaults
save_connection now fresh v s =
    let known = take_identity (same_connection v s.connections) v in
    let saved = record (with_defaults (identified now fresh known s.connections)) {
      updated_at = now;
    } in
    (saved, record s { connections = insert saved.id saved s.connections })

unfoldable pub connection : Bytes → MemoryStore → Result GitFlameConnection
connection id s = found (lookup id s.connections)

-- A connection of another user is not found.
unfoldable pub owned : Bytes → Result GitFlameConnection → Result GitFlameConnection
owned user_id (err e) = err e
owned user_id (ok v) = if v.user_id == user_id then ok v else err not_found

unfoldable pub user_connection : Bytes → Bytes → MemoryStore → Result GitFlameConnection
unfolding owned connection
user_connection user_id id s = owned user_id (connection id s)

abbrev is_open_for : Bytes → Bytes → GitFlameConnection → Bool
is_open_for user_id repository_id v =
    v.user_id == user_id && v.repository.id == repository_id && not (is_some v.revoked_at)

unfoldable pub first_open : Bytes → Bytes → Map GitFlameConnection → Option GitFlameConnection
first_open user_id repository_id [] = none
first_open user_id repository_id ((id, v) ∷ m) =
    let rest = first_open user_id repository_id m in
    if is_open_for user_id repository_id v then some v else rest

unfoldable pub user_connection_by_repository :
    Bytes → Bytes → MemoryStore → Result GitFlameConnection
unfolding first_open
user_connection_by_repository user_id repository_id s =
    found (first_open user_id repository_id s.connections)

unfoldable pub revoke_connection :
    ℕ → Bytes → Bytes → MemoryStore → Result GitFlameConnection × MemoryStore
revoke_connection now user_id id s = elim (lookup id s.connections) [
  | none ↦ (err not_found, s)
  | some v ↦
      let v' = record v {
        token_status = codes "revoked";
        revoked_at = some now;
        updated_at = now;
      } in
      if v.user_id == user_id
      then (ok v', record s { connections = insert id v' s.connections })
      else (err not_found, s)
]

unfoldable pub touch_connection : ℕ → Bytes → Bytes → MemoryStore → Result (Unit {0}) × MemoryStore
touch_connection now user_id id s = elim (lookup id s.connections) [
  | none ↦ (err not_found, s)
  | some v ↦
      let v' = record v { last_used_at = some now; updated_at = now } in
      if v.user_id == user_id
      then (ok tt, record s { connections = insert id v' s.connections })
      else (err not_found, s)
]

keep_webhook_created :
    Option GitFlameWebhookRegistration → GitFlameWebhookRegistration → GitFlameWebhookRegistration
keep_webhook_created none v = v
keep_webhook_created (some existing) v = record v { created_at = existing.created_at }

unfoldable pub save_webhook :
    ℕ
    → Bytes
    → GitFlameWebhookRegistration
    → MemoryStore
    → GitFlameWebhookRegistration × MemoryStore
unfolding keep_webhook_created
save_webhook now fresh v s =
    let known =
      if is_empty v.id
      then record v { id = fresh; created_at = now }
      else keep_webhook_created (lookup v.id s.webhooks) v in
    let saved = record known { status = or_text v.status (codes "pending"); updated_at = now } in
    (saved, record s { webhooks = insert saved.id saved s.webhooks })

unfoldable pub webhook : Bytes → MemoryStore → Result GitFlameWebhookRegistration
webhook id s = found (lookup id s.webhooks)

first_webhook : Bytes → Map GitFlameWebhookRegistration → Option GitFlameWebhookRegistration
first_webhook connection_id [] = none
first_webhook connection_id ((id, v) ∷ m) =
    let rest = first_webhook connection_id m in
    if v.connection_id == connection_id then some v else rest

unfoldable pub webhook_by_connection : Bytes → MemoryStore → Result GitFlameWebhookRegistration
unfolding first_webhook
webhook_by_connection connection_id s = found (first_webhook connection_id s.webhooks)
