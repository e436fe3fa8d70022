-- ===== src/Webhooks/Managing/Disabled.antt =====
-- A webhook that was disabled.
use capstone_project_git_fla.Prelude.{ℕ, Option, ◌≡◌, refl, ap, Bytes, codes, ◌==◌}
use capstone_project_git_fla.Prelude.Map.{lookup-insert_self}
use capstone_project_git_fla.Domain.Accounts.{
  AppSession, GitFlameConnection, GitFlameWebhookRegistration,
}
use capstone_project_git_fla.Errors.{Result, ok, err}
use capstone_project_git_fla.Store.{MemoryStore}
use capstone_project_git_fla.Store.Connections.{
  user_connection, save_webhook, webhook, webhook_by_connection,
}
use capstone_project_git_fla.Webhooks.{Libraries, Request, problem, for_webhook, receive_webhook}
use capstone_project_git_fla.Webhooks.Managing.{
  Answer, refused, registered, listed, authenticate, owned_by, authenticated_connection, disabled,
  disable_webhook,
}

module _ (libraries : Libraries) (master_key : Bytes) (later : ℕ) (other : Bytes)
    (request : Request) where
  -- An answer with a registration is one whose webhook takes no delivery.
  pub IsClosed : Answer × MemoryStore → Type 0
  IsClosed (registered v secret, s) =
      receive_webhook libraries master_key later other v.id request s
      ≡ (problem 404 (codes "webhook_not_found"), s)
  IsClosed (refused status code, s) = Unit {0}
  IsClosed (listed id events, s) = Unit {0}

  closed_by :
      (v : GitFlameWebhookRegistration) (s : MemoryStore)
      → webhook v.id s ≡ ok v
      → v.status ≡ codes "disabled"
      → receive_webhook libraries master_key later other v.id request s
        ≡ (problem 404 (codes "webhook_not_found"), s)
  unfolding receive_webhook for_webhook ◌==◌
  closed_by v s found e = rw (receive_webhook, found, ap (λ t. t == codes "active") e) refl

  module _ (hash_of : Bytes → Result Bytes) (now seen : ℕ) (fresh : Bytes) where
    disabled-IsClosed :
        (r : Result GitFlameWebhookRegistration) (s : MemoryStore)
        → IsClosed (disabled hash_of now seen fresh r s)
    unfolding disabled save_webhook webhook IsClosed
    disabled-IsClosed (err e) s = tt
    disabled-IsClosed (ok v) s =
        let changed = record v { status = codes "disabled" } in
        closed_by (save_webhook now fresh changed s).0 (save_webhook now fresh changed s).1
          (rw
            (lookup-insert_self (save_webhook now fresh changed s).0.id
              (save_webhook now fresh changed s).0 s.webhooks)
            refl)
          refl

    owned_by-IsClosed :
        (id : Bytes) (r : Result AppSession) (s : MemoryStore)
        → IsClosed (
            owned_by hash_of now seen fresh id
              (λ connection t.
                disabled hash_of now seen fresh (webhook_by_connection connection.id t) t)
              r
              s)
    unfolding owned_by IsClosed
    owned_by-IsClosed id (err e) s = tt
    owned_by-IsClosed id (ok session) s = step (user_connection session.user.id id s)
      where
        step :
            (u : Result GitFlameConnection)
            → IsClosed (elim u [
              | err e ↦ (refused 404 (codes "connection_not_found"), s)
              | ok connection ↦
                  disabled hash_of now seen fresh (webhook_by_connection connection.id s) s
            ])
        step (err e) = tt
        step (ok connection) = disabled-IsClosed (webhook_by_connection connection.id s) s

    -- When `disableGitFlameWebhook` answers with a registration, then any delivery to that webhook, before the store changes again, is answered with status 404 and leaves the store as it is.
    pub disable_webhook-IsClosed :
        (cookie : Option Bytes) (id : Bytes) (s : MemoryStore)
        → IsClosed (disable_webhook hash_of now seen fresh cookie id s)
    unfolding disable_webhook authenticated_connection
    disable_webhook-IsClosed cookie id s =
        owned_by-IsClosed id (authenticate hash_of now seen fresh cookie s).0
          (authenticate hash_of now seen fresh cookie s).1
