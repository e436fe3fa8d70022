-- ===== src/Webhooks/Outcomes.antt =====
-- What a delivery can come to: it is taken, or refused for a reason.
use capstone_project_git_fla.Prelude.{
  ℕ, none, some, [], ◌∷◌, ◌≢◌, Member, All, pos, ◌≡◌, ◌⊎◌, Bytes, codes,
}
use capstone_project_git_fla.Domain.Json.{Members}
use capstone_project_git_fla.Domain.Accounts.{
  GitFlameConnection, GitFlameWebhookRegistration, GitFlameWebhookEvent,
}
use capstone_project_git_fla.Errors.{Err, ok, err}
use capstone_project_git_fla.Store.{MemoryStore}
use capstone_project_git_fla.Store.Connections.{webhook, connection}
use capstone_project_git_fla.Store.Events.{webhook_events}
use capstone_project_git_fla.Prelude.Map.{insert}
use capstone_project_git_fla.Webhooks.Authentic.{IsFirstFilled, IsAuthentic}
use capstone_project_git_fla.Webhooks.{
  Libraries, Request, Response, problem, duplicate, received, normalized_webhook_event,
  first_webhook_string,
}

module _ (libraries : Libraries) (master_key : Bytes) (now : ℕ) (fresh : Bytes) where
  -- The event of a delivery. Its type and its texts are those that are read of the payload.
  abbrev pub event_from :
      GitFlameWebhookRegistration → Request → Members → Bytes → GitFlameWebhookEvent
  event_from registration request payload delivery = record {
    id = fresh;
    webhook_id = registration.id;
    event_type = normalized_webhook_event libraries request.header payload;
    action =
        first_webhook_string payload
          (codes "action" ∷ codes "issue.action" ∷ codes "issue.state" ∷ codes "state" ∷ []);
    delivery_id = delivery;
    repository_id = first_webhook_string payload (
        codes "repository.full_name"
        ∷ codes "repository.path_with_namespace"
        ∷ codes "repository.id"
        ∷ []);
    issue_session_id = [];
    payload = payload;
    status = codes "received";
    error = none;
    received_at = now;
    processed_at = none;
  }

  -- The delivery id of a request: the first header of the three that is not blank.
  abbrev pub IsDelivery : Request → Bytes → Type 0
  IsDelivery request delivery =
      IsFirstFilled request.header
        (codes "X-GitFlame-Delivery" ∷ codes "X-Gitea-Delivery" ∷ codes "X-GitHub-Delivery" ∷ [])
        delivery

  -- A delivery that is taken: all its checks, and what it stores.
  pub record Taken (id : Bytes) (request : Request) (s : MemoryStore)
      (outcome : Response × MemoryStore) : Type 0 where
    pub registration : GitFlameWebhookRegistration
    pub registered : webhook id s ≡ ok registration
    pub active : registration.status ≡ codes "active"
    pub body : Bytes
    pub complete : request.body ≡ some body
    pub authentic : IsAuthentic libraries master_key registration request.header body
    pub payload : Members
    pub decoded : libraries.decode_object body ≡ ok payload
    pub delivery : Bytes
    pub carried : IsDelivery request delivery
    pub new :
        (delivery ≡ [])
        ⊎ All (λ e. e.delivery_id ≢ delivery) (webhook_events registration.id (pos 100) s)
    pub connected : (c : GitFlameConnection) × (connection registration.connection_id s ≡ ok c)
    pub stored : outcome.1 ≡ record s {
      events = insert fresh (event_from registration request payload delivery) s.events;
    }
    pub answered : outcome.0 ≡ received (event_from registration request payload delivery)

  -- Why a delivery is refused, by its answer.
  abbrev pub IsReason : Bytes → Request → MemoryStore → Response → Type 0
  IsReason id request s (received event) = ⊥
  IsReason id request s (duplicate known) =
      (v : GitFlameWebhookRegistration) × (webhook id s ≡ ok v)
      × ((delivery : Bytes) × IsDelivery request delivery
          × (delivery ≢ [])
          × ((e : GitFlameWebhookEvent) × Member e (webhook_events v.id (pos 100) s)
              × (e.delivery_id ≡ delivery)
              × (e.id ≡ known)))
  IsReason id request s (problem status code) =
      ((status ≡ 404)
        × ((v : GitFlameWebhookRegistration) → webhook id s ≡ ok v → v.status ≢ codes "active"))
      ⊎ ((status ≡ 413) × (request.body ≡ none))
      ⊎ ((status ≡ 401)
          × ((v : GitFlameWebhookRegistration) × (webhook id s ≡ ok v)
              × ((body : Bytes) × (request.body ≡ some body)
                  × ¬ IsAuthentic libraries master_key v request.header body)))
      ⊎ ((status ≡ 400)
          × ((body : Bytes) × (request.body ≡ some body)
              × ((e : Err) × (libraries.decode_object body ≡ err e))))
      ⊎ ((status ≡ 410)
          × ((v : GitFlameWebhookRegistration) × (webhook id s ≡ ok v)
              × ((e : Err) × (connection v.connection_id s ≡ err e))))

  -- A delivery that is refused, for a reason, leaves the store.
  abbrev pub Refused : Bytes → Request → MemoryStore → Response × MemoryStore → Type 0
  Refused id request s (response, reached) = IsReason id request s response × (reached ≡ s)
