-- ===== src/Webhooks/Receiving.antt =====
-- What a delivery does to the store.
use capstone_project_git_fla.Prelude.{
  ℕ, Bool, true, false, Option, none, some, List, [], ◌∷◌, ◌≢◌, sym, ap, ◌∙◌, arith, eq_iff,
  is_empty, Bool-cases, Member, All, pos, ◌≡◌, ◌⊎◌, inl, inr, refl, Bytes, codes, ◌==◌,
  if◌then◌else◌,
}
use capstone_project_git_fla.Domain.Json.{Members}
use capstone_project_git_fla.Domain.Accounts.{
  GitFlameConnection, GitFlameWebhookRegistration, GitFlameWebhookEvent,
}
use capstone_project_git_fla.Errors.{Result, ok, err, ok_injective}
use capstone_project_git_fla.Store.{MemoryStore}
use capstone_project_git_fla.Store.Connections.{webhook, connection}
use capstone_project_git_fla.Store.Events.{save_event, webhook_events}
use capstone_project_git_fla.Webhooks.Authentic.{IsAuthentic}
use capstone_project_git_fla.Webhooks.Authentic.Checked.{
  is_empty_iff, first_non_empty_header-IsFirstFilled, valid_webhook_request_iff,
}
use capstone_project_git_fla.Webhooks.{
  Libraries, Request, Response, problem, valid_webhook_request, first_non_empty_header,
  delivery_headers, event_for, store_event, for_connection, unless_known, known_delivery,
  same_delivery, with_payload, with_body, for_webhook, receive_webhook,
}
use capstone_project_git_fla.Webhooks.Outcomes.{Taken, Refused}

same_delivery-none :
    (delivery : Bytes) (vs : List GitFlameWebhookEvent)
    → same_delivery delivery vs ≡ none
    → All (λ e. e.delivery_id ≢ delivery) vs
unfolding same_delivery
same_delivery-none delivery [] h = tt
same_delivery-none delivery (v ∷ vs) h =
    let (to, from) = eq_iff v.delivery_id delivery in
    elim (Bool-cases (v.delivery_id == delivery)) [
      | inl b ↦ absurd (ground arith)
      | inr b ↦ ((λ e. cc (b, from e)), same_delivery-none delivery vs (ground arith))
    ]

same_delivery-some :
    (delivery : Bytes) (w : GitFlameWebhookEvent) (vs : List GitFlameWebhookEvent)
    → same_delivery delivery vs ≡ some w
    → Member w vs × (w.delivery_id ≡ delivery)
unfolding same_delivery
same_delivery-some delivery w [] h = cc h
same_delivery-some delivery w (v ∷ vs) h =
    let (to, from) = eq_iff v.delivery_id delivery in
    elim (Bool-cases (v.delivery_id == delivery)) [
      | inl b ↦ let e : v ≡ w = ground arith in (inl e, ap (λ x. x.delivery_id) (sym e) ∙ to b)
      | inr b ↦ let (m, e) = same_delivery-some delivery w vs (ground arith) in (inr m, e)
    ]

module _ (libraries : Libraries) (master_key : Bytes) (now : ℕ) (fresh : Bytes) where
  module _ (id : Bytes) (request : Request) (s : MemoryStore) where
    abbrev Outcome : Response × MemoryStore → Type 0
    Outcome outcome =
        Refused libraries master_key now fresh id request s outcome
        ⊎ Taken libraries master_key now fresh id request s outcome

    abbrev delivery_id : Bytes
    delivery_id = first_non_empty_header request.header delivery_headers

    not_active :
        (v : GitFlameWebhookRegistration)
        → webhook id s ≡ ok v
        → (v.status == codes "active") ≡ false
        → (w : GitFlameWebhookRegistration) → webhook id s ≡ ok w
        → w.status ≢ codes "active"
    not_active v registered inactive w found e =
        let same = ok_injective v w (sym registered ∙ found) in
        cc (inactive, (eq_iff v.status (codes "active")).1 (ap (λ x. x.status) same ∙ e))

    known_delivery-none :
        (v : GitFlameWebhookRegistration)
        → known_delivery libraries master_key now fresh v delivery_id s ≡ none
        → (delivery_id ≡ [])
          ⊎ All (λ e. e.delivery_id ≢ delivery_id) (webhook_events v.id (pos 100) s)
    unfolding known_delivery
    known_delivery-none v h = elim (Bool-cases (is_empty delivery_id)) [
      | inl b ↦ inl ((is_empty_iff delivery_id).0 b)
      | inr b ↦
          inr (same_delivery-none delivery_id (webhook_events v.id (pos 100) s) (ground arith))
    ]

    known_delivery-some :
        (v : GitFlameWebhookRegistration) (known : GitFlameWebhookEvent)
        → known_delivery libraries master_key now fresh v delivery_id s ≡ some known
        → (delivery_id ≢ [])
          × Member known (webhook_events v.id (pos 100) s)
          × (known.delivery_id ≡ delivery_id)
    unfolding known_delivery
    known_delivery-some v known h = elim (Bool-cases (is_empty delivery_id)) [
      | inl b ↦ absurd (ground arith)
      | inr b ↦
          let (m, e) =
            same_delivery-some delivery_id known (webhook_events v.id (pos 100) s) (ground arith) in
          ((λ n. cc (b, (is_empty_iff delivery_id).1 n)), m, e)
    ]

    -- a webhook that was found, and is active
    module _ (v : GitFlameWebhookRegistration) (registered : webhook id s ≡ ok v)
        (active : v.status ≡ codes "active") where
      -- a body that was accepted, and its content
      module _ (body : Bytes) (complete : request.body ≡ some body)
          (authentic : IsAuthentic libraries master_key v request.header body) where
        module _ (payload : Members) (decoded : libraries.decode_object body ≡ ok payload) where
          by_connection :
              (c : Result GitFlameConnection)
              → connection v.connection_id s ≡ c
              → known_delivery libraries master_key now fresh v delivery_id s ≡ none
              → Outcome (
                  for_connection libraries master_key now fresh c
                    (event_for libraries master_key now fresh v request payload)
                    s)
          unfolding for_connection store_event event_for save_event
          by_connection (err e) connected new =
              inl (inr (inr (inr (inr (refl, (v, registered, (e, connected)))))), refl)
          by_connection (ok c) connected new = inr (record {
            registration = v;
            registered = registered;
            active = active;
            body = body;
            complete = complete;
            authentic = authentic;
            payload = payload;
            decoded = decoded;
            delivery = delivery_id;
            carried = first_non_empty_header-IsFirstFilled request.header delivery_headers;
            new = known_delivery-none v new;
            connected = (c, connected);
            stored = refl;
            answered = refl;
          })

          by_delivery :
              (known : Option GitFlameWebhookEvent)
              → known_delivery libraries master_key now fresh v delivery_id s ≡ known
              → Outcome (
                  unless_known libraries master_key now fresh known v.connection_id
                    (event_for libraries master_key now fresh v request payload)
                    s)
          unfolding unless_known
          by_delivery (some known) h =
              let (n, m, e) = known_delivery-some v known h in
              let carried = first_non_empty_header-IsFirstFilled request.header delivery_headers in
              inl ((v, registered, (delivery_id, carried, n, (known, m, e, refl))), refl)
          by_delivery none h = by_connection (connection v.connection_id s) refl h

        by_payload :
            (r : Result Members)
            → libraries.decode_object body ≡ r
            → Outcome (with_payload libraries master_key now fresh v request r s)
        unfolding with_payload event_for
        by_payload (err e) h = inl (inr (inr (inr (inl (refl, (body, complete, (e, h)))))), refl)
        by_payload (ok payload) h =
            by_delivery payload h (known_delivery libraries master_key now fresh v delivery_id s)
              refl

      by_validity :
          (body : Bytes) (b : Bool)
          → request.body ≡ some body
          → valid_webhook_request libraries master_key v request.header body ≡ b
          → Outcome (
              if b
              then with_payload libraries master_key now fresh v request
                  (libraries.decode_object body)
                  s
              else (problem 401 (codes "invalid_webhook_secret"), s))
      by_validity body true complete valid =
          let (to, from) = valid_webhook_request_iff libraries master_key v request.header body in
          by_payload body complete (to valid) (libraries.decode_object body) refl
      by_validity body false complete valid =
          let (to, from) = valid_webhook_request_iff libraries master_key v request.header body in
          inl (
            inr (inr (inl (refl, (v, registered, (body, complete, λ a. cc (valid, from a)))))),
            refl,
          )

      by_body :
          (o : Option Bytes)
          → request.body ≡ o
          → Outcome (with_body libraries master_key now fresh v request o s)
      unfolding with_body
      by_body none h = inl (inr (inl (refl, h)), refl)
      by_body (some body) h =
          by_validity body (valid_webhook_request libraries master_key v request.header body) h refl

    by_status :
        (v : GitFlameWebhookRegistration) (b : Bool)
        → webhook id s ≡ ok v
        → (v.status == codes "active") ≡ b
        → Outcome (
            if b
            then with_body libraries master_key now fresh v request request.body s
            else (problem 404 (codes "webhook_not_found"), s))
    by_status v true registered active =
        by_body v registered ((eq_iff v.status (codes "active")).0 active) request.body refl
    by_status v false registered active =
        inl (inl (refl, λ w found e. not_active v registered active w found e), refl)

    by_webhook :
        (r : Result GitFlameWebhookRegistration)
        → webhook id s ≡ r
        → Outcome (for_webhook libraries master_key now fresh r request s)
    unfolding for_webhook
    by_webhook (err e) h = inl (inl (refl, λ w found n. cc (h, found)), refl)
    by_webhook (ok v) h = by_status v (v.status == codes "active") h refl

    -- A delivery is refused, which leaves the store as it is, or it is taken. It is taken when its webhook is found and active, its body is complete, carries the webhook's secret or is signed with it, and is decoded to an object or null, it has no delivery id or one of none of the latest 100 events of the webhook, and its connection is found; then the event of the delivery is stored under the fresh id and answered with. A refusal is for one of these reasons: status 404 without an active webhook, 413 without a complete body, 401 for one that is not authentic, 400 for one that is not decoded, 410 without the connection, and a duplicate for the id of a listed event with the same delivery id.
    pub receive_webhook-Taken :
        Outcome (receive_webhook libraries master_key now fresh id request s)
    unfolding receive_webhook
    receive_webhook-Taken = by_webhook (webhook id s) refl
