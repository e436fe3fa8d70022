-- ===== src/Webhooks/Redelivery.antt =====
-- A delivery that comes again.
use capstone_project_git_fla.Prelude.{
  ℕ, suc, ◌≤◌, Bool, true, false, some, List, [], ◌∷◌, ◌≡◌, inl, inr, refl, sym, ap, ◌∙◌, Bytes,
  codes, ◌==◌, eq_iff, eq_refl, is_empty, length, Member, pos, if◌then◌else◌,
}
use mathlib.Core.Path.{subst}
use capstone_project_git_fla.Domain.Json.{Members}
use capstone_project_git_fla.Domain.Accounts.{GitFlameWebhookRegistration, GitFlameWebhookEvent}
use capstone_project_git_fla.Errors.{ok, ok_injective}
use capstone_project_git_fla.Store.{MemoryStore}
use capstone_project_git_fla.Store.Connections.{webhook}
use capstone_project_git_fla.Store.Events.{save_event, events_of, webhook_events}
use capstone_project_git_fla.Store.Events.Listed.{webhook_events-save_event}
use capstone_project_git_fla.Webhooks.{
  Libraries, Request, Response, duplicate, received, valid_webhook_request, same_delivery,
  first_non_empty_header, delivery_headers, event_for, unless_known, known_delivery, with_payload,
  with_body, for_webhook, receive_webhook,
}
use capstone_project_git_fla.Prelude.Map.{insert}
use capstone_project_git_fla.Webhooks.Authentic.Checked.{
  IsFirstFilled-first_non_empty_header, valid_webhook_request_iff,
}
use capstone_project_git_fla.Webhooks.Outcomes.{Taken, IsReason, event_from}
use capstone_project_git_fla.Webhooks.Receiving.{receive_webhook-Taken}

same_delivery-Member :
    (d : Bytes) (x : GitFlameWebhookEvent) (vs : List GitFlameWebhookEvent)
    → Member x vs
    → (x.delivery_id == d) ≡ true
    → (w : GitFlameWebhookEvent) × (same_delivery d vs ≡ some w)
unfolding same_delivery
same_delivery-Member d x [] m e = absurd m
same_delivery-Member d x (v ∷ vs) (inl k) e = (v, rw (ap (λ y. y.delivery_id == d) k, e) refl)
same_delivery-Member d x (v ∷ vs) (inr m) e =
    step (v.delivery_id == d) (same_delivery-Member d x vs m e)
  where
    step :
        (b : Bool)
        → (w : GitFlameWebhookEvent) × (same_delivery d vs ≡ some w)
        → (w : GitFlameWebhookEvent) × ((if b then some v else same_delivery d vs) ≡ some w)
    step true h = (v, refl)
    step false h = h

module _ (libraries : Libraries) (master_key : Bytes) (now later : ℕ) (fresh other id : Bytes)
    (request : Request) where
  abbrev delivery_id : Bytes
  delivery_id = first_non_empty_header request.header delivery_headers

  known_again :
      (v : GitFlameWebhookRegistration) (payload : Members) (s : MemoryStore)
      → is_empty delivery_id ≡ false
      → suc (length (events_of v.id s.events)) ≤ 100
      → (w : GitFlameWebhookEvent) × (known_delivery libraries master_key later other v delivery_id
            (save_event now fresh (event_for libraries master_key now fresh v request payload) s).1
          ≡ some w)
  unfolding known_delivery event_for save_event
  known_again v payload s filled few =
      let event = event_for libraries master_key now fresh v request payload in
      let listed = webhook_events-save_event now fresh v.id event s (eq_refl v.id) few in
      let (w, e) =
        same_delivery-Member delivery_id (save_event now fresh event s).0
          (webhook_events v.id (pos 100) (save_event now fresh event s).1) listed
          (eq_refl delivery_id) in
      (w, rw filled e)

  again :
      (v : GitFlameWebhookRegistration) (body : Bytes) (payload : Members) (s : MemoryStore)
      → webhook id s ≡ ok v
      → (v.status == codes "active") ≡ true
      → request.body ≡ some body
      → valid_webhook_request libraries master_key v request.header body ≡ true
      → libraries.decode_object body ≡ ok payload
      → is_empty delivery_id ≡ false
      → suc (length (events_of v.id s.events)) ≤ 100
      → let reached =
          (save_event now fresh (event_for libraries master_key now fresh v request payload) s).1 in
        (w : GitFlameWebhookEvent) × (receive_webhook libraries master_key later other id request
            reached
          ≡ (duplicate w.id, reached))
  unfolding receive_webhook for_webhook with_body with_payload unless_known event_for save_event
      webhook
  again v body payload s registered active complete valid decoded filled few =
      let (w, e) = known_again v payload s filled few in
      let reached =
        (save_event now fresh (event_for libraries master_key now fresh v request payload) s).1 in
      (
        w,
        rw (receive_webhook, registered, active)
            (ap (λ b. with_body libraries master_key later other v request b reached) complete
              ∙ rw (valid, decoded, e) refl),
      )

  -- the second delivery, after one that was taken
  Taken-again :
      (v : GitFlameWebhookRegistration) (s : MemoryStore) (outcome : Response × MemoryStore)
      → Taken libraries master_key now fresh id request s outcome
      → webhook id s ≡ ok v
      → is_empty delivery_id ≡ false
      → suc (length (events_of v.id s.events)) ≤ 100
      → (w : GitFlameWebhookEvent) × (receive_webhook libraries master_key later other id request
            outcome.1
          ≡ (duplicate w.id, outcome.1))
  unfolding save_event event_for
  Taken-again v s outcome t registered filled few =
      let same = ok_injective t.registration v (sym t.registered ∙ registered) in
      let (w, e) =
        again t.registration t.body t.payload s t.registered
          ((eq_iff t.registration.status (codes "active")).1 t.active) t.complete
          ((valid_webhook_request_iff libraries master_key t.registration request.header t.body).1
            t.authentic)
          t.decoded filled (rw same few) in
      (
        w,
        subst
            (λ o.
              receive_webhook libraries master_key later other id request o ≡ (duplicate w.id, o))
            (ap
                (λ d. record s {
                  events =
                      insert fresh
                        (event_from libraries master_key now fresh t.registration request t.payload
                          d)
                        s.events;
                })
                (IsFirstFilled-first_non_empty_header request.header delivery_headers t.delivery
                  t.carried)
              ∙ sym t.stored)
            e,
      )

  -- When a delivery with a delivery id is taken and its webhook had fewer than 100 events, the same request, coming to the store as that delivery left it and at any time, is answered as a duplicate and leaves the store as it is. Nothing is said of a store that has changed in between.
  pub receive_webhook-receive_webhook :
      (v : GitFlameWebhookRegistration) (event : GitFlameWebhookEvent) (s : MemoryStore)
      → webhook id s ≡ ok v
      → (receive_webhook libraries master_key now fresh id request s).0 ≡ received event
      → is_empty delivery_id ≡ false
      → suc (length (events_of v.id s.events)) ≤ 100
      → let reached = (receive_webhook libraries master_key now fresh id request s).1 in
        (w : GitFlameWebhookEvent) × (receive_webhook libraries master_key later other id request
            reached
          ≡ (duplicate w.id, reached))
  receive_webhook-receive_webhook v event s registered answered filled few =
      elim (receive_webhook-Taken libraries master_key now fresh id request s) [
        | inl (refusal, same) ↦
            absurd (subst (IsReason libraries master_key now fresh id request s) answered refusal)
        | inr t ↦
            Taken-again v s (receive_webhook libraries master_key now fresh id request s) t
              registered filled few
      ]
