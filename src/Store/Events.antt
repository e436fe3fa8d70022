-- ===== src/Store/Events.antt =====
-- Webhook events (backend/internal/repository/memory.go): `SaveGitFlameWebhookEvent` and
-- `GitFlameWebhookEvents`. A child module says which events are listed.
pub mod Listed
use capstone_project_git_fla.Prelude.{
  ℕ, suc, ◌≤◌, Bool, true, false, not, ◌&&◌, ◌||◌, List, [], ◌∷◌, ◌≡◌, ◌⊎◌, inl, inr, refl, arith,
  Bytes, codes, ◌==◌, is_empty, eqb, ltb, leb, take, length, Member, ℤ, pos, negsuc, leb_ℤ,
  if◌then◌else◌,
}
use capstone_project_git_fla.Prelude.Map.{Map, lookup, insert}
use capstone_project_git_fla.Domain.Accounts.{GitFlameWebhookEvent}
use capstone_project_git_fla.Store.{MemoryStore}
use capstone_project_git_fla.Store.Connections.{or_text}

unfoldable pub save_event :
    ℕ → Bytes → GitFlameWebhookEvent → MemoryStore → GitFlameWebhookEvent × MemoryStore
save_event now fresh v s =
    let saved = record v {
      id = or_text v.id fresh;
      status = or_text v.status (codes "received");
      received_at = if eqb v.received_at 0 then now else v.received_at;
    } in
    (saved, record s { events = insert saved.id saved s.events })

unfoldable pub events_of : Bytes → Map GitFlameWebhookEvent → List GitFlameWebhookEvent
events_of webhook_id [] = []
events_of webhook_id ((id, v) ∷ m) =
    let rest = events_of webhook_id m in if v.webhook_id == webhook_id then v ∷ rest else rest

-- in front of the events that are not older
unfoldable pub insert_event :
    GitFlameWebhookEvent → List GitFlameWebhookEvent → List GitFlameWebhookEvent
insert_event v [] = v ∷ []
insert_event v (w ∷ vs) =
    let rest = insert_event v vs in if leb w.received_at v.received_at then v ∷ w ∷ vs else w ∷ rest

-- The newest event first; which of two at one time comes first is left open by the map's order.
unfoldable pub sort_events : List GitFlameWebhookEvent → List GitFlameWebhookEvent
sort_events [] = []
sort_events (v ∷ vs) = insert_event v (sort_events vs)

abbrev pub event_limit : ℤ → ℕ
event_limit (pos n) = if leb 1 n && leb n 100 then n else 50
event_limit (negsuc n) = 50

unfoldable pub webhook_events : Bytes → ℤ → MemoryStore → List GitFlameWebhookEvent
webhook_events webhook_id limit s =
    take (event_limit limit) (sort_events (events_of webhook_id s.events))
