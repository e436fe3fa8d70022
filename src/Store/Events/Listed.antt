-- ===== src/Store/Events/Listed.antt =====
-- A stored event is among those that are listed for its webhook.
use capstone_project_git_fla.Prelude.{
  ℕ, zero, suc, ◌≤◌, Bool, true, false, List, [], ◌∷◌, ◌≡◌, ◌⊎◌, inl, inr, refl, ap, arith, Bytes,
  ◌==◌, leb, take, length, Member, pos, if◌then◌else◌,
}
use capstone_project_git_fla.Prelude.Map.{Map, insert}
use capstone_project_git_fla.Domain.Accounts.{GitFlameWebhookEvent}
use capstone_project_git_fla.Store.{MemoryStore}
use capstone_project_git_fla.Store.Events.{
  save_event, events_of, insert_event, sort_events, webhook_events,
}

take_all : {A : Type 0} (n : ℕ) (xs : List A) → length xs ≤ n → take n xs ≡ xs
take_all zero [] h = refl
take_all zero (x ∷ xs) h = absurd (omega arith)
take_all (suc n) [] h = refl
take_all (suc n) (x ∷ xs) h = ap (λ ys. x ∷ ys) (take_all n xs (omega arith))

Member-if :
    {A : Type 0} (b : Bool) (x v : A) (xs : List A)
    → Member x xs
    → Member x (if b then v ∷ xs else xs)
Member-if true x v xs m = inr m
Member-if false x v xs m = m

length-if :
    {A : Type 0} (n : ℕ) (b : Bool) (v : A) (xs ys : List A)
    → length xs ≤ suc (length ys)
    → length (if b then v ∷ xs else xs) ≤ suc (length (if b then v ∷ ys else ys))
length-if n true v xs ys h = omega arith
length-if n false v xs ys h = h

module _ (key webhook_id : Bytes) (v : GitFlameWebhookEvent) where
  events_of-insert :
      (m : Map GitFlameWebhookEvent)
      → (v.webhook_id == webhook_id) ≡ true
      → Member v (events_of webhook_id (insert key v m))
  unfolding events_of insert
  events_of-insert [] e = rw e (inl refl)
  events_of-insert ((name, w) ∷ m) e = step (name == key) (events_of-insert m e)
    where
      step :
          (b : Bool)
          → Member v (events_of webhook_id (insert key v m))
          → Member v (events_of webhook_id (if b then (key, v) ∷ m else (name, w) ∷ insert key v m))
      step true h = rw e (inl refl)
      step false h = Member-if (w.webhook_id == webhook_id) v w _ h

  length-events_of-insert :
      (m : Map GitFlameWebhookEvent)
      → length (events_of webhook_id (insert key v m)) ≤ suc (length (events_of webhook_id m))
  unfolding events_of insert
  length-events_of-insert [] = ground arith
  length-events_of-insert ((name, w) ∷ m) = step (name == key) (length-events_of-insert m)
    where
      replaced :
          (a b : Bool) (xs : List GitFlameWebhookEvent)
          → length (if a then v ∷ xs else xs) ≤ suc (length (if b then w ∷ xs else xs))
      replaced true true xs = omega arith
      replaced true false xs = omega arith
      replaced false true xs = omega arith
      replaced false false xs = omega arith

      step :
          (b : Bool)
          → length (events_of webhook_id (insert key v m)) ≤ suc (length (events_of webhook_id m))
          → length (events_of webhook_id (if b then (key, v) ∷ m else (name, w) ∷ insert key v m))
            ≤ suc (length (events_of webhook_id ((name, w) ∷ m)))
      step true h =
          replaced (v.webhook_id == webhook_id) (w.webhook_id == webhook_id)
            (events_of webhook_id m)
      step false h = length-if 0 (w.webhook_id == webhook_id) w _ _ h

insert_event-Member :
    (x v : GitFlameWebhookEvent) (vs : List GitFlameWebhookEvent)
    → (x ≡ v) ⊎ Member v vs
    → Member v (insert_event x vs)
unfolding insert_event
insert_event-Member x v [] (inl e) = inl e
insert_event-Member x v [] (inr m) = absurd m
insert_event-Member x v (w ∷ vs) h =
    step (leb w.received_at x.received_at) h (λ k. insert_event-Member x v vs k)
  where
    step :
        (b : Bool)
        → (x ≡ v) ⊎ Member v (w ∷ vs)
        → ((x ≡ v) ⊎ Member v vs → Member v (insert_event x vs))
        → Member v (if b then x ∷ w ∷ vs else w ∷ insert_event x vs)
    step true (inl e) k = inl e
    step true (inr m) k = inr m
    step false (inl e) k = inr (k (inl e))
    step false (inr (inl e)) k = inl e
    step false (inr (inr m)) k = inr (k (inr m))

length-insert_event :
    (x : GitFlameWebhookEvent) (vs : List GitFlameWebhookEvent)
    → length (insert_event x vs) ≡ suc (length vs)
unfolding insert_event
length-insert_event x [] = refl
length-insert_event x (w ∷ vs) = step (leb w.received_at x.received_at) (length-insert_event x vs)
  where
    step :
        (b : Bool)
        → length (insert_event x vs) ≡ suc (length vs)
        → length (if b then x ∷ w ∷ vs else w ∷ insert_event x vs) ≡ suc (suc (length vs))
    step true h = refl
    step false h = ap suc h

sort_events-Member :
    (v : GitFlameWebhookEvent) (vs : List GitFlameWebhookEvent)
    → Member v vs
    → Member v (sort_events vs)
unfolding sort_events
sort_events-Member v [] m = m
sort_events-Member v (w ∷ vs) (inl e) = insert_event-Member w v (sort_events vs) (inl e)
sort_events-Member v (w ∷ vs) (inr m) =
    insert_event-Member w v (sort_events vs) (inr (sort_events-Member v vs m))

length-sort_events : (vs : List GitFlameWebhookEvent) → length (sort_events vs) ≡ length vs
unfolding sort_events
length-sort_events [] = refl
length-sort_events (v ∷ vs) =
    omega (arith, length-insert_event v (sort_events vs), length-sort_events vs)

-- The event that is saved is listed for its webhook, as long as that had fewer than 100 events.
pub webhook_events-save_event :
    (now : ℕ) (fresh webhook_id : Bytes) (v : GitFlameWebhookEvent) (s : MemoryStore)
    → (v.webhook_id == webhook_id) ≡ true
    → suc (length (events_of webhook_id s.events)) ≤ 100
    → Member
        (save_event now fresh v s).0
        (webhook_events webhook_id (pos 100) (save_event now fresh v s).1)
unfolding save_event webhook_events
webhook_events-save_event now fresh webhook_id v s e h =
    let saved = (save_event now fresh v s).0 in
    let m = insert saved.id saved s.events in
    rw
      (take_all 100 (sort_events (events_of webhook_id m)) (
        omega (
          arith,
          length-sort_events (events_of webhook_id m),
          length-events_of-insert saved.id webhook_id saved s.events,
        )))
      (sort_events-Member saved (events_of webhook_id m)
        (events_of-insert saved.id webhook_id saved s.events e))
