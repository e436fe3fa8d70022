-- ===== src/Queue/Broker/Bounded.antt =====
-- `Publish` on a stream with the documented behaviour of XLEN and XADD.
use capstone_project_git_fla.Prelude.{
  ℕ, ◌≤◌, ◌<◌, Bool, true, false, List, [], ◌∷◌, ◌++◌, ◌≡◌, ◌⊎◌, inl, inr, refl, sym, arith, Bytes,
  codes, length, leb, pos, length-append, if◌then◌else◌,
}
use capstone_project_git_fla.Domain.Agent.{AgentJob}
use capstone_project_git_fla.Prelude.{Option, some}
use capstone_project_git_fla.Errors.{Err, Result, ok, err}
use capstone_project_git_fla.Effect.{Step, ◌>>=◌, continue_with, give, from}
use capstone_project_git_fla.Queue.Resp.{Reply, number}
use capstone_project_git_fla.Queue.Connection.{RedisBroker}
use capstone_project_git_fla.Queue.Broker.{queue_full, publish}

abbrev pub length_request : RedisBroker → List Bytes
length_request broker = codes "XLEN" ∷ broker.stream ∷ []

abbrev pub add_request : RedisBroker → Bytes → List Bytes
add_request broker payload = codes "XADD" ∷ broker.stream ∷ codes "*" ∷ codes "job" ∷ payload ∷ []

-- A request that succeeds appends; one that fails may have been carried out.
abbrev pub Appends : List Bytes → Bytes → Result Reply → List Bytes → Type 0
Appends before payload (ok reply) after = after ≡ before ++ payload ∷ []
Appends before payload (err e) after = (after ≡ before) ⊎ (after ≡ before ++ payload ∷ [])

-- XLEN answers with the number of entries, if at all, and leaves them; XADD adds its entry behind
-- the others. `entries` is the payloads on the stream.
pub record StreamLaws {S : Type 0} (broker : RedisBroker) (command : List Bytes → Step S Reply)
    (entries : S → List Bytes) : Type 0 where
  pub counts :
      (s : S)
      → (command (length_request broker) s ≡ (ok (number (pos (length (entries s)))), s))
        ⊎ ((e : Err) × (command (length_request broker) s ≡ (err e, s)))
  pub appends :
      (payload : Bytes) (s : S)
      → Appends
          (entries s)
          payload
          (command (add_request broker payload) s).0
          (entries (command (add_request broker payload) s).1)

-- The payloads afterwards are those before with the job's one behind them, or those before, which
-- only an error leaves.
abbrev pub Publishes : Result Bytes → List Bytes → Result (Unit {0}) → List Bytes → Type 0
Publishes payload before (ok u) after = (p : Bytes) × (payload ≡ ok p) × (after ≡ before ++ p ∷ [])
Publishes payload before (err e) after =
    (after ≡ before) ⊎ ((p : Bytes) × (payload ≡ ok p) × (after ≡ before ++ p ∷ []))

not_full : (max n : ℕ) → leb max n ≡ false → n < max
not_full max n e = ground arith

module _ {S : Type 0} (broker : RedisBroker) (command : List Bytes → Step S Reply)
    (marshal : Option AgentJob → Result Bytes) (unmarshal : Bytes → Result AgentJob)
    (entries : S → List Bytes) (laws : StreamLaws broker command entries) (max : ℕ) where
  -- what the theorem says of a result and the state it reaches
  abbrev pub Bounded : Result Bytes → S → Result (Unit {0}) × S → Type 0
  Bounded payload s outcome =
      Publishes payload (entries s) outcome.0 (entries outcome.1)
      × (length (entries outcome.1) ≤ max)

  rejected :
      (payload : Result Bytes) (s : S) (e : Err)
      → length (entries s) ≤ max
      → Bounded payload s (err e, s)
  rejected payload s e h = (inl refl, h)

  longer : (xs ys : List Bytes) (p : Bytes) → length xs < max → ys ≡ xs ++ p ∷ [] → length ys ≤ max
  longer xs ys p h e = rw e (omega (arith, length-append xs (p ∷ [])))

  added :
      (p : Bytes) (s reached : S) (result : Result Reply)
      → length (entries s) < max
      → Appends (entries s) p result (entries reached)
      → Bounded (ok p) s (continue_with result (λ reply. give tt) reached)
  added p s reached (ok reply) h e = ((p, refl, e), longer (entries s) (entries reached) p h e)
  added p s reached (err c) h (inl e) = (inl e, rw e (omega arith))
  added p s reached (err c) h (inr e) =
      (inr (p, refl, e), longer (entries s) (entries reached) p h e)

  sent :
      (payload : Result Bytes) (s : S)
      → length (entries s) < max
      → Bounded payload s
          (continue_with payload (λ p. command (add_request broker p) >>= λ reply. give tt) s)
  sent (err e) s h = rejected (err e) s e (omega arith)
  sent (ok p) s h =
      added p s (command (add_request broker p) s).1 (command (add_request broker p) s).0 h
        (laws.appends p s)

  tested :
      (payload : Result Bytes) (s : S) (full : Bool)
      → full ≡ leb max (length (entries s))
      → length (entries s) ≤ max
      → Bounded payload s (
          continue_with
            (if full then err queue_full else ok tt)
            (λ u. from payload >>= λ p. command (add_request broker p) >>= λ reply. give tt)
            s)
  tested payload s true e h = rejected payload s queue_full h
  tested payload s false e h = sent payload s (not_full max (length (entries s)) (sym e))

  -- On a stream of at most `maxLength` entries, a `Publish` that succeeds adds the encoded job behind the others, one that fails adds it or nothing, and the stream has at most `maxLength` entries afterwards. Redis answers XLEN and XADD as documented, and no other client adds an entry between the two.
  pub publish-Bounded :
      (job : AgentJob) (s : S)
      → broker.max_length ≡ pos max
      → length (entries s) ≤ max
      → Bounded (marshal (some job)) s (publish broker command marshal unmarshal job s)
  unfolding publish
  publish-Bounded job s m h = elim (laws.counts s) [
    | inl e ↦
        rw (publish, e, m) (tested (marshal (some job)) s (leb max (length (entries s))) refl h)
    | inr (c, e) ↦ rw (publish, e) (rejected (marshal (some job)) s c h)
  ]
