-- ===== src/Engine/Accepts.antt =====
-- Which responses of the Agent Engine are accepted.
use capstone_project_git_fla.Engine.Answers.{Requests, sent_iff, Requests_iff}
use capstone_project_git_fla.Prelude.{
  ℕ, ap, Bool, true, false, not, ◌||◌, Option, none, some, List, [], ◌∷◌, ◌++◌, ◌≡◌, ◌≢◌, ◌↔◌, ◌⊎◌,
  inl, inr, refl, sym, Bytes, codes, ◌==◌, eq_iff, is_empty,
}
use mathlib.Core.Path.{subst}
use mathlib.Core.Option.{some-injective}
use capstone_project_git_fla.Text.{is_blank}
use capstone_project_git_fla.Domain.Agent.{
  AgentPlanRequest, AgentPlanResponse, AgentCodeGenerationRequest, AgentGeneratedFilesResponse,
}
use capstone_project_git_fla.Errors.{Result, ok, err, ◌>>◌, >>_iff}
use capstone_project_git_fla.Engine.{
  Libraries, is_none, check, check_response, accept_plan, accept_generated_files, generate_plan,
  generate_files,
}

check_iff :
    (b : Bool) (status : ℕ) (code detail : Bytes)
    → (check b status code detail ≡ ok tt) ↔ (b ≡ true)
check_iff true status code detail = ((λ h. refl), (λ h. refl))
check_iff false status code detail = ((λ h. cc), (λ h. cc))

-- The text is left out, or it is the expected one.
abbrev pub IsAbsentOr : Bytes → Bytes → Type 0
IsAbsentOr expected text = (text ≡ []) ⊎ (text ≡ expected)

IsAbsentOr-iff :
    (expected text : Bytes)
    → ((is_empty text || text == expected) ≡ true) ↔ IsAbsentOr expected text
IsAbsentOr-iff expected [] = ((λ h. inl refl), (λ h. refl))
IsAbsentOr-iff expected (c ∷ s) = (
  (λ h. inr ((eq_iff (c ∷ s) expected).0 h)),
  (λ h. elim h [ inl e ↦ cc | inr e ↦ (eq_iff (c ∷ s) expected).1 e ]),
)

check_response_iff :
    (request_id response_id status detail : Bytes)
    → (check_response request_id response_id status detail ≡ ok tt)
      ↔ (IsAbsentOr request_id response_id × IsAbsentOr (codes "completed") status)
unfolding check_response
check_response_iff request_id response_id status detail =
    let both =
      >>_iff (check (is_empty response_id || response_id == request_id) 502 _ _)
        (check (is_empty status || status == codes "completed") 502 _ _) in
    let id = IsAbsentOr-iff request_id response_id in
    let completed = IsAbsentOr-iff (codes "completed") status in
    (
      (λ h.
          let (a, b) = both.0 h in
          (id.0 ((check_iff _ _ _ _).0 a), completed.0 ((check_iff _ _ _ _).0 b))),
      (λ (a, b). both.1 ((check_iff _ _ _ _).1 (id.1 a), (check_iff _ _ _ _).1 (completed.1 b))),
    )

-- two checks, and then their subject
checked_iff :
    {A : Type 0} (a b : Result (Unit {0})) (x r : A)
    → ((a >> (b >> ok x)) ≡ ok r) ↔ ((a ≡ ok tt) × (b ≡ ok tt) × (x ≡ r))
checked_iff (ok u) (ok v) x r = ((λ h. (refl, refl, cc)), (λ (d, e, h). cc))
checked_iff (ok u) (err e) x r = ((λ h. cc), (λ (d, e, h). cc))
checked_iff (err e) b x r = ((λ h. cc), (λ (d, e, h). cc))

not_iff : (b : Bool) → (not b ≡ true) ↔ (b ≡ false)
not_iff true = ((λ h. cc), (λ h. cc))
not_iff false = ((λ h. refl), (λ h. refl))

-- What a plan must be, for the request.
abbrev pub IsPlanFor : AgentPlanRequest → AgentPlanResponse → Type 0
IsPlanFor request r =
    IsAbsentOr request.request_id r.request_id
    × IsAbsentOr (codes "completed") r.status
    × (is_blank r.plan_markdown ≡ false)

abbrev pub IsContractFor : AgentCodeGenerationRequest → AgentGeneratedFilesResponse → Type 0
IsContractFor request r =
    IsAbsentOr request.request_id r.request_id
    × IsAbsentOr (codes "completed") r.status
    × (r.files ≢ [])

is_none_iff : {A : Type 0} (xs : List A) → (is_none xs ≡ false) ↔ (xs ≢ [])
is_none_iff [] = ((λ h. cc), (λ h. absurd (h refl)))
is_none_iff (x ∷ xs) = ((λ h. λ e. cc), (λ h. refl))

accept_plan_iff :
    (request : AgentPlanRequest) (o : Option AgentPlanResponse) (r : AgentPlanResponse)
    → (accept_plan request o ≡ ok r) ↔ ((o ≡ some r) × IsPlanFor request r)
unfolding accept_plan
accept_plan_iff request none r = ((λ h. cc), (λ (e, h). cc))
accept_plan_iff request (some q) r =
    let all =
      checked_iff (check_response request.request_id q.request_id q.status _)
        (check (not (is_blank q.plan_markdown)) 422 _ _) q r in
    let response = check_response_iff request.request_id q.request_id q.status _ in
    let filled = check_iff (not (is_blank q.plan_markdown)) 422 _ _ in
    let blank = not_iff (is_blank q.plan_markdown) in
    (
      (λ h.
          let (a, b, e) = all.0 h in
          let (i, k) = response.0 a in
          (ap some e, subst (IsPlanFor request) e (i, k, blank.0 (filled.0 b)))),
      (λ (e, h).
          let e' = some-injective q r e in
          let (i, k, n) = subst (IsPlanFor request) (sym e') h in
          all.1 (response.1 (i, k), filled.1 (blank.1 n), e')),
    )

accept_generated_files_iff :
    (request : AgentCodeGenerationRequest) (o : Option AgentGeneratedFilesResponse)
    (r : AgentGeneratedFilesResponse)
    → (accept_generated_files request o ≡ ok r) ↔ ((o ≡ some r) × IsContractFor request r)
unfolding accept_generated_files
accept_generated_files_iff request none r = ((λ h. cc), (λ (e, h). cc))
accept_generated_files_iff request (some q) r =
    let all =
      checked_iff (check_response request.request_id q.request_id q.status _)
        (check (not (is_none q.files)) 422 _ _) q r in
    let response = check_response_iff request.request_id q.request_id q.status _ in
    let filled = check_iff (not (is_none q.files)) 422 _ _ in
    let some_files = not_iff (is_none q.files) in
    let listed = is_none_iff q.files in
    (
      (λ h.
          let (a, b, e) = all.0 h in
          let (i, k) = response.0 a in
          (
            ap some e,
            subst (IsContractFor request) e (i, k, listed.0 (some_files.0 (filled.0 b))),
          )),
      (λ (e, h).
          let e' = some-injective q r e in
          let (i, k, n) = subst (IsContractFor request) (sym e') h in
          all.1 (response.1 (i, k), filled.1 (some_files.1 (listed.1 n)), e')),
    )

module _ (libraries : Libraries) (base_url : Bytes) where
  -- `GeneratePlan` returns a plan exactly when the request is made and answered with a status from 200 to 299, the body decodes to that plan, its request id is the request's or left out, its status is "completed" or left out, and its text is not blank.
  pub generate_plan_iff :
      (request : AgentPlanRequest) (r : AgentPlanResponse)
      → (generate_plan libraries base_url request ≡ ok r)
        ↔ Requests libraries
            (libraries.encode_plan request)
            (base_url ++ codes "/v1/plans/generate")
            (λ text. (libraries.decode_plan text ≡ some r) × IsPlanFor request r)
  unfolding generate_plan
  generate_plan_iff request r =
      let a =
        sent_iff libraries (base_url ++ codes "/v1/plans/generate")
          (λ text. accept_plan request (libraries.decode_plan text))
          (codes "Agent Engine request timed out") r (libraries.encode_plan request) in
      let b =
        Requests_iff libraries (libraries.encode_plan request)
          (base_url ++ codes "/v1/plans/generate") _ _
          (λ text. accept_plan_iff request (libraries.decode_plan text) r) in
      ((λ h. b.0 (a.0 h)), (λ h. a.1 (b.1 h)))

  -- `GenerateFiles` returns a contract exactly when the request is made and answered with a status from 200 to 299, the body decodes to that contract, its request id is the request's or left out, its status is "completed" or left out, and it has a file.
  pub generate_files_iff :
      (request : AgentCodeGenerationRequest) (r : AgentGeneratedFilesResponse)
      → (generate_files libraries base_url request ≡ ok r)
        ↔ Requests libraries
            (libraries.encode_files request)
            (base_url ++ codes "/v1/files/generate")
            (λ text. (libraries.decode_files text ≡ some r) × IsContractFor request r)
  unfolding generate_files
  generate_files_iff request r =
      let a =
        sent_iff libraries (base_url ++ codes "/v1/files/generate")
          (λ text. accept_generated_files request (libraries.decode_files text))
          (codes "Agent Engine code generation request timed out") r
          (libraries.encode_files request) in
      let b =
        Requests_iff libraries (libraries.encode_files request)
          (base_url ++ codes "/v1/files/generate") _ _
          (λ text. accept_generated_files_iff request (libraries.decode_files text) r) in
      ((λ h. b.0 (a.0 h)), (λ h. a.1 (b.1 h)))
