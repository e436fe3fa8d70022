-- ===== src/Webhooks/Authentic/Checked.antt =====
-- `validWebhookRequest` against what an authentic request is.
use capstone_project_git_fla.Prelude.{
  Bool, true, false, not, ◌||◌, Option, none, some, List, [], ◌∷◌, ◌≡◌, ◌≢◌, ◌⊎◌, inl, inr, ◌↔◌,
  refl, sym, ap, ◌∙◌, arith, Bytes, codes, ◌==◌, eq_iff, is_empty, length, drop, Bool-cases,
  if◌then◌else◌,
}
use mathlib.Core.Path.{subst}
use capstone_project_git_fla.Text.{trim_space, has_prefix, trim_prefix, split}
use capstone_project_git_fla.Domain.Accounts.{GitFlameWebhookRegistration}
use capstone_project_git_fla.Webhooks.{
  Libraries, first_non_empty_header, derive_webhook_secret, version1_parts, same_digest, hash_of,
  valid_webhook_secret, webhook_secret_from_request, valid_signature, valid_signatures,
  valid_webhook_request,
}
use capstone_project_git_fla.Webhooks.Authentic.{
  IsFirstFilled, IsDigestOf, secret_headers, IsPresented, IsHexOf, HasSecret, IsSignature,
  HasSignature, IsAuthentic,
}

pub is_empty_iff : (s : Bytes) → (is_empty s ≡ true) ↔ (s ≡ [])
is_empty_iff [] = ((λ h. refl), (λ h. refl))
is_empty_iff (c ∷ s) = ((λ h. cc), (λ h. cc))

pub first_non_empty_header-IsFirstFilled :
    (header : Bytes → Bytes) (names : List Bytes)
    → IsFirstFilled header names (first_non_empty_header header names)
unfolding first_non_empty_header IsFirstFilled
first_non_empty_header-IsFirstFilled header [] = refl
first_non_empty_header-IsFirstFilled header (name ∷ names) =
    let rest = first_non_empty_header-IsFirstFilled header names in
    let (to, from) = is_empty_iff (trim_space (header name)) in
    elim (Bool-cases (is_empty (trim_space (header name)))) [
      | inl b ↦ inr (to b, rw b rest)
      | inr b ↦ inl (ground (arith, from), rw b refl)
    ]

pub IsFirstFilled-first_non_empty_header :
    (header : Bytes → Bytes) (names : List Bytes) (value : Bytes)
    → IsFirstFilled header names value
    → first_non_empty_header header names ≡ value
unfolding first_non_empty_header IsFirstFilled
IsFirstFilled-first_non_empty_header header [] value e = sym e
IsFirstFilled-first_non_empty_header header (name ∷ names) value (inl (n, e)) =
    let (to, from) = is_empty_iff (trim_space (header name)) in ground (arith, to, n, e)
IsFirstFilled-first_non_empty_header header (name ∷ names) value (inr (b, h)) =
    let (to, from) = is_empty_iff (trim_space (header name)) in
    rw (from b) (IsFirstFilled-first_non_empty_header header names value h)

or-true :
    (a b : Bool) {P Q : Type 0} → (a ≡ true) ↔ P → (b ≡ true) ↔ Q → ((a || b) ≡ true) ↔ (P ⊎ Q)
or-true true b (p, p') q = ((λ h. inl (p refl)), (λ h. refl))
or-true false b (p, p') (q, q') =
    ((λ h. inr (q h)), (λ h. elim h [ inl x ↦ cc (p' x) | inr y ↦ q' y ]))

first_iff :
    (header : Bytes → Bytes) (names : List Bytes) (value : Bytes)
    → (first_non_empty_header header names ≡ value) ↔ IsFirstFilled header names value
first_iff header names value = (
  (λ e. subst (IsFirstFilled header names) e (first_non_empty_header-IsFirstFilled header names)),
  IsFirstFilled-first_non_empty_header header names value,
)

choice_iff :
    (found token secret : Bytes) (p : Bool)
    → (((if not (is_empty found) then found else if p then token else []) ≡ secret) × (secret ≢ []))
      ↔ ((secret ≢ []) × ((found ≡ secret) ⊎ ((found ≡ []) × (p ≡ true) × (secret ≡ token))))
choice_iff (c ∷ found) token secret p =
    ((λ (e, n). (n, inl e)), (λ (n, k). (elim k [ inl e ↦ e | inr (e, _, _) ↦ cc e ], n)))
choice_iff [] token secret true = (
  (λ (e, n). (n, inr (refl, refl, sym e))),
  (λ (n, k). (elim k [ inl e ↦ absurd (n (sym e)) | inr (_, _, e) ↦ sym e ], n)),
)
choice_iff [] token secret false = (
  (λ (e, n). absurd (n (sym e))),
  (λ (n, k). absurd (elim k [ inl e ↦ n (sym e) | inr (_, e, _) ↦ cc e ])),
)

module _ (libraries : Libraries) where
  same_digest_iff :
      (text digest : Bytes)
      → (same_digest libraries (libraries.decode_hex text) digest ≡ true)
        ↔ IsHexOf libraries text digest
  same_digest_iff text digest = go (libraries.decode_hex text)
    where
      go :
          (o : Option Bytes)
          → (same_digest libraries o digest ≡ true) ↔ ((o ≡ some digest) × (length digest ≡ 32))
      go none = ((λ h. cc), (λ (e, l). cc))
      go (some decoded) = (
        (λ h.
            let e : decoded ≡ digest = (eq_iff decoded digest).0 (ground arith) in
            let l : length decoded ≡ 32 = ground arith in (ap some e, sym (ap length e) ∙ l)),
        (λ (e, l).
            let same : decoded ≡ digest = cc e in
            let short : length decoded ≡ 32 = ap length same ∙ l in
            ground (arith, (eq_iff decoded digest).1 same, short)),
      )

  version1_parts_iff :
      (parts : List Bytes) (salt digest : Bytes)
      → (version1_parts libraries parts ≡ some (salt, digest))
        ↔ (parts ≡ codes "v1" ∷ salt ∷ digest ∷ [])
  unfolding version1_parts
  version1_parts_iff [] salt digest = ((λ h. cc), (λ h. cc))
  version1_parts_iff (v ∷ []) salt digest = ((λ h. cc), (λ h. cc))
  version1_parts_iff (v ∷ t ∷ []) salt digest = ((λ h. cc), (λ h. cc))
  version1_parts_iff (v ∷ t ∷ d ∷ []) salt digest =
      let (to, from) = eq_iff v (codes "v1") in
      elim (Bool-cases (v == codes "v1")) [
        | inl b ↦ let e = to b in ((λ h. cc (h, e, b)), (λ h. cc (h, b)))
        | inr b ↦ ((λ h. cc (h, b)), (λ h. let e : v ≡ codes "v1" = cc h in cc (from e, b)))
      ]
  version1_parts_iff (v ∷ t ∷ d ∷ x ∷ parts) salt digest = ((λ h. cc), (λ h. cc))

  hash_of-IsDigestOf :
      (stored : Bytes)
      → IsDigestOf stored (hash_of libraries stored (version1_parts libraries (split b':' stored)))
  unfolding hash_of
  hash_of-IsDigestOf stored = go (version1_parts libraries (split b':' stored)) refl
    where
      go :
          (o : Option (Bytes × Bytes))
          → version1_parts libraries (split b':' stored) ≡ o
          → IsDigestOf stored (hash_of libraries stored o)
      go none h =
          inr (
            refl,
            (λ salt other v. cc (h, (version1_parts_iff (split b':' stored) salt other).1 v)),
          )
      go (some (salt, digest)) h =
          inl (salt, (version1_parts_iff (split b':' stored) salt digest).0 h)

  IsDigestOf-hash_of :
      (stored digest : Bytes)
      → IsDigestOf stored digest
      → hash_of libraries stored (version1_parts libraries (split b':' stored)) ≡ digest
  unfolding hash_of
  IsDigestOf-hash_of stored digest (inl (salt, v)) =
      rw ((version1_parts_iff (split b':' stored) salt digest).1 v) refl
  IsDigestOf-hash_of stored digest (inr (e, n)) =
      go (version1_parts libraries (split b':' stored)) refl
    where
      go :
          (o : Option (Bytes × Bytes))
          → version1_parts libraries (split b':' stored) ≡ o
          → hash_of libraries stored o ≡ digest
      go none h = sym e
      go (some (salt, other)) h =
          absurd (n salt other ((version1_parts_iff (split b':' stored) salt other).0 h))

  secret_iff :
      (header : Bytes → Bytes) (secret : Bytes)
      → ((webhook_secret_from_request libraries header ≡ secret) × (secret ≢ []))
        ↔ IsPresented libraries header secret
  unfolding webhook_secret_from_request
  secret_iff header secret =
      let authorization = trim_space (header (codes "Authorization")) in
      let found = first_non_empty_header header secret_headers in
      let (to, from) =
        choice_iff found (trim_space (drop 7 authorization)) secret
          (has_prefix (libraries.to_lower authorization) (codes "bearer ")) in
      let filled = first_iff header secret_headers secret in
      let blank = first_iff header secret_headers [] in
      (
        (λ h.
            let (n, k) = to h in
            (n, elim k [ inl e ↦ inl (filled.0 e) | inr (e, p, t) ↦ inr (blank.0 e, p, t) ])),
        (λ (n, k).
            from (n, elim k [ inl e ↦ inl (filled.1 e) | inr (e, p, t) ↦ inr (blank.1 e, p, t) ])),
      )

  HasSecret-iff :
      (stored : Bytes) (header : Bytes → Bytes)
      → (valid_webhook_secret libraries stored (webhook_secret_from_request libraries header)
          ≡ true)
        ↔ HasSecret libraries stored header
  unfolding valid_webhook_secret
  HasSecret-iff stored header = (
    (λ h.
        let n : is_empty secret ≡ false = ground arith in
        let k : same_digest libraries (libraries.decode_hex hash) (libraries.sum256 secret) ≡ true =
          ground arith in
        (
          secret,
          (secret_iff header secret).0 (refl, λ e. cc (n, (is_empty_iff secret).1 e)),
          (hash, hash_of-IsDigestOf stored, (same_digest_iff hash (libraries.sum256 secret)).0 k),
        )),
    (λ (t, presented, (digest, d, hex)).
        let (e, n) = (secret_iff header t).1 presented in
        let k = (same_digest_iff digest (libraries.sum256 t)).1 hex in
        let (to, from) = is_empty_iff t in
        rw (e, IsDigestOf-hash_of stored digest d, k) (ground (arith, to, n))),
  )
    where
      secret : Bytes
      secret = webhook_secret_from_request libraries header

      hash : Bytes
      hash = hash_of libraries stored (version1_parts libraries (split b':' stored))

  HasSignature-iff :
      (master_key : Bytes) (v : GitFlameWebhookRegistration) (header : Bytes → Bytes) (body : Bytes)
      → (valid_signatures libraries master_key v.id header body
            (version1_parts libraries (split b':' v.webhook_secret_hash))
          ≡ true)
        ↔ HasSignature libraries master_key v header body
  unfolding valid_signatures valid_signature derive_webhook_secret
  HasSignature-iff master_key v header body =
      (to (version1_parts libraries (split b':' v.webhook_secret_hash)) refl, from)
    where
      stored : Bytes
      stored = v.webhook_secret_hash

      signed_iff :
          (salt signature : Bytes)
          → (valid_signature libraries
                (derive_webhook_secret libraries master_key v.id salt)
                body
                signature
              ≡ true)
            ↔ IsSignature libraries master_key v.id salt body signature
      signed_iff salt signature =
          same_digest_iff (trim_prefix (trim_space signature) (codes "sha256="))
            (libraries.hmac256 (derive_webhook_secret libraries master_key v.id salt) body)

      either_iff :
          (salt : Bytes)
          → ((valid_signature libraries
                  (derive_webhook_secret libraries master_key v.id salt)
                  body
                  (header (codes "X-Gitea-Signature"))
                || valid_signature libraries
                    (derive_webhook_secret libraries master_key v.id salt)
                    body
                    (header (codes "X-Hub-Signature-256")))
              ≡ true)
            ↔ (IsSignature libraries master_key v.id salt body (header (codes "X-Gitea-Signature"))
                ⊎ IsSignature libraries master_key v.id salt body
                    (header (codes "X-Hub-Signature-256")))
      either_iff salt =
          or-true _ _ (signed_iff salt (header (codes "X-Gitea-Signature")))
            (signed_iff salt (header (codes "X-Hub-Signature-256")))

      to :
          (o : Option (Bytes × Bytes))
          → version1_parts libraries (split b':' stored) ≡ o
          → valid_signatures libraries master_key v.id header body o ≡ true
          → HasSignature libraries master_key v header body
      to none h k = cc k
      to (some (salt, digest)) h k = (
        salt,
        (digest, (version1_parts_iff (split b':' stored) salt digest).0 h),
        (either_iff salt).0 k,
      )

      from :
          HasSignature libraries master_key v header body
          → valid_signatures libraries master_key v.id header body
              (version1_parts libraries (split b':' stored))
            ≡ true
      from (salt, (digest, e), k) =
          rw ((version1_parts_iff (split b':' stored) salt digest).1 e) ((either_iff salt).1 k)

  -- A request is let through exactly when it is authentic.
  pub valid_webhook_request_iff :
      (master_key : Bytes) (v : GitFlameWebhookRegistration) (header : Bytes → Bytes) (body : Bytes)
      → (valid_webhook_request libraries master_key v header body ≡ true)
        ↔ IsAuthentic libraries master_key v header body
  unfolding valid_webhook_request
  valid_webhook_request_iff master_key v header body =
      or-true _ _ (HasSecret-iff v.webhook_secret_hash header)
        (HasSignature-iff master_key v header body)
