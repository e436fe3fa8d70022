-- ===== src/Webhooks/Authentic.antt =====
-- Which requests `validWebhookRequest` lets through, said of the headers, the body and the stored
-- hash.
pub mod Checked
use capstone_project_git_fla.Prelude.{
  Bool, true, false, not, ◌&&◌, ◌||◌, Option, none, some, List, [], ◌∷◌, ◌++◌, ◌≡◌, ◌≢◌, ◌⊎◌, inl,
  inr, ◌↔◌, refl, sym, ap, ◌∙◌, arith, Bytes, codes, ◌==◌, eq_iff, is_empty, eqb, length, drop,
  Bool-cases, if◌then◌else◌,
}
use mathlib.Core.Path.{subst}
use capstone_project_git_fla.Text.{trim_space, has_prefix, trim_prefix, split}
use capstone_project_git_fla.Domain.Accounts.{GitFlameWebhookRegistration}
use capstone_project_git_fla.Webhooks.{
  Libraries, first_non_empty_header, derive_webhook_secret, version1_parts, same_digest, hash_of,
  valid_webhook_secret, webhook_secret_from_request, valid_signature, valid_signatures,
  valid_webhook_request,
}

-- The first of the headers that is not blank, trimmed; the empty text if all are blank.
unfoldable pub IsFirstFilled : (Bytes → Bytes) → List Bytes → Bytes → Type 0
IsFirstFilled header [] value = value ≡ []
IsFirstFilled header (name ∷ names) value =
    ((trim_space (header name) ≢ []) × (value ≡ trim_space (header name)))
    ⊎ ((trim_space (header name) ≡ []) × IsFirstFilled header names value)

-- The stored hash is "v1:", a salt, ":" and a digest.
abbrev pub IsVersion1 : Bytes → Bytes → Bytes → Type 0
IsVersion1 stored salt digest = split b':' stored ≡ codes "v1" ∷ salt ∷ digest ∷ []

-- The digest in the stored hash: its third part, or all of it when it is not of version 1.
abbrev pub IsDigestOf : Bytes → Bytes → Type 0
IsDigestOf stored digest =
    ((salt : Bytes) × IsVersion1 stored salt digest)
    ⊎ ((digest ≡ stored) × ((salt other : Bytes) → ¬ IsVersion1 stored salt other))

abbrev pub secret_headers : List Bytes
secret_headers =
    codes "X-GitFlame-Webhook-Secret" ∷ codes "X-GitFlame-Token" ∷ codes "X-Gitlab-Token" ∷ []

module _ (libraries : Libraries) where
  -- The secret that the headers carry: one of the secret headers, or else a bearer token.
  abbrev pub IsPresented : (Bytes → Bytes) → Bytes → Type 0
  IsPresented header secret =
      let authorization = trim_space (header (codes "Authorization")) in
      (secret ≢ [])
      × (IsFirstFilled header secret_headers secret
          ⊎ (IsFirstFilled header secret_headers []
              × (has_prefix (libraries.to_lower authorization) (codes "bearer ") ≡ true)
              × (secret ≡ trim_space (drop 7 authorization))))

  -- A text is the hexadecimal writing of a digest of 32 bytes.
  abbrev pub IsHexOf : Bytes → Bytes → Type 0
  IsHexOf text digest = (libraries.decode_hex text ≡ some digest) × (length digest ≡ 32)

  abbrev pub HasSecret : Bytes → (Bytes → Bytes) → Type 0
  HasSecret stored header =
      (secret : Bytes) × IsPresented header secret
      × ((digest : Bytes) × IsDigestOf stored digest × IsHexOf digest (libraries.sum256 secret))

  -- The signature of the body under the secret that the salt and the server's key give.
  abbrev pub IsSignature : Bytes → Bytes → Bytes → Bytes → Bytes → Type 0
  IsSignature master_key webhook_id salt body signature =
      IsHexOf (trim_prefix (trim_space signature) (codes "sha256=")) (
        libraries.hmac256
          (libraries.base64 (libraries.hmac256 master_key (webhook_id ++ b':' ∷ salt))) body)

  abbrev pub HasSignature : Bytes → GitFlameWebhookRegistration → (Bytes → Bytes) → Bytes → Type 0
  HasSignature master_key registration header body =
      (salt : Bytes) × ((digest : Bytes) × IsVersion1 registration.webhook_secret_hash salt digest)
      × (IsSignature master_key registration.id salt body (header (codes "X-Gitea-Signature"))
          ⊎ IsSignature master_key registration.id salt body (header (codes "X-Hub-Signature-256")))

  -- The request carries the webhook's secret, or its body is signed with it.
  abbrev pub IsAuthentic : Bytes → GitFlameWebhookRegistration → (Bytes → Bytes) → Bytes → Type 0
  IsAuthentic master_key registration header body =
      HasSecret registration.webhook_secret_hash header
      ⊎ HasSignature master_key registration header body
