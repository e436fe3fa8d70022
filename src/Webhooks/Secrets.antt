-- ===== src/Webhooks/Secrets.antt =====
-- Which secrets a stored hash accepts.
use capstone_project_git_fla.Prelude.{
  Bool, true, false, not, ◌&&◌, some, [], ◌∷◌, ◌≡◌, ◌≢◌, ◌↔◌, refl, sym, ap, Bytes, codes, ◌==◌,
  eq_iff, is_empty, eqb, length, Lacks,
}
use capstone_project_git_fla.Text.{split, join}
use capstone_project_git_fla.Text.Laws.{split-join}
use capstone_project_git_fla.Webhooks.{
  Libraries, new_webhook_secret, version1_parts, hash_of, valid_webhook_secret,
}

-- What the packages hex, base64 and sha256 document: a hexadecimal text is decoded to what was
-- encoded, neither encoding has a colon, and a sum has 32 bytes.
pub record EncodingLaws (libraries : Libraries) : Type 0 where
  pub decodes : (s : Bytes) → libraries.decode_hex (libraries.encode_hex s) ≡ some s
  pub hex-Lacks : (s : Bytes) → Lacks b':' (libraries.encode_hex s)
  pub base64-Lacks : (s : Bytes) → Lacks b':' (libraries.base64 s)
  pub length-sum256 : (s : Bytes) → length (libraries.sum256 s) ≡ 32

module _ (libraries : Libraries) (laws : EncodingLaws libraries)
    (master_key webhook_id salt_bytes : Bytes) where
  digest_of : Bytes
  digest_of =
      libraries.encode_hex
        (libraries.sum256 (new_webhook_secret libraries master_key webhook_id salt_bytes).0)

  parts_lem :
      split b':' (new_webhook_secret libraries master_key webhook_id salt_bytes).1
      ≡ codes "v1" ∷ libraries.base64 salt_bytes ∷ digest_of ∷ []
  unfolding new_webhook_secret digest_of join
  parts_lem =
      split-join b':' (codes "v1") (libraries.base64 salt_bytes ∷ digest_of ∷ [])
        (((λ e. cc), ((λ e. cc), tt)), (laws.base64-Lacks salt_bytes, (laws.hex-Lacks _, tt)))

  hash_of_lem :
      hash_of libraries (new_webhook_secret libraries master_key webhook_id salt_bytes).1 (
        version1_parts libraries
          (split b':' (new_webhook_secret libraries master_key webhook_id salt_bytes).1))
      ≡ digest_of
  unfolding hash_of version1_parts ◌==◌
  hash_of_lem =
      ap
        (λ parts.
          hash_of libraries (new_webhook_secret libraries master_key webhook_id salt_bytes).1
            (version1_parts libraries parts))
        parts_lem

  accepts_iff :
      (size : Bool) (d e s : Bytes)
      → size ≡ true
      → ((size && d == e && not (is_empty s)) ≡ true) ↔ ((e ≡ d) × (s ≢ []))
  accepts_iff true d e [] h = ((λ k. absurd (no_empty (d == e) k)), (λ (a, b). absurd (b refl)))
    where
      no_empty : (b : Bool) → (b && false) ≡ true → ⊥
      no_empty true k = cc
      no_empty false k = cc
  accepts_iff true d e (c ∷ s) h = (
    (λ k. (sym ((eq_iff d e).0 (first (d == e) k)), (λ n. cc))),
    (λ (a, b). ap (λ x. x && true) ((eq_iff d e).1 (sym a))),
  )
    where
      first : (b : Bool) → (b && true) ≡ true → b ≡ true
      first true k = refl
      first false k = cc
  accepts_iff false d e s h = absurd (none_such h)
    where
      none_such : false ≡ true → ⊥
      none_such k = cc

  -- What `createGitFlameWebhook` stores of a new secret accepts a secret exactly when that is not empty and has the SHA-256 sum of the new one.
  pub valid_webhook_secret-new_webhook_secret :
      (secret : Bytes)
      → (valid_webhook_secret libraries
            (new_webhook_secret libraries master_key webhook_id salt_bytes).1
            secret
          ≡ true)
        ↔ ((libraries.sum256 secret
              ≡ libraries.sum256 (new_webhook_secret libraries master_key webhook_id salt_bytes).0)
            × (secret ≢ []))
  unfolding valid_webhook_secret digest_of
  valid_webhook_secret-new_webhook_secret secret =
      rw
        (
          valid_webhook_secret,
          hash_of_lem,
          laws.decodes
              (libraries.sum256 (new_webhook_secret libraries master_key webhook_id salt_bytes).0),
        )
        (accepts_iff
          (eqb
            (length
              (libraries.sum256 (new_webhook_secret libraries master_key webhook_id salt_bytes).0))
            32)
          (libraries.sum256 (new_webhook_secret libraries master_key webhook_id salt_bytes).0)
          (libraries.sum256 secret) secret
          (rw (laws.length-sum256 (new_webhook_secret libraries master_key webhook_id salt_bytes).0)
            refl))
