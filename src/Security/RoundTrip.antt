-- ===== src/Security/RoundTrip.antt =====
-- What is encrypted is decrypted, and a session's cookie leads to its stored hash.
use capstone_project_git_fla.Prelude.{
  ℕ, Bool, true, false, not, some, ◌≡◌, ◌≢◌, inl, inr, refl, ap, ◌∙◌, arith, Bytes, length, ℤ, pos,
  negsuc, if◌then◌else◌, Bool-cases,
}
use mathlib.Core.Path.{subst}
use capstone_project_git_fla.Decimal.Format.{itoa}
use capstone_project_git_fla.Errors.{about, Result, ok, err, ◌>>=◌, ok_injective}
use capstone_project_git_fla.Security.{
  Libraries, CredentialCipher, Sealed, eq_ℤ, encrypt, decrypt, hash_of_raw, session_token_hash,
  generate_session_token, session_token_hash_from_cookie,
}

eq_ℤ_refl : (z : ℤ) → eq_ℤ z z ≡ true
eq_ℤ_refl (pos n) = ground arith
eq_ℤ_refl (negsuc n) = ground arith

eq_ℤ_sound : (a b : ℤ) → eq_ℤ a b ≡ true → a ≡ b
eq_ℤ_sound (pos a) (pos b) h = ap pos (ground arith)
eq_ℤ_sound (negsuc a) (negsuc b) h = ap negsuc (ground arith)
eq_ℤ_sound (pos a) (negsuc b) h = cc
eq_ℤ_sound (negsuc a) (pos b) h = cc

not_lem : (b : Bool) (x y : Result Bytes) → b ≡ true → (if not b then x else y) ≡ y
not_lem true x y e = refl
not_lem false x y e = cc

module _ (libraries : Libraries) (random : ℕ → Result Bytes) where
  -- `c` decrypts what is sealed to the text, and `d` refuses it for its version.
  abbrev pub Opens : CredentialCipher → CredentialCipher → Bytes → Bytes → Sealed → Type 0
  Opens c d plaintext aad out =
      (decrypt libraries random (some c) out.ciphertext out.nonce out.key_version aad
        ≡ ok plaintext)
      × (decrypt libraries random (some d) out.ciphertext out.nonce out.key_version aad
          ≡ err (about "unsupported credential key version " (itoa out.key_version) ""))

  sealed_with : CredentialCipher → Bytes → Bytes → Bytes → Sealed
  sealed_with c plaintext aad nonce = record {
    ciphertext = c.aead.seal nonce plaintext aad;
    nonce = nonce;
    key_version = c.key_version;
  }

  sealed_with-Opens :
      (c d : CredentialCipher) (plaintext aad nonce : Bytes)
      → c.aead.unseal nonce (c.aead.seal nonce plaintext aad) aad ≡ ok plaintext
      → eq_ℤ c.key_version d.key_version ≡ false
      → Opens c d plaintext aad (sealed_with c plaintext aad nonce)
  unfolding decrypt sealed_with
  sealed_with-Opens c d plaintext aad nonce opens other = (
    not_lem (eq_ℤ c.key_version c.key_version) _ _ (eq_ℤ_refl c.key_version) ∙ opens,
    rw (decrypt, other) refl,
  )

  different :
      (c d : CredentialCipher)
      → c.key_version ≢ d.key_version
      → eq_ℤ c.key_version d.key_version ≡ false
  different c d n = elim (Bool-cases (eq_ℤ c.key_version d.key_version)) [
    | inl e ↦ absurd (n (eq_ℤ_sound c.key_version d.key_version e))
    | inr e ↦ e
  ]

  -- What a cipher returns for a text and its data, it decrypts to that text with the same data, and a cipher with another key version refuses it. The cipher's library opens what it has sealed.
  pub decrypt-encrypt :
      (c d : CredentialCipher) (plaintext aad : Bytes) (out : Sealed)
      → ((nonce : Bytes) → c.aead.unseal nonce (c.aead.seal nonce plaintext aad) aad ≡ ok plaintext)
      → c.key_version ≢ d.key_version
      → encrypt libraries random (some c) plaintext aad ≡ ok out
      → Opens c d plaintext aad out
  unfolding encrypt sealed_with
  decrypt-encrypt c d plaintext aad out opens other h = step (random c.aead.nonce_size) h
    where
      step :
          (r : Result Bytes)
          → (r >>= λ nonce. ok (record {
            ciphertext = c.aead.seal nonce plaintext aad;
            nonce = nonce;
            key_version = c.key_version;
          }))
            ≡ ok out
          → Opens c d plaintext aad out
      step (err e) k = cc
      step (ok nonce) k =
          subst (Opens c d plaintext aad) (ok_injective (sealed_with c plaintext aad nonce) out k)
            (sealed_with-Opens c d plaintext aad nonce (opens nonce) (different c d other))

  -- The cookie that `GenerateSessionToken` makes has the hash that it returns. `rand.Reader` fills the buffer of 32 bytes, and the library decodes what it has encoded.
  pub session_token_hash_from_cookie-generate_session_token :
      (cookie hash : Bytes)
      → ((raw : Bytes) → random 32 ≡ ok raw → length raw ≡ 32)
      → ((raw : Bytes) → libraries.decode_raw_url (libraries.encode_raw_url raw) ≡ some raw)
      → generate_session_token libraries random ≡ ok (cookie, hash)
      → session_token_hash_from_cookie libraries random cookie ≡ ok hash
  unfolding generate_session_token session_token_hash_from_cookie hash_of_raw
  session_token_hash_from_cookie-generate_session_token cookie hash full decodes h =
      step (random 32) refl h
    where
      made : Bytes → Result (Bytes × Bytes)
      made raw = ok (libraries.encode_raw_url raw, session_token_hash libraries random raw)

      step :
          (r : Result Bytes)
          → random 32 ≡ r
          → (r >>= made) ≡ ok (cookie, hash)
          → session_token_hash_from_cookie libraries random cookie ≡ ok hash
      step (err e) k q = cc
      step (ok raw) k q =
          let pair =
            ok_injective (libraries.encode_raw_url raw, session_token_hash libraries random raw)
              (cookie, hash) q in
          subst (λ p. session_token_hash_from_cookie libraries random p.0 ≡ ok p.1) pair
            (rw (session_token_hash_from_cookie, decodes raw, full raw k) refl)
