-- ===== src/Security.antt =====
-- Credentials and session tokens (backend/internal/security/credentials.go). The cryptographic
-- functions, the encodings and the source of random bytes are parameters.
pub mod RoundTrip
mod Samples
use capstone_project_git_fla.Prelude.{
  ℕ, ◌-◌, Bool, true, false, not, ◌||◌, Option, none, some, List, [], Bytes, is_empty, eqb, leb,
  length, drop, if◌then◌else◌, ℤ, pos, negsuc, leb_ℤ,
}
use capstone_project_git_fla.Text.{trim_space}
use capstone_project_git_fla.Decimal.Format.{itoa}
use capstone_project_git_fla.Errors.{Err, text, about, Result, ok, err, ◌>>=◌}

-- `cipher.AEAD`: `seal nonce plaintext data` and `unseal nonce ciphertext data`, its Open
pub record Aead : Type 0 where
  pub nonce_size : ℕ
  pub seal : Bytes → Bytes → Bytes → Bytes
  pub unseal : Bytes → Bytes → Bytes → Result Bytes

pub record Libraries : Type 0 where
  -- `aes.NewCipher` and `cipher.NewGCM` of it
  pub new_gcm : Bytes → Result Aead
  -- `DecodeString` of base64's StdEncoding, RawStdEncoding and RawURLEncoding, and of hex
  pub decode_std : Bytes → Option Bytes
  pub decode_raw_std : Bytes → Option Bytes
  pub decode_raw_url : Bytes → Option Bytes
  pub decode_hex : Bytes → Option Bytes
  -- `EncodeToString` of base64's RawURLEncoding, and `sha256.Sum256`
  pub encode_raw_url : Bytes → Bytes
  pub sum256 : Bytes → Bytes

pub record CredentialCipher : Type 0 where
  pub aead : Aead
  pub key_version : ℤ

unfoldable pub valid_aes_key_size : ℕ → Bool
valid_aes_key_size size = eqb size 16 || eqb size 24 || eqb size 32

-- a decoded key of a valid size, or else what follows
unfoldable pub key_or : Option Bytes → Result Bytes → Result Bytes
key_or none next = next
key_or (some key) next = if valid_aes_key_size (length key) then ok key else next

abbrev session_token_bytes : ℕ
session_token_bytes = 32

-- What `Encrypt` returns.
pub record Sealed : Type 0 where
  pub ciphertext : Bytes
  pub nonce : Bytes
  pub key_version : ℤ

abbrev pub eq_ℤ : ℤ → ℤ → Bool
eq_ℤ (pos a) (pos b) = eqb a b
eq_ℤ (negsuc a) (negsuc b) = eqb a b
eq_ℤ _ _ = false

abbrev not_configured : Err
not_configured = text "credential cipher is not configured"

-- `random n` is `io.ReadFull(rand.Reader, …)` of `n` bytes.
module _ (libraries : Libraries) (random : ℕ → Result Bytes) where
  unfoldable pub decode_key : Bytes → Result Bytes
  decode_key secret =
      let key = trim_space secret in
      if is_empty key
      then err (text "credential key is empty")
      else key_or (libraries.decode_std key) (
          key_or (libraries.decode_raw_std key) (
            key_or (libraries.decode_raw_url key) (
              key_or (libraries.decode_hex key) (
                key_or (some key)
                  (err (text "credential key must decode to 16, 24, or 32 bytes"))))))

  unfoldable pub new_credential_cipher : Bytes → ℤ → Result CredentialCipher
  new_credential_cipher secret key_version = decode_key secret >>= λ key.
      if leb_ℤ key_version (pos 0)
      then err (text "credential key version must be positive")
      else (libraries.new_gcm key >>= λ aead.
          ok (record { aead = aead; key_version = key_version }))

  -- A nil cipher is none.
  unfoldable pub encrypt : Option CredentialCipher → Bytes → Bytes → Result Sealed
  encrypt none plaintext aad = err not_configured
  encrypt (some c) plaintext aad = random c.aead.nonce_size >>= λ nonce. ok (record {
    ciphertext = c.aead.seal nonce plaintext aad;
    nonce = nonce;
    key_version = c.key_version;
  })

  unfoldable pub decrypt : Option CredentialCipher → Bytes → Bytes → ℤ → Bytes → Result Bytes
  decrypt none ciphertext nonce key_version aad = err not_configured
  decrypt (some c) ciphertext nonce key_version aad =
      if not (eq_ℤ key_version c.key_version)
      then err (about "unsupported credential key version " (itoa key_version) "")
      else c.aead.unseal nonce ciphertext aad

  unfoldable pub session_token_hash : Bytes → Bytes
  session_token_hash raw = libraries.sum256 raw

  -- the cookie's value, and the hash that is stored
  unfoldable pub generate_session_token : Result (Bytes × Bytes)
  generate_session_token = random session_token_bytes >>= λ raw.
      ok (libraries.encode_raw_url raw, session_token_hash raw)

  hash_of_raw : Option Bytes → Result Bytes
  hash_of_raw none = err (text "illegal base64 data")
  hash_of_raw (some raw) =
      if eqb (length raw) session_token_bytes
      then ok (session_token_hash raw)
      else err (text "invalid session token length")

  unfoldable pub session_token_hash_from_cookie : Bytes → Result Bytes
  unfolding hash_of_raw
  session_token_hash_from_cookie value = hash_of_raw (libraries.decode_raw_url value)

unfoldable pub token_last4 : Bytes → Bytes
token_last4 token =
    let trimmed = trim_space token in
    if leb (length trimmed) 4 then trimmed else drop (length trimmed - 4) trimmed
