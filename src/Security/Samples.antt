-- ===== src/Security/Samples.antt =====
-- A cipher that puts the nonce in front, and the theorems on credentials there.
use capstone_project_git_fla.Prelude.{
  ℕ, none, some, [], ◌∷◌, ◌++◌, ◌≡◌, ◌≢◌, refl, sym, ap, Bytes, codes, length, drop, replicate, pos,
}
use capstone_project_git_fla.Errors.{Result, ok, ok_injective}
use capstone_project_git_fla.Security.{
  Libraries, Aead, CredentialCipher, Sealed, encrypt, generate_session_token, session_token_hash,
  session_token_hash_from_cookie,
}
use capstone_project_git_fla.Security.RoundTrip.{
  Opens, decrypt-encrypt, session_token_hash_from_cookie-generate_session_token,
}

abbrev front : Aead
front = record {
  nonce_size = 2;
  seal = λ nonce plaintext aad. nonce ++ plaintext;
  unseal = λ nonce ciphertext aad. ok (drop (length nonce) ciphertext);
}

abbrev sample_libraries : Libraries
sample_libraries = record {
  new_gcm = λ key. ok front;
  decode_std = λ s. none;
  decode_raw_std = λ s. none;
  decode_raw_url = λ s. some s;
  decode_hex = λ s. none;
  encode_raw_url = λ s. s;
  sum256 = λ s. 1 ∷ s;
}

abbrev zeros : ℕ → Result Bytes
zeros n = ok (replicate n 0)

abbrev cipher_of : ℕ → CredentialCipher
cipher_of n = record { aead = front; key_version = pos n }

drop-append : (xs ys : Bytes) → drop (length xs) (xs ++ ys) ≡ ys
drop-append [] ys = refl
drop-append (x ∷ xs) ys = drop-append xs ys

abbrev sealed : Sealed
sealed = record { ciphertext = 0 ∷ 0 ∷ codes "token"; nonce = 0 ∷ 0 ∷ []; key_version = pos 1 }

encryption :
    encrypt sample_libraries zeros (some (cipher_of 1)) (codes "token") (codes "user") ≡ ok sealed
unfolding encrypt
encryption = refl

versions_differ : (cipher_of 1).key_version ≢ (cipher_of 2).key_version
versions_differ e = cc

decrypt-encrypt_example :
    Opens sample_libraries zeros (cipher_of 1) (cipher_of 2) (codes "token") (codes "user") sealed
decrypt-encrypt_example =
    decrypt-encrypt sample_libraries zeros (cipher_of 1) (cipher_of 2) (codes "token")
      (codes "user") sealed (λ nonce. ap ok (drop-append nonce (codes "token"))) versions_differ
      encryption

generation :
    generate_session_token sample_libraries zeros
    ≡ ok (replicate 32 0, session_token_hash sample_libraries zeros (replicate 32 0))
unfolding generate_session_token
generation = refl

length-zeros : (raw : Bytes) → zeros 32 ≡ ok raw → length raw ≡ 32
length-zeros raw e = ap length (sym (ok_injective (replicate 32 0) raw e))

session_token_hash_from_cookie-generate_session_token_example :
    session_token_hash_from_cookie sample_libraries zeros (replicate 32 0)
    ≡ ok (session_token_hash sample_libraries zeros (replicate 32 0))
session_token_hash_from_cookie-generate_session_token_example =
    session_token_hash_from_cookie-generate_session_token sample_libraries zeros (replicate 32 0)
      (session_token_hash sample_libraries zeros (replicate 32 0)) length-zeros (λ raw. refl)
      generation
