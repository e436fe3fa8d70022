-- ===== src/Store/Sessions.antt =====
-- The sessions of users that `MemoryStore` keeps (backend/internal/repository/memory.go).
use capstone_project_git_fla.Prelude.{
  ◌⊎◌, inl, inr, ℕ, ◌<◌, ◌≤◌, false, some, ◌≡◌, refl, arith, Bytes, ltb, lt→ltb,
}
use capstone_project_git_fla.Prelude.Map.{lookup, lookup-insert_self}
use capstone_project_git_fla.Domain.Accounts.{AppUser, AppSession}
use capstone_project_git_fla.Errors.{not_found, ok, err}
use capstone_project_git_fla.Store.{MemoryStore}
use capstone_project_git_fla.Store.Accounts.{
  create_app_session, app_session_by_token_hash, revoke_app_session, see_session,
}

created_cases :
    (now later seen expires_at : ℕ) (fresh user_id token_hash : Bytes) (s : MemoryStore)
    (user : AppUser)
    → lookup user_id s.users ≡ some user
    → let s' = (create_app_session now fresh user_id token_hash expires_at s).1 in
      let r = (app_session_by_token_hash later seen token_hash s').0 in
      (later < expires_at → (v : AppSession) × (r ≡ ok v) × (v.user ≡ user) × (v.id ≡ fresh))
      × (expires_at ≤ later → r ≡ err not_found)
unfolding create_app_session app_session_by_token_hash
created_cases now later seen expires_at fresh user_id token_hash s user h = (
  (λ live.
      rw
        (
          create_app_session,
          h,
          app_session_by_token_hash,
          lookup-insert_self,
          create_app_session,
          h,
          lookup-insert_self,
          see_session,
          lt→ltb later expires_at live,
        )
        (_, refl, refl, refl)),
  (λ late.
      rw
        (
          create_app_session,
          h,
          app_session_by_token_hash,
          lookup-insert_self,
          create_app_session,
          h,
          lookup-insert_self,
          see_session,
          le→not-ltb later expires_at late,
        )
        refl),
)
  where
    le→not-ltb : (a b : ℕ) → b ≤ a → ltb a b ≡ false
    le→not-ltb a b h = ground arith

early_or_late : (a b : ℕ) → (a < b) ⊎ (b ≤ a)
early_or_late a b = ground arith

-- A session that is made for a user who is there is found by its token, with that user, when the token is read before the session expires; when it is read from then on, it is not found.
pub app_session_by_token_hash-create_app_session :
    (now later seen expires_at : ℕ) (fresh user_id token_hash : Bytes) (s : MemoryStore)
    (user : AppUser)
    → lookup user_id s.users ≡ some user
    → let s' = (create_app_session now fresh user_id token_hash expires_at s).1 in
      let r = (app_session_by_token_hash later seen token_hash s').0 in
      ((later < expires_at) × ((v : AppSession) × (r ≡ ok v) × (v.user ≡ user) × (v.id ≡ fresh)))
      ⊎ ((expires_at ≤ later) × (r ≡ err not_found))
app_session_by_token_hash-create_app_session now later seen expires_at fresh user_id token_hash s
      user h =
    let (found, gone) = created_cases now later seen expires_at fresh user_id token_hash s user h in
    elim (early_or_late later expires_at) [ inl e ↦ inl (e, found e) | inr l ↦ inr (l, gone l) ]

-- A session that was revoked is not found by its token any more, whenever it is read.
pub app_session_by_token_hash-revoke_app_session :
    (now later seen : ℕ) (id token_hash : Bytes) (s : MemoryStore) (v : AppSession)
    → lookup id s.app_sessions ≡ some v
    → lookup token_hash s.session_hashes ≡ some id
    → let (r, s') = revoke_app_session now id s in
      (r ≡ ok tt) × ((app_session_by_token_hash later seen token_hash s').0 ≡ err not_found)
unfolding revoke_app_session app_session_by_token_hash
app_session_by_token_hash-revoke_app_session now later seen id token_hash s v there known =
    rw
      (
        revoke_app_session, there, app_session_by_token_hash, known, revoke_app_session, there,
        lookup-insert_self, see_session,
      )
      (refl, refl)
