-- ===== src/Store/Connections/Reads.antt =====
-- What the reads of connections return.
use capstone_project_git_fla.Prelude.{
  ◌⊎◌, inl, inr, ℕ, false, none, some, [], ◌∷◌, ◌≡◌, ◌≢◌, refl, arith, Bytes, codes, eq_iff, ◌==◌,
}
use capstone_project_git_fla.Prelude.Map.{Map, lookup, lookup-insert_self}
use capstone_project_git_fla.Domain.Accounts.{GitFlameConnection}
use capstone_project_git_fla.Errors.{not_found, ok, err}
use capstone_project_git_fla.Store.{MemoryStore}
use capstone_project_git_fla.Store.Connections.{
  connection, owned, user_connection, first_open, user_connection_by_repository, revoke_connection,
  save_connection,
}

-- A saved connection is found under the id that it was saved with.
pub save_connection-connection :
    (now : ℕ) (fresh : Bytes) (v : GitFlameConnection) (s : MemoryStore)
    → let (saved, s') = save_connection now fresh v s in connection saved.id s' ≡ ok saved
unfolding save_connection connection
save_connection-connection now fresh v s = rw (lookup-insert_self) refl

abbrev pub IsOpenFor : Bytes → Bytes → GitFlameConnection → Type 0
IsOpenFor user_id repository_id v =
    (v.user_id ≡ user_id) × (v.repository.id ≡ repository_id) × (v.revoked_at ≡ none)

first_open-IsOpenFor :
    (u r : Bytes) (m : Map GitFlameConnection) (v : GitFlameConnection)
    → first_open u r m ≡ some v
    → IsOpenFor u r v
unfolding first_open
first_open-IsOpenFor u r [] v h = ground arith
first_open-IsOpenFor u r ((id, x) ∷ m) v h =
    grind (arith, eq_iff x.user_id u, eq_iff x.repository.id r, first_open-IsOpenFor u r m v)

-- The connection that a user has to a repository is the user's own, is to that repository, and is not revoked.
pub user_connection_by_repository-IsOpenFor :
    (user_id repository_id : Bytes) (s : MemoryStore) (v : GitFlameConnection)
    → user_connection_by_repository user_id repository_id s ≡ ok v
    → IsOpenFor user_id repository_id v
unfolding user_connection_by_repository
user_connection_by_repository-IsOpenFor u r s v h =
    ground (arith, first_open-IsOpenFor u r s.connections v)

revoke_cases :
    (now : ℕ) (user_id id : Bytes) (s : MemoryStore) (v : GitFlameConnection)
    → lookup id s.connections ≡ some v
    → let (r, s') = revoke_connection now user_id id s in
      (v.user_id ≡ user_id
        → let v' = record v {
          token_status = codes "revoked";
          revoked_at = some now;
          updated_at = now;
        } in
          (r ≡ ok v') × (user_connection user_id id s' ≡ ok v'))
      × (v.user_id ≢ user_id → (r ≡ err not_found) × (s' ≡ s))
unfolding revoke_connection user_connection connection owned
revoke_cases now user_id id s v h = (
  (λ own.
      rw
        (
          revoke_connection,
          h,
          (eq_iff v.user_id user_id).1 own,
          user_connection,
          connection,
          lookup-insert_self,
          owned,
          (eq_iff v.user_id user_id).1 own,
        )
        (refl, refl)),
  (λ other. rw (revoke_connection, h, differs v.user_id user_id other) (refl, refl)),
)
  where
    differs : (a b : Bytes) → a ≢ b → (a == b) ≡ false
    differs a b n = ground (arith, eq_iff a b)

same_or_not : (a b : Bytes) → (a ≡ b) ⊎ (a ≢ b)
same_or_not a b = ground (arith, eq_iff a b)

-- A user revokes a connection that is theirs, which is then read with a time of revocation; for any other user the call fails as for a missing connection and changes nothing.
pub revoke_connection_lem :
    (now : ℕ) (user_id id : Bytes) (s : MemoryStore) (v : GitFlameConnection)
    → lookup id s.connections ≡ some v
    → let (r, s') = revoke_connection now user_id id s in
      let v' = record v {
        token_status = codes "revoked";
        revoked_at = some now;
        updated_at = now;
      } in
      ((v.user_id ≡ user_id) × (r ≡ ok v') × (user_connection user_id id s' ≡ ok v'))
      ⊎ ((v.user_id ≢ user_id) × (r ≡ err not_found) × (s' ≡ s))
revoke_connection_lem now user_id id s v h =
    let (done, refused) = revoke_cases now user_id id s v h in
    elim (same_or_not v.user_id user_id) [
      | inl e ↦ let (r, read) = done e in inl (e, r, read)
      | inr n ↦ let (r, kept) = refused n in inr (n, r, kept)
    ]
