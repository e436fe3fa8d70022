-- ===== src/Store/Accounts.antt =====
-- Users and their sessions (backend/internal/repository/memory.go).
use capstone_project_git_fla.Prelude.{
  ℕ, Bool, not, ◌&&◌, Option, none, some, Bytes, is_empty, is_some, ltb, if◌then◌else◌,
}
use capstone_project_git_fla.Prelude.Map.{lookup, insert}
use capstone_project_git_fla.Text.{is_blank}
use capstone_project_git_fla.Domain.Accounts.{AppUser, AppSession}
use capstone_project_git_fla.Errors.{text, not_found, Result, ok, err}
use capstone_project_git_fla.Store.{MemoryStore}

named : AppUser → AppUser
named v = if is_blank v.username then record v { username = v.git_flame_user_id } else v

-- a user that is known: `existing` is the record behind the pointer
touch_user : ℕ → Bytes → AppUser → Option AppUser → MemoryStore → Result AppUser × MemoryStore
touch_user now id v none s = (err (text "panic: nil user"), s)
touch_user now id v (some existing) s =
    let updated = record existing { username = v.username; updated_at = now } in
    (ok updated, record s { users = insert id updated s.users })

add_user : ℕ → Bytes → AppUser → MemoryStore → Result AppUser × MemoryStore
add_user now fresh v s =
    let created = record v {
      id = if is_empty v.id then fresh else v.id;
      created_at = now;
      updated_at = now;
    } in
    (
      ok created,
      record s {
        users = insert created.id created s.users;
        user_index = insert created.git_flame_user_id created.id s.user_index;
      },
    )

unfoldable pub upsert_app_user : ℕ → Bytes → AppUser → MemoryStore → Result AppUser × MemoryStore
unfolding named touch_user add_user
upsert_app_user now fresh v s =
    if is_empty v.git_flame_user_id
    then (err (text "gitflame user id is required"), s)
    else elim (lookup v.git_flame_user_id s.user_index) [
      | some id ↦ touch_user now id (named v) (lookup id s.users) s
      | none ↦ add_user now fresh (named v) s
    ]

unfoldable pub create_app_session :
    ℕ → Bytes → Bytes → Bytes → ℕ → MemoryStore → Result AppSession × MemoryStore
create_app_session now fresh user_id token_hash expires_at s = elim (lookup user_id s.users) [
  | none ↦ (err not_found, s)
  | some user ↦
      let created : AppSession = record {
        id = fresh;
        user = user;
        expires_at = expires_at;
        last_seen_at = none;
        revoked_at = none;
        created_at = now;
      } in
      (
        ok created,
        record s {
          app_sessions = insert fresh created s.app_sessions;
          session_hashes = insert token_hash fresh s.session_hashes;
        },
      )
]

-- `now` is the first reading of the clock, which decides; `seen` is the second one.
abbrev pub is_live : ℕ → AppSession → Bool
is_live now v = not (is_some v.revoked_at) && ltb now v.expires_at

unfoldable pub see_session :
    ℕ → ℕ → Bytes → Option AppSession → MemoryStore → Result AppSession × MemoryStore
see_session now seen id none s = (err not_found, s)
see_session now seen id (some v) s =
    let v' = record v { last_seen_at = some seen } in
    if is_live now v
    then (ok v', record s { app_sessions = insert id v' s.app_sessions })
    else (err not_found, s)

unfoldable pub app_session_by_token_hash :
    ℕ → ℕ → Bytes → MemoryStore → Result AppSession × MemoryStore
unfolding see_session
app_session_by_token_hash now seen token_hash s = elim (lookup token_hash s.session_hashes) [
  | none ↦ (err not_found, s)
  | some id ↦ see_session now seen id (lookup id s.app_sessions) s
]

unfoldable pub revoke_app_session : ℕ → Bytes → MemoryStore → Result (Unit {0}) × MemoryStore
revoke_app_session now id s = elim (lookup id s.app_sessions) [
  | none ↦ (err not_found, s)
  | some v ↦ (
    ok tt,
    record s { app_sessions = insert id (record v { revoked_at = some now }) s.app_sessions },
  )
]
