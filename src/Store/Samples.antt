-- ===== src/Store/Samples.antt =====
-- A store with a user, a session, a connection, and the theorems there.
use capstone_project_git_fla.Prelude.{
  ◌<◌, ◌≤◌, true, false, none, some, List, [], ◌∷◌, ◌≡◌, ◌⊎◌, refl, Bytes, codes, ◌==◌, Distinct,
  map, pos,
}
use capstone_project_git_fla.Prelude.Map.{lookup}
use capstone_project_git_fla.Text.{is_blank}
use capstone_project_git_fla.Domain.{RepositoryMetadata}
use capstone_project_git_fla.Domain.Accounts.{
  AppUser, AppSession, GitFlameConnection, RecommendationCard, RepositorySnapshot,
  RepositorySnapshotFile,
}
use capstone_project_git_fla.Errors.{text, not_found, ok, err}
use capstone_project_git_fla.Store.{MemoryStore, new_memory_store}
use capstone_project_git_fla.Store.Accounts.{
  create_app_session, app_session_by_token_hash, revoke_app_session,
}
use capstone_project_git_fla.Store.Connections.{first_open, user_connection_by_repository}
use capstone_project_git_fla.Store.Connections.Reads.{
  IsOpenFor, user_connection_by_repository-IsOpenFor,
}
use capstone_project_git_fla.Store.Cards.{
  Codec, save_recommendations, recommendations, save_snapshot, snapshot,
}
use capstone_project_git_fla.Store.Cards.Unique.{
  fingerprint, save_recommendations-Distinct, IsCompleted, save_snapshot-snapshot,
}
use capstone_project_git_fla.Store.Sessions.{
  app_session_by_token_hash-create_app_session, app_session_by_token_hash-revoke_app_session,
}

abbrev user : AppUser
user = record {
  id = codes "u";
  git_flame_user_id = codes "gf";
  username = codes "ann";
  created_at = 1;
  updated_at = 1;
}

abbrev repository : RepositoryMetadata
repository = record {
  id = codes "r";
  name = codes "repo";
  default_branch = codes "main";
  commit_sha = [];
  web_url = [];
}

abbrev pub linked : GitFlameConnection
linked = record {
  id = codes "c";
  user_id = codes "u";
  repository = repository;
  repo_url = [];
  default_branch = codes "main";
  access_token_encrypted = [];
  token_material = record { ciphertext = []; nonce = []; key_version = 1 };
  token_last4 = codes "abcd";
  token_status = codes "active";
  scopes = [];
  token_expires_at = none;
  last_validated_at = none;
  last_used_at = none;
  revoked_at = none;
  created_at = 1;
  updated_at = 1;
}

abbrev live_session : AppSession
live_session = record {
  id = codes "s";
  user = user;
  expires_at = 100;
  last_seen_at = none;
  revoked_at = none;
  created_at = 1;
}

abbrev pub token : Bytes
token = codes "hash"

abbrev pub store : MemoryStore
store = record new_memory_store {
  users = (codes "u", user) ∷ [];
  app_sessions = (codes "s", live_session) ∷ [];
  session_hashes = (token, codes "s") ∷ [];
  connections = (codes "c", linked) ∷ [];
}

user-lookup : lookup (codes "u") store.users ≡ some user
unfolding lookup ◌==◌
user-lookup = refl

session-lookup : lookup (codes "s") store.app_sessions ≡ some live_session
unfolding lookup ◌==◌
session-lookup = refl

token-lookup : lookup token store.session_hashes ≡ some (codes "s")
unfolding lookup ◌==◌
token-lookup = refl

linked-lookup : lookup (codes "c") store.connections ≡ some linked
unfolding lookup ◌==◌
linked-lookup = refl

linked-open : user_connection_by_repository (codes "u") (codes "r") store ≡ ok linked
unfolding user_connection_by_repository first_open ◌==◌
linked-open = refl

app_session_by_token_hash-create_app_session_example :
    let s' = (create_app_session 5 (codes "new") (codes "u") (codes "other") 50 store).1 in
    let r = (app_session_by_token_hash 20 21 (codes "other") s').0 in
    ((20 < 50) × ((v : AppSession) × (r ≡ ok v) × (v.user ≡ user) × (v.id ≡ codes "new")))
    ⊎ ((50 ≤ 20) × (r ≡ err not_found))
app_session_by_token_hash-create_app_session_example =
    app_session_by_token_hash-create_app_session 5 20 21 50 (codes "new") (codes "u")
      (codes "other") store user user-lookup

app_session_by_token_hash-revoke_app_session_example :
    let (r, s') = revoke_app_session 5 (codes "s") store in
    (r ≡ ok tt) × ((app_session_by_token_hash 6 7 token s').0 ≡ err not_found)
app_session_by_token_hash-revoke_app_session_example =
    app_session_by_token_hash-revoke_app_session 5 6 7 (codes "s") token store live_session
      session-lookup token-lookup

user_connection_by_repository-IsOpenFor_example : IsOpenFor (codes "u") (codes "r") linked
user_connection_by_repository-IsOpenFor_example =
    user_connection_by_repository-IsOpenFor (codes "u") (codes "r") store linked linked-open

abbrev codec : Codec
codec = record { to_lower = λ s. s; fields = λ s. s ∷ []; itoa = λ n. codes "1"; sum256 = λ s. s }

abbrev card : Bytes → RecommendationCard
card id = record {
  id = id;
  finding_fingerprint = [];
  severity = codes "high";
  category = codes "bug";
  file = codes "./a.go";
  line = some (pos 1);
  problem = codes "p";
  suggestion = codes "s";
  confidence = none;
  state = codes "open";
}

abbrev two_cards : List RecommendationCard
two_cards = card (codes "1") ∷ card (codes "2") ∷ []

save_recommendations-Distinct_example :
    let (report, s') = save_recommendations codec repository (codes "sum") two_cards store in
    Distinct (map fingerprint report.recommendations) × (recommendations (codes "r") s' ≡ ok report)
save_recommendations-Distinct_example =
    save_recommendations-Distinct codec repository (codes "sum") two_cards store

abbrev taken : RepositorySnapshot
taken = record {
  id = [];
  repository_id = codes "r";
  connection_id = codes "c";
  ref = codes "main";
  commit_sha = codes "abc";
  ai_config_id = [];
  file_count = 0;
  status = [];
  error = none;
  fetched_at = 0;
}

abbrev taken_files : List RepositorySnapshotFile
taken_files =
    record { path = codes "a.go"; content_hash = codes "h"; commit_sha = codes "abc" } ∷ []

save_snapshot-snapshot_example :
    let (r, s') = save_snapshot 9 (codes "new") taken taken_files store in
    ((is_blank taken.repository_id ≡ false)
      × ((saved : RepositorySnapshot) × (r ≡ ok saved)
          × IsCompleted 9 (codes "new") taken taken_files saved
          × (snapshot saved.id s' ≡ ok (saved, taken_files))))
    ⊎ ((is_blank taken.repository_id ≡ true)
        × (r ≡ err (text "repository snapshot requires repository id"))
        × (s' ≡ store))
save_snapshot-snapshot_example = save_snapshot-snapshot 9 (codes "new") taken taken_files store
