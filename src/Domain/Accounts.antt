-- ===== src/Domain/Accounts.antt =====
-- backend/internal/domain/domain.go: users, sessions, connections, webhooks, snapshots and
-- recommendation cards.
use capstone_project_git_fla.Prelude.{ℕ, ℤ, Bytes, Option, List}
use capstone_project_git_fla.Domain.{RepositoryMetadata, TaskError}
use capstone_project_git_fla.Domain.Json.{Members}

pub record AppUser : Type 0 where
  pub id : Bytes
  pub git_flame_user_id : Bytes
  pub username : Bytes
  pub created_at : ℕ
  pub updated_at : ℕ

pub record AppSession : Type 0 where
  pub id : Bytes
  pub user : AppUser
  pub expires_at : ℕ
  pub last_seen_at : Option ℕ
  pub revoked_at : Option ℕ
  pub created_at : ℕ

pub record GitFlameTokenMaterial : Type 0 where
  pub ciphertext : Bytes
  pub nonce : Bytes
  pub key_version : ℕ

pub record GitFlameConnection : Type 0 where
  pub id : Bytes
  pub user_id : Bytes
  pub repository : RepositoryMetadata
  pub repo_url : Bytes
  pub default_branch : Bytes
  pub access_token_encrypted : Bytes
  pub token_material : GitFlameTokenMaterial
  pub token_last4 : Bytes
  pub token_status : Bytes
  pub scopes : List Bytes
  pub token_expires_at : Option ℕ
  pub last_validated_at : Option ℕ
  pub last_used_at : Option ℕ
  pub revoked_at : Option ℕ
  pub created_at : ℕ
  pub updated_at : ℕ

pub record GitFlameWebhookRegistration : Type 0 where
  pub id : Bytes
  pub connection_id : Bytes
  pub webhook_url : Bytes
  pub webhook_secret_hash : Bytes
  pub events : List Bytes
  pub status : Bytes
  pub external_webhook_id : Bytes
  pub created_at : ℕ
  pub updated_at : ℕ

pub record GitFlameWebhookEvent : Type 0 where
  pub id : Bytes
  pub webhook_id : Bytes
  pub event_type : Bytes
  pub action : Bytes
  pub delivery_id : Bytes
  pub repository_id : Bytes
  pub issue_session_id : Bytes
  pub payload : Members
  pub status : Bytes
  pub error : Option TaskError
  pub received_at : ℕ
  pub processed_at : Option ℕ

pub record RepositorySnapshot : Type 0 where
  pub id : Bytes
  pub repository_id : Bytes
  pub connection_id : Bytes
  pub ref : Bytes
  pub commit_sha : Bytes
  pub ai_config_id : Bytes
  pub file_count : ℕ
  pub status : Bytes
  pub error : Option TaskError
  pub fetched_at : ℕ

pub record RepositorySnapshotFile : Type 0 where
  pub path : Bytes
  pub content_hash : Bytes
  pub commit_sha : Bytes

pub record RecommendationCard : Type 0 where
  pub id : Bytes
  pub finding_fingerprint : Bytes
  pub severity : Bytes
  pub category : Bytes
  pub file : Bytes
  pub line : Option ℤ
  pub problem : Bytes
  pub suggestion : Bytes
  pub confidence : Option ℕ
  pub state : Bytes

pub record RecommendationReport : Type 0 where
  pub repository_id : Bytes
  pub summary : Bytes
  pub status : Bytes
  pub recommendations : List RecommendationCard
