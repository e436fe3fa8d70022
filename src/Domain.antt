-- ===== src/Domain.antt =====
-- backend/internal/domain/domain.go: the statuses and the data that the components exchange.
-- Strings are byte lists, times are nanoseconds with 0 for Go's zero time, pointers are options,
-- and a `float64`, which the code only copies, is its bit pattern. An `int` that the code counts
-- up is the bit pattern of its 64 bits. `Metadata`, which nothing reads, is left out.
pub mod Json
pub mod Agent
pub mod Accounts
use capstone_project_git_fla.Prelude.{ℕ, ℤ, ◌+◌, ◌%◌, ◌^◌, Bool, Bytes, Option, List}

-- `n++` on a Go `int` of 64 bits
unfoldable pub incr : ℕ → ℕ
incr n = (n + 1) % 2 ^ 64

pub data TaskStatus : Type 0 where
  queued processing completed failed : TaskStatus

-- `generating` is the constant `SessionGenerating`, whose text is "queued".
pub data SessionStatus : Type 0 where
  generating processing plan_generated approved : SessionStatus
  code_generation_queued code_generation_processing code_generated : SessionStatus
  correction_requested rejected failed : SessionStatus

pub data TaskType : Type 0 where
  initial_plan plan_revision code_generation : TaskType

pub record RepositoryMetadata : Type 0 where
  pub id : Bytes
  pub name : Bytes
  pub default_branch : Bytes
  pub commit_sha : Bytes
  pub web_url : Bytes

pub record IssuePayload : Type 0 where
  pub id : Bytes
  pub title : Bytes
  pub body : Bytes
  pub author : Bytes
  pub state : Bytes

pub record RepositoryFile : Type 0 where
  pub path : Bytes
  pub content : Bytes
  pub kind : Bytes

pub record IssueAnalyzeRequest : Type 0 where
  pub repository : RepositoryMetadata
  pub issue : IssuePayload
  pub yaml_config : Bytes
  pub repository_files : List RepositoryFile
  pub repository_context : List Bytes

pub record AiConfig : Type 0 where
  pub raw : Bytes
  pub version : Bytes
  pub default_branch : Bytes
  pub target_branch_prefix : Bytes
  pub analysis_enabled : Bool
  pub require_approval : Bool
  pub recommendations_enabled : Bool
  pub include_patterns : List Bytes
  pub exclude_patterns : List Bytes
  pub recommendation_categories : List Bytes
  pub max_files : ℤ
  pub max_snippets_per_file : ℤ
  pub retention_days : ℤ
  pub reviewer_policy : Bytes
  pub approve_command : Bytes
  pub correct_command : Bytes
  pub reject_command : Bytes

pub record TaskError : Type 0 where
  pub http_status : ℕ
  pub code : Bytes
  pub detail : Bytes

pub record RelevantFile : Type 0 where
  pub path : Bytes
  pub reason : Bytes
  pub create : Bool

pub record GeneratedFileOperation : Type 0 where
  pub action : Bytes
  pub path : Bytes
  pub content : Bytes
  pub diff : Bytes
  pub explanation : Bytes
  pub status : Bytes
  pub validation_error : Bytes

pub record GeneratedFilesContract : Type 0 where
  pub request_id : Bytes
  pub task_id : Bytes
  pub summary : Bytes
  pub branch_name : Bytes
  pub base_branch : Bytes
  pub files : List GeneratedFileOperation
  pub commit_message : Bytes
  pub pr_title : Bytes
  pub reviewer : Bytes
  pub apply_status : Bytes
  pub commit_sha : Bytes
  pub pull_request_id : Bytes
  pub pull_request_url : Bytes
  pub apply_error : Bytes
  pub applied_at : Option ℕ

pub record AgentUsage : Type 0 where
  pub prompt_tokens : ℕ
  pub completion_tokens : ℕ
  pub total_tokens : ℕ
  pub tool_calls : ℕ
  pub reasoning_chars : ℕ
  pub generation_time_seconds : ℕ

pub record IssueSession : Type 0 where
  pub id : Bytes
  pub status : SessionStatus
  pub plan_markdown : Bytes
  pub request : IssueAnalyzeRequest
  pub config : AiConfig
  pub revision : ℕ
  pub feedback_history : List Bytes
  pub generated_files : Option GeneratedFilesContract
  pub created_at : ℕ
  pub updated_at : ℕ

pub record AgentTask : Type 0 where
  pub id : Bytes
  pub session_id : Bytes
  pub issue_id : Bytes
  pub kind : TaskType
  pub status : TaskStatus
  pub attempt : ℕ
  pub plan_markdown : Bytes
  pub error : Option TaskError
  pub tool_execution_summary : Bytes
  pub relevant_files : List RelevantFile
  pub model : Bytes
  pub usage : AgentUsage
  pub created_at : ℕ
  pub updated_at : ℕ
