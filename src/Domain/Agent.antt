-- ===== src/Domain/Agent.antt =====
-- backend/internal/domain/domain.go: the jobs, and the requests and responses of the Agent Engine.
use capstone_project_git_fla.Prelude.{ℕ, Bytes, Option, none, [], List}
use capstone_project_git_fla.Domain.{
  TaskType, RepositoryFile, RelevantFile, AgentUsage, GeneratedFileOperation,
}

pub record AgentIssue : Type 0 where
  pub id : Bytes
  pub title : Bytes
  pub body : Bytes

pub record AgentRepository : Type 0 where
  pub id : Bytes
  pub default_branch : Bytes
  pub commit_sha : Bytes

pub record AgentPlanRequest : Type 0 where
  pub request_id : Bytes
  pub issue : AgentIssue
  pub repository : AgentRepository
  pub configuration_yaml : Bytes
  pub repository_files : List RepositoryFile
  pub previous_plan : Option Bytes
  pub correction_feedback : Option Bytes

pub record AgentPlanResponse : Type 0 where
  pub request_id : Bytes
  pub status : Bytes
  pub plan_markdown : Bytes
  pub relevant_files : List RelevantFile
  pub model : Bytes
  pub usage : AgentUsage

pub record AgentCodeGenerationRequest : Type 0 where
  pub request_id : Bytes
  pub issue : AgentIssue
  pub repository : AgentRepository
  pub approved_plan_markdown : Bytes
  pub configuration_yaml : Bytes
  pub repository_files : List RepositoryFile

pub record AgentGeneratedFilesResponse : Type 0 where
  pub request_id : Bytes
  pub status : Bytes
  pub summary : Bytes
  pub files : List GeneratedFileOperation
  pub model : Bytes
  pub usage : AgentUsage

pub record AgentJob : Type 0 where
  pub task_id : Bytes
  pub session_id : Bytes
  pub kind : TaskType
  pub attempt : ℕ
  pub request : AgentPlanRequest
  pub code_generation_request : AgentCodeGenerationRequest

-- Go's zero values, for the half of a job that is not set
abbrev no_issue : AgentIssue
no_issue = record { id = []; title = []; body = [] }

abbrev no_repository : AgentRepository
no_repository = record { id = []; default_branch = []; commit_sha = [] }

abbrev pub no_plan_request : AgentPlanRequest
no_plan_request = record {
  request_id = [];
  issue = no_issue;
  repository = no_repository;
  configuration_yaml = [];
  repository_files = [];
  previous_plan = none;
  correction_feedback = none;
}

abbrev pub no_code_request : AgentCodeGenerationRequest
no_code_request = record {
  request_id = [];
  issue = no_issue;
  repository = no_repository;
  approved_plan_markdown = [];
  configuration_yaml = [];
  repository_files = [];
}
