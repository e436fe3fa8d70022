-- ===== src/Workflow/Requests.antt =====
-- The jobs' requests, the branch payload and the checks of an analyze request
-- (backend/internal/service/workflow.go).
use capstone_project_git_fla.Prelude.{
  ℕ, Bool, not, ◌&&◌, ◌||◌, Option, none, List, [], ◌∷◌, ◌++◌, reverse, map, Bytes, codes, is_empty,
  contains, eqb, leb, ltb, if◌then◌else◌, length, take, ◌+◌,
}
use capstone_project_git_fla.Text.{trim_space, is_blank}
use capstone_project_git_fla.Regex.{Regex, class, many1, replace_all}
use capstone_project_git_fla.Paths.{normalize_plan_path, safe_plan_path}
use capstone_project_git_fla.Domain.{
  RepositoryFile, IssueAnalyzeRequest, IssueSession, GeneratedFilesContract,
}
use capstone_project_git_fla.Domain.Agent.{
  AgentIssue, AgentRepository, AgentPlanRequest, AgentCodeGenerationRequest,
}
use capstone_project_git_fla.Errors.{text, about, Result, ok, guard, ◌>>=◌, ◌>>◌}

abbrev file_at : Bytes → RepositoryFile
file_at path = record { path = path; content = []; kind = [] }

-- the files, or the paths of older clients
unfoldable pub files_or_context : List RepositoryFile → List Bytes → List RepositoryFile
files_or_context [] context = map file_at context
files_or_context (f ∷ fs) context = f ∷ fs

unfoldable pub repository_files_for_session : IssueSession → List RepositoryFile
repository_files_for_session session =
    files_or_context session.request.repository_files session.request.repository_context

agent_issue : IssueSession → AgentIssue
agent_issue session = record {
  id = session.request.issue.id;
  title = session.request.issue.title;
  body = session.request.issue.body;
}

agent_repository : IssueSession → AgentRepository
agent_repository session = record {
  id = session.request.repository.id;
  default_branch = session.request.repository.default_branch;
  commit_sha = session.request.repository.commit_sha;
}

unfoldable pub agent_request : Bytes → IssueSession → Option Bytes → Option Bytes → AgentPlanRequest
unfolding agent_issue agent_repository
agent_request task_id session previous_plan feedback = record {
  request_id = task_id;
  issue = agent_issue session;
  repository = agent_repository session;
  configuration_yaml = session.config.raw;
  repository_files = repository_files_for_session session;
  previous_plan = previous_plan;
  correction_feedback = feedback;
}

unfoldable pub code_generation_request : Bytes → IssueSession → AgentCodeGenerationRequest
unfolding agent_issue agent_repository
code_generation_request task_id session = record {
  request_id = task_id;
  issue = agent_issue session;
  repository = agent_repository session;
  approved_plan_markdown = session.plan_markdown;
  configuration_yaml = session.config.raw;
  repository_files = repository_files_for_session session;
}

is_alphanumeric : ℕ → Bool
is_alphanumeric c =
    (leb b'a' c && leb c b'z') || (leb b'A' c && leb c b'Z') || (leb b'0' c && leb c b'9')

-- `[^a-zA-Z0-9]+`
slug_pattern : Regex
slug_pattern = many1 (class (λ c. not (is_alphanumeric c)))

is_branch_byte : ℕ → Bool
is_branch_byte c = is_alphanumeric c || eqb c b'.' || eqb c b'_' || eqb c b'-'

-- `[^a-zA-Z0-9._-]+`
branch_pattern : Regex
branch_pattern = many1 (class (λ c. not (is_branch_byte c)))

trim_start : (ℕ → Bool) → Bytes → Bytes
trim_start p [] = []
trim_start p (c ∷ s) = let rest = trim_start p s in if p c then rest else c ∷ s

-- strings.Trim with a set of bytes
trim : (ℕ → Bool) → Bytes → Bytes
trim p s = reverse (trim_start p (reverse (trim_start p s)))

unfoldable pub normalize_git_flame_branch_name : Bytes → Bytes
unfolding branch_pattern is_branch_byte is_alphanumeric trim trim_start
normalize_git_flame_branch_name value =
    let normalized =
      trim (λ c. eqb c b'-' || eqb c b'.')
        (replace_all branch_pattern (trim_space value) (codes "-")) in
    if is_empty normalized then codes "ai-issue" else normalized

slug_of : Bytes → Bytes
slug_of lowered =
    let slug = trim (λ c. eqb c b'-') (replace_all slug_pattern lowered (codes "-")) in
    let short = if ltb 40 (length slug) then take 40 slug else slug in
    if is_empty short then codes "issue" else short

unfoldable pub branch_pr_payload : (Bytes → Bytes) → IssueSession → GeneratedFilesContract
unfolding slug_of slug_pattern is_alphanumeric trim trim_start
branch_pr_payload to_lower session = record {
  request_id = [];
  task_id = [];
  summary = [];
  branch_name = normalize_git_flame_branch_name (
      session.config.target_branch_prefix
      ++ session.request.issue.id
      ++ codes "-"
      ++ slug_of (to_lower session.request.issue.title));
  base_branch = session.request.repository.default_branch;
  files = [];
  commit_message = codes "Implement " ++ session.request.issue.title;
  pr_title = session.request.issue.title;
  reviewer = session.request.issue.author;
  apply_status = [];
  commit_sha = [];
  pull_request_id = [];
  pull_request_url = [];
  apply_error = [];
  applied_at = none;
}

-- one round of the loop; the result is the set `seen`
unfoldable pub validate_repository_file : List Bytes → RepositoryFile → Result (List Bytes)
validate_repository_file seen file = do
  let normalized = normalize_plan_path file.path
  guard (not (is_blank file.path) && safe_plan_path normalized)
      (about "repository_files contains unsafe path \"" file.path "\"")
  guard (not (ltb 500000 (length file.content)))
      (about "repository file \"" normalized "\" exceeds 500000 characters")
  guard (not (contains seen normalized))
      (about "repository_files contains duplicate path \"" normalized "\"")
  ok (normalized ∷ seen)

unfoldable pub validate_repository_file_list : List Bytes → List RepositoryFile → Result (Unit {0})
validate_repository_file_list seen [] = ok tt
validate_repository_file_list seen (file ∷ files) = do
  seen' ← validate_repository_file seen file
  validate_repository_file_list seen' files

unfoldable pub validate_repository_files : List RepositoryFile → Result (Unit {0})
validate_repository_files files = do
  guard (not (ltb 2000 (length files)))
      (text "repository_files cannot contain more than 2000 files")
  validate_repository_file_list [] files

payload_within : ℕ → List RepositoryFile → Result (Unit {0})
payload_within total [] = ok tt
payload_within total (file ∷ files) = do
  guard (not (ltb 20000000 (total + length file.content)))
      (text "repository index payload exceeds 20000000 bytes")
  payload_within (total + length file.content) files

unfoldable pub validate_repository_files_for_integration : List RepositoryFile → Result (Unit {0})
unfolding payload_within
validate_repository_files_for_integration files = do
  validate_repository_files files
  payload_within 0 files

unfoldable pub validate_analyze : IssueAnalyzeRequest → Result (Unit {0})
validate_analyze v = do
  guard (not (is_blank v.repository.id)) (text "repository.id is required")
  guard (not (is_blank v.repository.default_branch)) (text "repository.default_branch is required")
  guard (not (is_blank v.issue.id)) (text "issue.id is required")
  guard (not (is_blank v.issue.title)) (text "issue.title is required")
  guard (not (is_blank v.issue.body)) (text "issue.body is required")
  guard (not (is_blank v.issue.author)) (text "issue.author is required")
  guard (not (eqb (length v.repository_files) 0 && eqb (length v.repository_context) 0))
      (text "repository_files must contain at least one file")
  validate_repository_files (files_or_context v.repository_files v.repository_context)
