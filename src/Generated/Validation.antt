-- ===== src/Generated/Validation.antt =====
-- `ValidateGeneratedFiles` (backend/internal/service/workflow.go).
pub mod Accepts
use capstone_project_git_fla.Prelude.{
  ℕ, Bool, true, false, not, ◌&&◌, ◌||◌, List, [], ◌∷◌, Bytes, codes, ◌==◌, is_empty, contains,
  if◌then◌else◌, length, map, ltb, eqb,
}
use capstone_project_git_fla.Errors.{Err, text, about, quoted, Result, ok, err, guard, ◌>>=◌, ◌>>◌}
use capstone_project_git_fla.Text.{is_blank}
use capstone_project_git_fla.Paths.{normalize_plan_path, safe_plan_path}
use capstone_project_git_fla.Domain.{GeneratedFileOperation, RepositoryFile}

abbrev pub create : Bytes
create = codes "create"

abbrev pub modify : Bytes
modify = codes "modify"

abbrev pub delete : Bytes
delete = codes "delete"

-- the `switch` on the action
unfoldable pub validate_action : Bool → Bytes → GeneratedFileOperation → Result (Unit {0})
validate_action already_exists path file =
    if file.action == create
    then guard (not already_exists) (about "create operation targets an existing file: " path "")
      >> guard (not (is_blank file.content))
          (about "create operation for " path " requires non-empty content")
    else if file.action == modify
    then guard already_exists (about "modify operation targets an unavailable file: " path "")
      >> guard (not (is_blank file.content))
          (about "modify operation for " path " requires non-empty content")
    else if file.action == delete
    then guard already_exists (about "delete operation targets an unavailable file: " path "")
      >> guard (is_empty file.content && is_empty file.diff)
          (about "delete operation for " path " must not include content or diff")
    else err (quoted "generated file " path " has unsupported action " file.action)

-- one round of the loop; the result is the set `seen`
unfoldable pub validate_file :
    List Bytes → List Bytes → GeneratedFileOperation → Result (List Bytes)
validate_file existing seen file =
    let path = normalize_plan_path file.path in
    do
      guard (safe_plan_path path) (about "generated file contains unsafe path: " file.path "")
      guard (not (contains seen path))
          (about "generated files response contains duplicate path: " path "")
      guard (not (is_blank file.explanation))
          (about "generated file " path " must include an explanation")
      validate_action (contains existing path) path file
      ok (path ∷ seen)

validate_files : List Bytes → List Bytes → List GeneratedFileOperation → Result (Unit {0})
validate_files existing seen [] = ok tt
validate_files existing seen (file ∷ files) = do
  seen' ← validate_file existing seen file
  validate_files existing seen' files

-- the paths of the repository's files
abbrev pub existing_paths : List RepositoryFile → List Bytes
existing_paths = map (λ file. normalize_plan_path file.path)

unfoldable pub validate_generated_files :
    List GeneratedFileOperation → List RepositoryFile → Result (Unit {0})
unfolding validate_files
validate_generated_files files repository_files =
    if eqb (length files) 0
    then err (text "generated files response must contain at least one file operation")
    else if ltb 500 (length files)
    then err (text "generated files response cannot contain more than 500 file operations")
    else validate_files (existing_paths repository_files) [] files
