-- ===== src/Generated/Samples.antt =====
-- Responses of the Agent Engine, and the theorems on them.
use capstone_project_git_fla.Prelude.{
  some, List, [], ◌∷◌, ◌≡◌, ◌↔◌, Bytes, codes, Distinct, Member, map,
}
use capstone_project_git_fla.Domain.{GeneratedFileOperation, RepositoryFile}
use capstone_project_git_fla.Errors.{ok}
use capstone_project_git_fla.Generated.{normalize_generated_files}
use capstone_project_git_fla.Generated.Merge.{absorb_all, normalize_generated_files-absorb_all}
use capstone_project_git_fla.Generated.Merge.Targets.{target, normalize_generated_files-Distinct}
use capstone_project_git_fla.Generated.Filters.{drop_noop_generated_files}
use capstone_project_git_fla.Generated.Filters.Kept.{
  ChangesNothing, drop_noop_generated_files-Member,
}
use capstone_project_git_fla.Generated.Validation.{validate_generated_files}
use capstone_project_git_fla.Generated.Validation.Accepts.{
  IsValidResponse, validate_generated_files_iff,
}

abbrev operation : Bytes → Bytes → Bytes → GeneratedFileOperation
operation action path content = record {
  action = action;
  path = path;
  content = content;
  diff = [];
  explanation = codes "why";
  status = [];
  validation_error = [];
}

abbrev repository_files : List RepositoryFile
repository_files =
    record { path = codes "a.go"; content = codes "package a\nvar x = 1\nvar y = 2\n"; kind = [] }
    ∷ []

abbrev shorter : GeneratedFileOperation
shorter = operation (codes "modify") (codes "./a.go") (codes "...")

abbrev response : List GeneratedFileOperation
response =
    shorter
    ∷ operation (codes "create") (codes "b.go") (codes "package b")
    ∷ operation (codes "create") (codes "b.go") (codes "var y = 2")
    ∷ []

validate_generated_files_iff_example :
    (validate_generated_files response repository_files ≡ ok tt)
    ↔ IsValidResponse response repository_files
validate_generated_files_iff_example = validate_generated_files_iff response repository_files

normalize_generated_files-absorb_all_example :
    normalize_generated_files response ≡ some (absorb_all [] response)
normalize_generated_files-absorb_all_example = normalize_generated_files-absorb_all response

normalize_generated_files-Distinct_example :
    Distinct (map target (absorb_all [] response))
    × ((k : Bytes)
        → Member k (map target (absorb_all [] response)) ↔ Member k (map target response))
normalize_generated_files-Distinct_example =
    normalize_generated_files-Distinct response (normalize_generated_files-absorb_all response)

drop_noop_generated_files-Member_example :
    Member shorter (drop_noop_generated_files response repository_files)
    ↔ (Member shorter response × (¬ ChangesNothing shorter repository_files))
drop_noop_generated_files-Member_example =
    drop_noop_generated_files-Member shorter response repository_files
