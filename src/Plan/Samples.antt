-- ===== src/Plan/Samples.antt =====
-- A plan that is accepted, and two that are not.
use capstone_project_git_fla.Plan.Valid.{IsValidPlan}
use capstone_project_git_fla.Plan.Accepts.{validate_plan_iff}
use capstone_project_git_fla.Prelude.{
  ◌↔◌, List, [], ◌∷◌, ◌++◌, ◌≡◌, refl, Bytes, codes, ◌==◌, contains,
}
use capstone_project_git_fla.Prelude.Map.{lookup, insert}
use capstone_project_git_fla.Regex.{find_all, matches, submatch}
use capstone_project_git_fla.Text.{
  has_infix, trim_space, has_prefix, trim_prefix, replace_byte, split, join,
}
use capstone_project_git_fla.Paths.{normalize_plan_path, safe_plan_path}
use capstone_project_git_fla.Paths.Clean.{clean}
use capstone_project_git_fla.Domain.{RepositoryFile}
use capstone_project_git_fla.Errors.{ok, err, about}
use capstone_project_git_fla.Plan.{
  validate_plan, headings_of, bullets_of, split_plan_sections, section, validate_bullet,
  same_headings, require_sections, validate_bullets, no_matches, validate_section,
  ordered_step_pattern,
}

abbrev pub sample_plan : Bytes
sample_plan =
    codes "# Implementation Plan\n## Issue Summary\ns\n## Goal\ng\n## Relevant Files\n- `a.go`: x\n"
    ++ (codes "## Proposed Changes\np\n## Implementation Steps\n1. do\n"
        ++ (codes "## Expected Files to Change\n* `./a.go`: x\n- `b.go` (create): y\n"
            ++ codes "## Tests and Verification\nt\n## Risks and Open Questions\nr\n"))

abbrev pub sample_files : List RepositoryFile
sample_files = record { path = codes "a.go"; content = codes "x"; kind = [] } ∷ []

-- The plan is accepted, unless the repository has no file "a.go".
verdicts :
    (validate_plan sample_plan sample_files ≡ ok tt)
    × (validate_plan sample_plan []
        ≡ err (about "plan references unavailable repository file: " (codes "a.go") ""))
unfolding validate_plan headings_of bullets_of has_infix split_plan_sections section validate_bullet
    find_all matches submatch lookup insert trim_space has_prefix trim_prefix replace_byte split
    join normalize_plan_path safe_plan_path clean ◌==◌ contains same_headings require_sections
    validate_bullets no_matches validate_section ordered_step_pattern
verdicts = (refl, refl)

pub accepted : validate_plan sample_plan sample_files ≡ ok tt
accepted = verdicts.0

validate_plan_iff_example :
    (validate_plan sample_plan sample_files ≡ ok tt)
    ↔ IsValidPlan (trim_space sample_plan) sample_files
validate_plan_iff_example = validate_plan_iff sample_plan sample_files
