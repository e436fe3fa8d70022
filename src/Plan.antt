-- ===== src/Plan.antt =====
-- `ValidatePlan` and `splitPlanSections` (backend/internal/service/plan_validation.go). The three
-- patterns are written over `Regex`.
pub mod Valid
pub mod Accepts
pub mod Samples
use capstone_project_git_fla.Prelude.{
  ℕ, zero, suc, ◌+◌, ◌-◌, Bool, true, false, not, ◌&&◌, ◌||◌, Option, none, some, List, [], ◌∷◌,
  ◌++◌, Bytes, codes, ◌==◌, is_empty, eqb, ltb, if◌then◌else◌, length, take, drop, map, contains,
}
use capstone_project_git_fla.Prelude.Map.{Map, lookup, insert}
use capstone_project_git_fla.Regex.{
  Regex, class, char, literal, ◌▹◌, or, group, many, many1, few1, optional, up_to, space, dot,
  line_start, line_end, Match, submatch, find_all, matches,
}
use capstone_project_git_fla.Text.{has_infix, trim_space, is_blank, has_prefix}
use capstone_project_git_fla.Paths.{normalize_plan_path, safe_plan_path}
use capstone_project_git_fla.Domain.{RepositoryFile}
use capstone_project_git_fla.Errors.{Err, text, about, Result, ok, err, guard, ◌>>=◌, ◌>>◌}

-- `(?m)^(#{1,6})\s+(.+?)\s*$`
heading_pattern : Regex
heading_pattern =
    line_start
    ▹ group 1 (char b'#' ▹ up_to 5 (char b'#'))
    ▹ many1 space
    ▹ group 2 (few1 dot)
    ▹ many space
    ▹ line_end

-- "(?m)^\s*[-*]\s+`([^`]+)`(\s*\(create\))?\s*:\s*(.+?)\s*$"
file_bullet_pattern : Regex
file_bullet_pattern =
    line_start
    ▹ many space
    ▹ class (λ b. eqb b b'-' || eqb b b'*')
    ▹ many1 space
    ▹ char b'`'
    ▹ group 1 (many1 (class (λ b. not (eqb b b'`'))))
    ▹ char b'`'
    ▹ optional (group 2 (many space ▹ literal (codes "(create)")))
    ▹ many space
    ▹ char b':'
    ▹ many space
    ▹ group 3 (few1 dot)
    ▹ many space
    ▹ line_end

-- `(?m)^\s*1\.\s+\S`
unfoldable pub ordered_step_pattern : Regex
ordered_step_pattern =
    line_start
    ▹ many space
    ▹ char b'1'
    ▹ char b'.'
    ▹ many1 space
    ▹ class (λ b. not (eqb b 9 || eqb b 10 || eqb b 12 || eqb b 13 || eqb b 32))

abbrev pub relevant_files : Bytes
relevant_files = codes "Relevant Files"

abbrev pub expected_files : Bytes
expected_files = codes "Expected Files to Change"

abbrev pub implementation_steps : Bytes
implementation_steps = codes "Implementation Steps"

abbrev pub plan_title : Bytes
plan_title = codes "Implementation Plan"

-- `requiredPlanSections[1:]`
abbrev pub required_sections : List Bytes
required_sections =
    codes "Issue Summary"
    ∷ codes "Goal"
    ∷ relevant_files
    ∷ codes "Proposed Changes"
    ∷ implementation_steps
    ∷ expected_files
    ∷ codes "Tests and Verification"
    ∷ codes "Risks and Open Questions"
    ∷ []

unfoldable pub headings_of : Bytes → List Match
unfolding heading_pattern
headings_of plan = find_all heading_pattern plan

unfoldable pub bullets_of : Bytes → List Match
unfolding file_bullet_pattern
bullets_of section = find_all file_bullet_pattern section

-- The comparison of the headings with the required ones, their number included.
unfoldable pub same_headings : Bytes → List Bytes → List Match → Bool
same_headings level [] [] = true
same_headings level [] (h ∷ hs) = false
same_headings level (name ∷ names) [] = false
same_headings level (name ∷ names) (h ∷ hs) =
    submatch 1 h == level && submatch 2 h == name && same_headings (codes "##") names hs

end_of : Bytes → List Match → ℕ
end_of plan [] = length plan
end_of plan (next ∷ _) = next.start

sections_from : Bytes → Map Bytes → List Match → Map Bytes
sections_from plan m [] = m
sections_from plan m (h ∷ hs) =
    sections_from plan
      (insert (submatch 2 h) (trim_space (take (end_of plan hs - h.stop) (drop h.stop plan))) m) hs

unfoldable pub split_plan_sections : Bytes → Map Bytes
unfolding sections_from end_of headings_of
split_plan_sections plan = sections_from plan [] (headings_of plan)

-- A read of a missing section gives the empty text.
unfoldable pub section : Map Bytes → Bytes → Bytes
section sections name = elim (lookup name sections) [ none ↦ [] | some s ↦ s ]

unfoldable pub require_sections : Map Bytes → List Bytes → Result (Unit {0})
require_sections sections [] = ok tt
require_sections sections (name ∷ names) = do
  guard (not (is_blank (section sections name))) (about "section " name " is empty")
  require_sections sections names

unfoldable pub validate_bullet : List Bytes → Match → Result (Unit {0})
validate_bullet allowed bullet = do
  let path = normalize_plan_path (submatch 1 bullet)
  guard (safe_plan_path path)
      (about "plan contains unsafe repository path: " (submatch 1 bullet) "")
  guard (contains allowed path || not (is_blank (submatch 2 bullet)))
      (about "plan references unavailable repository file: " path "")

unfoldable pub validate_bullets : List Bytes → List Match → Result (Unit {0})
validate_bullets allowed [] = ok tt
validate_bullets allowed (bullet ∷ bullets) = do
  validate_bullet allowed bullet
  validate_bullets allowed bullets

unfoldable pub no_matches : List Match → Bool
no_matches [] = true
no_matches (m ∷ ms) = false

unfoldable pub validate_section : List Bytes → Map Bytes → Bytes → Result (Unit {0})
validate_section allowed sections name = do
  let bullets = bullets_of (section sections name)
  guard (not (no_matches bullets)) (about "section " name " must contain path bullets")
  validate_bullets allowed bullets

abbrev pub bad_headings : Err
bad_headings = text "headings are missing, duplicated, or out of order"

unfoldable pub validate_plan : Bytes → List RepositoryFile → Result (Unit {0})
validate_plan markdown repository_files = do
  let plan = trim_space markdown
  guard (not (is_empty plan)) (text "Agent Engine returned an empty plan")
  guard (not (ltb 200000 (length plan))) (text "plan exceeds 200000 characters")
  guard (not (has_infix plan (codes "```"))) (text "fenced code blocks are not allowed")
  guard (has_prefix plan (codes "# Implementation Plan\n"))
      (text "plan must start with # Implementation Plan")
  guard (same_headings (codes "#") (plan_title ∷ required_sections) (headings_of plan)) bad_headings
  let sections = split_plan_sections plan
  require_sections sections required_sections
  guard (matches ordered_step_pattern (section sections implementation_steps))
      (text "Implementation Steps must contain an ordered list")
  let allowed = map (λ file. normalize_plan_path file.path) repository_files
  validate_section allowed sections relevant_files
  validate_section allowed sections expected_files
