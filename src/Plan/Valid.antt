-- ===== src/Plan/Valid.antt =====
-- What a valid plan is, said without the code's own tables, patterns and map of sections.
use capstone_project_git_fla.Prelude.{
  ℕ, ◌-◌, ◌≤◌, true, false, not, ◌||◌, Option, none, some, List, [], ◌∷◌, ◌≡◌, ◌≢◌, ◌⊎◌, Bytes,
  codes, ◌==◌, eqb, if◌then◌else◌, Member, All, length, map, take, drop,
}
use capstone_project_git_fla.Regex.{
  Regex, class, char, literal, ◌▹◌, group, many, many1, few1, optional, up_to, space, dot,
  line_start, line_end, Match, submatch, find_all, matches,
}
use capstone_project_git_fla.Text.{has_infix, trim_space, is_blank, has_prefix}
use capstone_project_git_fla.Paths.{normalize_plan_path, safe_plan_path}
use capstone_project_git_fla.Domain.{RepositoryFile}

-- The headings below the title, in order.
abbrev pub section_names : List Bytes
section_names =
    codes "Issue Summary"
    ∷ codes "Goal"
    ∷ codes "Relevant Files"
    ∷ codes "Proposed Changes"
    ∷ codes "Implementation Steps"
    ∷ codes "Expected Files to Change"
    ∷ codes "Tests and Verification"
    ∷ codes "Risks and Open Questions"
    ∷ []

-- A line of one to six "#", white space, and a text.
abbrev heading_line : Regex
heading_line =
    line_start
    ▹ group 1 (char b'#' ▹ up_to 5 (char b'#'))
    ▹ many1 space
    ▹ group 2 (few1 dot)
    ▹ many space
    ▹ line_end

-- A line of "-" or "*", a path in backquotes, perhaps "(create)", a colon and a text.
abbrev bullet_line : Regex
bullet_line =
    line_start
    ▹ many space
    ▹ class (λ b. eqb b b'-' || eqb b b'*')
    ▹ many1 space
    ▹ char b'`'
    ▹ group 1 (many1 (class (λ b. not (eqb b b'`'))))
    ▹ char b'`'
    ▹ optional (group 2 (many space ▹ literal (codes "(create)")))
    ▹ many space
    ▹ char b':'
    ▹ many space
    ▹ group 3 (few1 dot)
    ▹ many space
    ▹ line_end

-- A line that begins with "1.", white space and another character.
abbrev pub first_step_line : Regex
first_step_line =
    line_start
    ▹ many space
    ▹ char b'1'
    ▹ char b'.'
    ▹ many1 space
    ▹ class (λ b. not (eqb b 9 || eqb b 10 || eqb b 12 || eqb b 13 || eqb b 32))

abbrev pub heading_lines : Bytes → List Match
heading_lines plan = find_all heading_line plan

abbrev pub bullet_lines : Bytes → List Match
bullet_lines text = find_all bullet_line text

-- The headings are the required ones: the title on level "#", the others on level "##".
abbrev pub HeadingsAre : Bytes → List Bytes → List Match → Type 0
HeadingsAre level [] [] = Unit {0}
HeadingsAre level [] (h ∷ hs) = ⊥
HeadingsAre level (name ∷ names) [] = ⊥
HeadingsAre level (name ∷ names) (h ∷ hs) =
    (submatch 1 h ≡ level) × (submatch 2 h ≡ name) × HeadingsAre (codes "##") names hs

-- the bytes from one place up to another
abbrev pub between : ℕ → ℕ → Bytes → Bytes
between first stop s = take (stop - first) (drop first s)

-- where the next heading begins, or the plan ends
abbrev pub next_place : Bytes → List Match → ℕ
next_place plan [] = length plan
next_place plan (next ∷ later) = next.start

abbrev pub or_else : Option Bytes → Option Bytes → Option Bytes
or_else none t = t
or_else (some s) t = some s

-- What stands between the last heading with the name and the heading after it, without the white
-- space around it.
abbrev pub last_under : Bytes → List Match → Bytes → Option Bytes
last_under plan [] name = none
last_under plan (h ∷ hs) name = or_else (last_under plan hs name) (
    if submatch 2 h == name
    then some (trim_space (between h.stop (next_place plan hs) plan))
    else none)

abbrev pub text_or_empty : Option Bytes → Bytes
text_or_empty none = []
text_or_empty (some t) = t

abbrev pub text_under : Bytes → Bytes → Bytes
text_under plan name = text_or_empty (last_under plan (heading_lines plan) name)

-- The bullet names a safe path that is in the repository or is marked as new.
abbrev pub IsAllowed : List Bytes → Match → Type 0
IsAllowed allowed b =
    let path = normalize_plan_path (submatch 1 b) in
    (safe_plan_path path ≡ true) × (Member path allowed ⊎ (is_blank (submatch 2 b) ≡ false))

-- The text has path bullets, and each is allowed.
abbrev pub HasBullets : List RepositoryFile → Bytes → Type 0
HasBullets files s =
    (bullet_lines s ≢ [])
    × All (IsAllowed (map (λ file. normalize_plan_path file.path) files)) (bullet_lines s)

-- What the code means by a valid plan.
pub record IsValidPlan (plan : Bytes) (repository_files : List RepositoryFile) : Type 0 where
  pub not_empty : plan ≢ []
  pub at_most_200000 : length plan ≤ 200000
  pub no_fence : has_infix plan (codes "```") ≡ false
  pub titled : has_prefix plan (codes "# Implementation Plan\n") ≡ true
  pub headings :
      HeadingsAre (codes "#") (codes "Implementation Plan" ∷ section_names) (heading_lines plan)
  pub filled : All (λ name. is_blank (text_under plan name) ≡ false) section_names
  pub ordered : matches first_step_line (text_under plan (codes "Implementation Steps")) ≡ true
  pub relevant : HasBullets repository_files (text_under plan (codes "Relevant Files"))
  pub expected : HasBullets repository_files (text_under plan (codes "Expected Files to Change"))
