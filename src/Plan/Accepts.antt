-- ===== src/Plan/Accepts.antt =====
-- Which plans `ValidatePlan` accepts.
use capstone_project_git_fla.Prelude.{
  ◌≤◌, true, false, not, List, [], ◌∷◌, ◌≡◌, ◌≢◌, ◌↔◌, refl, sym, ap, ◌∙◌, ◌==◌, if◌then◌else◌,
  Option, none, some, Bool, arith, Bytes, codes, eq_iff, is_empty, contains_iff, All, length, map,
}
use mathlib.Core.Path.{subst, fun_ext}
use capstone_project_git_fla.Prelude.Map.{Map, lookup, insert, lookup-insert, lookup-nil}
use capstone_project_git_fla.Regex.{Match, submatch, matches}
use capstone_project_git_fla.Text.{has_infix, trim_space, is_blank, has_prefix}
use capstone_project_git_fla.Paths.{normalize_plan_path}
use capstone_project_git_fla.Domain.{RepositoryFile}
use capstone_project_git_fla.Errors.{ok, about, guard, >>_iff, guard_iff}
use capstone_project_git_fla.Plan.Valid.{
  heading_lines, HeadingsAre, between, next_place, last_under, or_else, text_or_empty, text_under,
  IsAllowed, IsValidPlan,
}
use capstone_project_git_fla.Plan.{
  ordered_step_pattern, relevant_files, expected_files, implementation_steps, plan_title,
  required_sections, headings_of, bullets_of, same_headings, split_plan_sections, section,
  heading_pattern, file_bullet_pattern, end_of, sections_from, require_sections, validate_bullet,
  validate_bullets, no_matches, validate_section, validate_plan,
}

same_headings_iff :
    (level : Bytes) (names : List Bytes) (hs : List Match)
    → (same_headings level names hs ≡ true) ↔ HeadingsAre level names hs
unfolding same_headings
same_headings_iff level [] [] = ((λ h. tt), (λ h. refl))
same_headings_iff level [] (h ∷ hs) = ground arith
same_headings_iff level (name ∷ names) [] = ground arith
same_headings_iff level (name ∷ names) (h ∷ hs) = ground (
  arith,
  same_headings_iff (codes "##") names hs,
  eq_iff (submatch 1 h) level,
  eq_iff (submatch 2 h) name,
)

validate_bullet_iff :
    (allowed : List Bytes) (b : Match) → (validate_bullet allowed b ≡ ok tt) ↔ IsAllowed allowed b
unfolding validate_bullet
validate_bullet_iff allowed b =
    ground (arith, contains_iff allowed (normalize_plan_path (submatch 1 b)))

validate_bullets_iff :
    (allowed : List Bytes) (bs : List Match)
    → (validate_bullets allowed bs ≡ ok tt) ↔ All (IsAllowed allowed) bs
unfolding validate_bullets
validate_bullets_iff allowed [] = ((λ h. tt), (λ h. refl))
validate_bullets_iff allowed (b ∷ bs) =
    let (to, from) = validate_bullet_iff allowed b in
    let (tos, froms) = validate_bullets_iff allowed bs in
    let (split, join) = >>_iff (validate_bullet allowed b) (validate_bullets allowed bs) in
    ((λ h. let (x, y) = split h in (to x, tos y)), (λ (x, y). join (from x, froms y)))

no_matches_iff : (bs : List Match) → (not (no_matches bs) ≡ true) ↔ (bs ≢ [])
unfolding no_matches
no_matches_iff [] = ((λ h. cc), (λ h. absurd (h refl)))
no_matches_iff (b ∷ bs) = ((λ h e. cc), (λ h. refl))

require_sections_iff :
    (sections : Map Bytes) (names : List Bytes)
    → (require_sections sections names ≡ ok tt)
      ↔ All (λ name. is_blank (section sections name) ≡ false) names
unfolding require_sections
require_sections_iff sections [] = ((λ h. tt), (λ h. refl))
require_sections_iff sections (name ∷ names) = ground (arith, require_sections_iff sections names)

abbrev HasAllowed : List Bytes → Bytes → Type 0
HasAllowed allowed s = (bullets_of s ≢ []) × All (IsAllowed allowed) (bullets_of s)

validate_section_iff :
    (allowed : List Bytes) (sections : Map Bytes) (name : Bytes)
    → (validate_section allowed sections name ≡ ok tt) ↔ HasAllowed allowed (section sections name)
unfolding validate_section
validate_section_iff allowed sections name =
    let bs = bullets_of (section sections name) in
    let e = about "section " name " must contain path bullets" in
    let (split, join) = >>_iff (guard (not (no_matches bs)) e) (validate_bullets allowed bs) in
    let (to, from) = guard_iff (not (no_matches bs)) e in
    let (some_to, some_from) = no_matches_iff bs in
    let (all_to, all_from) = validate_bullets_iff allowed bs in
    (
      (λ h. let (x, y) = split h in (some_to (to x), all_to y)),
      (λ (x, y). join (from (some_from x), all_from y)),
    )

end_of-next_place : (plan : Bytes) (hs : List Match) → end_of plan hs ≡ next_place plan hs
unfolding end_of
end_of-next_place plan [] = refl
end_of-next_place plan (h ∷ hs) = refl

joined :
    (found : Option Bytes) (b : Bool) (t : Bytes) (old : Option Bytes)
    → or_else found (if b then some t else old)
      ≡ or_else (or_else found (if b then some t else none)) old
joined (some s) b t old = refl
joined none true t old = refl
joined none false t old = refl

-- The map of the sections, begun with the map `m`, read for a name.
sections_from-last_under :
    (plan : Bytes) (m : Map Bytes) (hs : List Match) (name : Bytes)
    → lookup name (sections_from plan m hs) ≡ or_else (last_under plan hs name) (lookup name m)
unfolding sections_from
sections_from-last_under plan m [] name = refl
sections_from-last_under plan m (h ∷ hs) name =
    let k = submatch 2 h in
    let t = trim_space (between h.stop (next_place plan hs) plan) in
    rw (end_of-next_place plan hs) (
      sections_from-last_under plan (insert k t m) hs name
      ∙ (ap (or_else (last_under plan hs name)) (lookup-insert k name t m)
          ∙ joined (last_under plan hs name) (k == name) t (lookup name m)))

found_text : (found : Option Bytes) → elim found [ none ↦ [] | some s ↦ s ] ≡ text_or_empty found
found_text none = refl
found_text (some s) = refl

nothing_else : (found : Option Bytes) → or_else found none ≡ found
nothing_else none = refl
nothing_else (some s) = refl

split_plan_sections-text_under :
    (plan name : Bytes) → section (split_plan_sections plan) name ≡ text_under plan name
unfolding section split_plan_sections headings_of heading_pattern
split_plan_sections-text_under plan name =
    let hs = heading_lines plan in
    found_text (lookup name (sections_from plan [] hs))
    ∙ ap text_or_empty (
        sections_from-last_under plan [] hs name
        ∙ (ap (or_else (last_under plan hs name)) (lookup-nil name)
            ∙ nothing_else (last_under plan hs name)))

not-is_empty : (s : Bytes) → (not (is_empty s) ≡ true) ↔ (s ≢ [])
not-is_empty [] = ((λ h. cc), (λ h. absurd (h refl)))
not-is_empty (c ∷ s) = ((λ h e. cc), (λ h. refl))

-- `IsValidPlan` in the words of the code, with the text of each section as a function of its name.
record Passes (plan : Bytes) (files : List RepositoryFile) (text_of : Bytes → Bytes) : Type 0 where
  not_empty : plan ≢ []
  at_most_200000 : length plan ≤ 200000
  no_fence : has_infix plan (codes "```") ≡ false
  titled : has_prefix plan (codes "# Implementation Plan\n") ≡ true
  headings : HeadingsAre (codes "#") (plan_title ∷ required_sections) (headings_of plan)
  filled : All (λ name. is_blank (text_of name) ≡ false) required_sections
  ordered : matches ordered_step_pattern (text_of implementation_steps) ≡ true
  relevant : HasAllowed (map (λ file. normalize_plan_path file.path) files) (text_of relevant_files)
  expected : HasAllowed (map (λ file. normalize_plan_path file.path) files) (text_of expected_files)

Passes-IsValidPlan :
    (plan : Bytes) (files : List RepositoryFile)
    → Passes plan files (text_under plan) ↔ IsValidPlan plan files
unfolding headings_of heading_pattern bullets_of file_bullet_pattern ordered_step_pattern
Passes-IsValidPlan plan files = (
  (λ p. record {
    not_empty = p.not_empty;
    at_most_200000 = p.at_most_200000;
    no_fence = p.no_fence;
    titled = p.titled;
    headings = p.headings;
    filled = p.filled;
    ordered = p.ordered;
    relevant = p.relevant;
    expected = p.expected;
  }),
  (λ v. record {
    not_empty = v.not_empty;
    at_most_200000 = v.at_most_200000;
    no_fence = v.no_fence;
    titled = v.titled;
    headings = v.headings;
    filled = v.filled;
    ordered = v.ordered;
    relevant = v.relevant;
    expected = v.expected;
  }),
)

validate_plan-Passes :
    (markdown : Bytes) (repository_files : List RepositoryFile)
    → (validate_plan markdown repository_files ≡ ok tt)
      ↔ Passes
          (trim_space markdown)
          repository_files
          (section (split_plan_sections (trim_space markdown)))
unfolding validate_plan
validate_plan-Passes markdown repository_files = (sound, complete)
  where
    plan : Bytes
    plan = trim_space markdown

    sections : Map Bytes
    sections = split_plan_sections plan

    allowed : List Bytes
    allowed = map (λ file. normalize_plan_path file.path) repository_files

    sound :
        validate_plan markdown repository_files ≡ ok tt
        → Passes plan repository_files (section sections)
    sound h = record {
      not_empty = (not-is_empty plan).0 (ground arith);
      at_most_200000 = ground arith;
      no_fence = ground arith;
      titled = ground arith;
      headings =
          (same_headings_iff (codes "#") (plan_title ∷ required_sections) (headings_of plan)).0
            (ground arith);
      filled = (require_sections_iff sections required_sections).0 (ground arith);
      ordered = ground arith;
      relevant = (validate_section_iff allowed sections relevant_files).0 (ground arith);
      expected = (validate_section_iff allowed sections expected_files).0 (ground arith);
    }

    complete :
        Passes plan repository_files (section sections)
        → validate_plan markdown repository_files ≡ ok tt
    complete v = ground (
      arith,
      (not-is_empty plan).1 v.not_empty,
      (same_headings_iff (codes "#") (plan_title ∷ required_sections) (headings_of plan)).1
          v.headings,
      (require_sections_iff sections required_sections).1 v.filled,
      (validate_section_iff allowed sections relevant_files).1 v.relevant,
      (validate_section_iff allowed sections expected_files).1 v.expected,
    )

-- A plan is accepted exactly when its trimmed text is not empty, has at most 200000 bytes and no fence, begins with the title, has exactly the nine required headings in their order, the text from each heading below the title up to the next one, or to the end, is not blank, the steps have an ordered item, and the sections "Relevant Files" and "Expected Files to Change" have path bullets, each with a safe path that is in the repository or is marked "(create)".
pub validate_plan_iff :
    (markdown : Bytes) (repository_files : List RepositoryFile)
    → (validate_plan markdown repository_files ≡ ok tt)
      ↔ IsValidPlan (trim_space markdown) repository_files
validate_plan_iff markdown repository_files =
    let plan = trim_space markdown in
    let same : section (split_plan_sections plan) ≡ text_under plan =
      fun_ext (split_plan_sections-text_under plan) in
    let (to, from) = validate_plan-Passes markdown repository_files in
    let (out, back) = Passes-IsValidPlan plan repository_files in
    (
      (λ h. out (subst (Passes plan repository_files) same (to h))),
      (λ v. from (subst (Passes plan repository_files) (sym same) (back v))),
    )
