-- ===== src/Generated/Filters/Kept.antt =====
-- What the two filters keep and what they drop.

use capstone_project_git_fla.Prelude.{
  ◌<◌, Bool, true, false, not, Option, none, some, List, [], ◌∷◌, ◌≡◌, ◌↔◌, ◌⊎◌, refl, arith, Bytes,
  ◌==◌, eq_iff, if◌then◌else◌, length, Member, Member-keep, Member-of_keep,
}
use capstone_project_git_fla.Prelude.Map.{Map, lookup, insert, lookup-insert, lookup-nil}
use capstone_project_git_fla.Text.{trim_space}
use capstone_project_git_fla.Paths.{normalize_plan_path}
use capstone_project_git_fla.Domain.{GeneratedFileOperation, RepositoryFile}
use capstone_project_git_fla.Generated.Filters.{
  normalize_generated_file_content, modify, content_by_path, or_empty, is_noop,
  drop_noop_generated_files, meaningful_lines,
}

-- The content of the last repository file with the normalised path.
pub last_content : (Bytes → Bytes) → Bytes → List RepositoryFile → Option Bytes
last_content f p [] = none
last_content f p (file ∷ files) = elim (last_content f p files) [
  | some v ↦ some v
  | none ↦ if normalize_plan_path file.path == p then some (f file.content) else none
]

abbrev or_else : Option Bytes → Option Bytes → Option Bytes
or_else (some v) o = some v
or_else none o = o

lookup-content_by_path :
    (f : Bytes → Bytes) (p : Bytes) (m : Map Bytes) (files : List RepositoryFile)
    → lookup p (content_by_path f m files) ≡ or_else (last_content f p files) (lookup p m)
unfolding content_by_path last_content
lookup-content_by_path f p m [] = refl
lookup-content_by_path f p m (file ∷ files) =
    let path = normalize_plan_path file.path in
    ground (
      arith,
      lookup-content_by_path f p (insert path (f file.content) m) files,
      lookup-insert path p (f file.content) m,
    )

lookup-last_content :
    (f : Bytes → Bytes) (p : Bytes) (files : List RepositoryFile)
    → lookup p (content_by_path f [] files) ≡ last_content f p files
lookup-last_content f p files =
    ground (arith, lookup-content_by_path f p [] files, lookup-nil {V = Bytes} p)

module _ (g : GeneratedFileOperation) (repository_files : List RepositoryFile) where
  -- The operation writes what the repository holds already; a missing file counts as empty.
  abbrev pub ChangesNothing : Type 0
  ChangesNothing =
      (g.action ≡ modify)
      × (normalize_generated_file_content g.content
          ≡ or_empty (
              last_content normalize_generated_file_content (normalize_plan_path g.path)
                repository_files))

  is_noop_iff :
      (is_noop (content_by_path normalize_generated_file_content [] repository_files) g ≡ true)
      ↔ ChangesNothing
  unfolding is_noop
  is_noop_iff =
      let f = normalize_generated_file_content in
      let p = normalize_plan_path g.path in
      rw (lookup-last_content f p repository_files) (
        ground (
          arith,
          eq_iff g.action modify,
          eq_iff (f g.content) (or_empty (last_content f p repository_files)),
        ))

not-true : {b : Bool} → not b ≡ true → b ≡ true → ⊥
not-true {b} h k = ground arith

true-of_not : (b : Bool) → (b ≡ true → ⊥) → not b ≡ true
true-of_not true h = absurd (h refl)
true-of_not false h = refl

-- An operation is kept exactly when it is in the response and is not a "modify" whose content, with "\n" for "\r\n", is that of the last repository file with the same normalised path (the empty text if there is none).
pub drop_noop_generated_files-Member :
    (g : GeneratedFileOperation) (files : List GeneratedFileOperation)
    (repository_files : List RepositoryFile)
    → Member g (drop_noop_generated_files files repository_files)
      ↔ (Member g files × (¬ ChangesNothing g repository_files))
unfolding drop_noop_generated_files
drop_noop_generated_files-Member g files repository_files =
    let m = content_by_path normalize_generated_file_content [] repository_files in
    let p = λ (file : GeneratedFileOperation). not (is_noop m file) in
    let iff = is_noop_iff g repository_files in
    (
      (λ k. let (here, kept) = Member-of_keep p g files k in (here, λ c. not-true kept (iff.1 c))),
      λ (here, changes).
          Member-keep p g files here (true-of_not (is_noop m g) (λ e. changes (iff.0 e))),
    )

-- The text whose size the filter measures.
abbrev pub measured : Bytes → Bytes
measured content = trim_space (normalize_generated_file_content content)

-- The text has fewer bytes or fewer lines that are not blank.
abbrev pub IsSmaller : Bytes → Bytes → Type 0
IsSmaller generated original =
    (length (measured generated) < length (measured original))
    ⊎ (length (meaningful_lines (measured generated))
        < length (meaningful_lines (measured original)))

-- What it takes for an operation to be dropped as incomplete.
abbrev pub IsIncomplete : GeneratedFileOperation → List RepositoryFile → Type 0
IsIncomplete g repository_files =
    (g.action ≡ modify)
    × ((original : Bytes) × (last_content (λ content. content) (normalize_plan_path g.path)
            repository_files
          ≡ some original)
        × IsSmaller g.content original)
