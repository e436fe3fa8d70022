-- ===== src/Generated/Filters.antt =====
-- The filters on generated files: unchanged and incomplete `modify` operations are dropped
-- (backend/internal/service/workflow.go).
pub mod Kept
use capstone_project_git_fla.Prelude.{
  ℕ, ◌*◌, ◌/◌, Bool, true, false, not, ◌&&◌, ◌||◌, Option, none, some, List, [], ◌∷◌, Bytes, codes,
  ◌==◌, is_empty, if◌then◌else◌, keep, length, map, leb, ltb,
}
use capstone_project_git_fla.Prelude.Map.{Map, lookup, insert}
use capstone_project_git_fla.Text.{trim_space, is_blank, replace_crlf, split}
use capstone_project_git_fla.Paths.{normalize_plan_path}
use capstone_project_git_fla.Domain.{GeneratedFileOperation, RepositoryFile}

unfoldable pub normalize_generated_file_content : Bytes → Bytes
normalize_generated_file_content value = replace_crlf value

abbrev pub modify : Bytes
modify = codes "modify"

-- The loop that fills `contentByPath`; `f` is what it does to the content.
unfoldable pub content_by_path : (Bytes → Bytes) → Map Bytes → List RepositoryFile → Map Bytes
content_by_path f m [] = m
content_by_path f m (file ∷ files) =
    content_by_path f (insert (normalize_plan_path file.path) (f file.content) m) files

-- A read of a missing key of a Go map of strings.
abbrev or_empty : Option Bytes → Bytes
or_empty none = []
or_empty (some v) = v

unfoldable pub is_noop : Map Bytes → GeneratedFileOperation → Bool
is_noop m file =
    file.action == modify
    && normalize_generated_file_content file.content
      == or_empty (lookup (normalize_plan_path file.path) m)

unfoldable pub drop_noop_generated_files :
    List GeneratedFileOperation → List RepositoryFile → List GeneratedFileOperation
drop_noop_generated_files files repository_files =
    let m = content_by_path normalize_generated_file_content [] repository_files in
    keep (λ file. not (is_noop m file)) files

unfoldable pub drop_noop_generated_files_for_apply :
    List GeneratedFileOperation → List RepositoryFile → List GeneratedFileOperation
drop_noop_generated_files_for_apply files repository_files =
    let m = content_by_path normalize_generated_file_content [] repository_files in
    keep (λ file. not (is_noop m file)) files

-- The lines that are not blank, trimmed.
unfoldable pub meaningful_lines : Bytes → List Bytes
meaningful_lines value = keep (λ line. not (is_empty line)) (map trim_space (split b'\n' value))

max_of : ℕ → ℕ → ℕ
max_of least n = if ltb n least then least else n

-- The tests of `looksLikePartialModifyContent` on the trimmed texts' sizes: bytes and lines.
unfoldable pub is_partial : ℕ → ℕ → ℕ → ℕ → Bool
unfolding max_of
is_partial generated_len generated_lines original_len original_lines =
    if ltb original_lines 3 && ltb original_len 120
    then false
    else if leb 3 original_lines && leb generated_lines 1
    then true
    else if leb 120 original_len && ltb generated_len (max_of 80 (original_len * 35 / 100))
    then true
    else leb 8 original_lines && ltb generated_lines (max_of 3 (original_lines * 35 / 100))

unfoldable pub looks_like_partial_modify_content : Bytes → Bytes → Bool
looks_like_partial_modify_content generated original =
    let generated' = trim_space (normalize_generated_file_content generated) in
    let original' = trim_space (normalize_generated_file_content original) in
    if is_empty generated' || is_empty original'
    then false
    else is_partial (length generated') (length (meaningful_lines generated')) (length original')
        (length (meaningful_lines original'))

abbrev is_partial_of : Bytes → Option Bytes → Bool
is_partial_of content none = false
is_partial_of content (some original) = looks_like_partial_modify_content content original

unfoldable pub is_unsafe_partial : Map Bytes → GeneratedFileOperation → Bool
is_unsafe_partial m file =
    file.action == modify && is_partial_of file.content (lookup (normalize_plan_path file.path) m)

unfoldable pub drop_unsafe_partial_modify_files :
    List GeneratedFileOperation → List RepositoryFile → List GeneratedFileOperation
drop_unsafe_partial_modify_files files repository_files =
    let m = content_by_path (λ content. content) [] repository_files in
    keep (λ file. not (is_unsafe_partial m file)) files
