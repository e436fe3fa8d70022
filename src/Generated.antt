-- ===== src/Generated.antt =====
-- The file operations that the Agent Engine returns: how they are merged, filtered and validated
-- before they are stored (backend/internal/service/workflow.go).
pub mod Filters
pub mod Merge
mod Samples
pub mod Validation
use capstone_project_git_fla.Prelude.{
  ℕ, Bool, true, false, Option, none, some, List, [], ◌∷◌, ◌++◌, Bytes, codes, ◌==◌, is_empty,
  if◌then◌else◌, length, get_elem?, set,
}
use capstone_project_git_fla.Prelude.Map.{Map, lookup, insert}
use capstone_project_git_fla.Text.{trim_space, is_blank}
use capstone_project_git_fla.Paths.{normalize_plan_path}
use capstone_project_git_fla.Domain.{GeneratedFileOperation}

unfoldable pub merge_explanation : Bytes → Bytes → Bytes
merge_explanation previous next =
    let previous' = trim_space previous in
    let next' = trim_space next in
    if is_empty previous'
    then next'
    else if is_empty next'
    then previous'
    else if previous' == next'
    then next'
    else previous' ++ (codes "\n" ++ next')

-- A later operation on the same path keeps what it leaves blank.
unfoldable pub merge_operation :
    GeneratedFileOperation → GeneratedFileOperation → GeneratedFileOperation
merge_operation previous file = record file {
  action = if is_blank file.action then previous.action else file.action;
  content = if is_blank file.content then previous.content else file.content;
  diff = if is_blank file.diff then previous.diff else file.diff;
  explanation = merge_explanation previous.explanation file.explanation;
}

-- The variables `merged` and `indexByPath` of the loop.
pub record Merging : Type 0 where
  pub merged : List GeneratedFileOperation
  pub index_by_path : Map ℕ

-- `none` is the panic of an index out of range.
merge_at : Merging → GeneratedFileOperation → ℕ → Option GeneratedFileOperation → Option Merging
merge_at m file index none = none
merge_at m file index (some previous) =
    some (record m { merged = set m.merged index (merge_operation previous file) })

place : Merging → GeneratedFileOperation → Option ℕ → Option Merging
unfolding merge_at
place m file none = some (record {
  merged = m.merged ++ file ∷ [];
  index_by_path = insert file.path (length m.merged) m.index_by_path;
})
place m file (some index) = merge_at m file index (get_elem? m.merged index)

-- one round of the loop
pub merge_file : Merging → GeneratedFileOperation → Option Merging
unfolding place
merge_file m file =
    let file' = record file { path = normalize_plan_path file.path } in
    if is_empty file'.path
    then some (record m { merged = m.merged ++ file' ∷ [] })
    else place m file' (lookup file'.path m.index_by_path)

infixl 5 ◌>>=◌
abbrev ◌>>=◌ : {A B : Type 0} → Option A → (A → Option B) → Option B
none >>= f = none
some a >>= f = f a

pub merge_files : Merging → List GeneratedFileOperation → Option Merging
merge_files m [] = some m
merge_files m (file ∷ files) = do m' ← merge_file m file; merge_files m' files

abbrev pub nothing_merged : Merging
nothing_merged = record { merged = []; index_by_path = [] }

-- NormalizeGeneratedFiles
unfoldable pub normalize_generated_files :
    List GeneratedFileOperation → Option (List GeneratedFileOperation)
unfolding merge_files merge_file
normalize_generated_files files = do m ← merge_files nothing_merged files; some m.merged
