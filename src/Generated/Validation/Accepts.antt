-- ===== src/Generated/Validation/Accepts.antt =====
-- Which responses `ValidateGeneratedFiles` accepts.
use mathlib.Core.Path.{subst}
use capstone_project_git_fla.Prelude.{
  true, false, List, [], ◌∷◌, ◌≡◌, ◌↔◌, ◌⊎◌, inl, inr, ◌≤◌, refl, sym, arith, Bytes, ◌==◌, eq_iff,
  contains, contains_iff, not-contains, contains-false, Member, Distinct, All, length, map,
}
use capstone_project_git_fla.Errors.{Result, ok, err, ◌>>=◌}
use capstone_project_git_fla.Text.{is_blank}
use capstone_project_git_fla.Paths.{normalize_plan_path, safe_plan_path}
use capstone_project_git_fla.Domain.{GeneratedFileOperation, RepositoryFile}
use capstone_project_git_fla.Generated.Validation.{
  create, modify, delete, validate_action, validate_file, validate_files, existing_paths,
  validate_generated_files,
}

abbrev pub target : GeneratedFileOperation → Bytes
target file = normalize_plan_path file.path

-- The action is one of the three, and suits the file that the path names or does not name.
abbrev pub SuitsAction : List Bytes → GeneratedFileOperation → Type 0
SuitsAction existing file =
    ((file.action ≡ create) × (¬ Member (target file) existing) × (is_blank file.content ≡ false))
    ⊎ ((file.action ≡ modify) × Member (target file) existing × (is_blank file.content ≡ false))
    ⊎ ((file.action ≡ delete)
        × Member (target file) existing
        × (file.content ≡ [])
        × (file.diff ≡ []))

pub record IsAcceptable (existing : List Bytes) (file : GeneratedFileOperation) : Type 0 where
  pub safe : safe_plan_path (target file) ≡ true
  pub explained : is_blank file.explanation ≡ false
  pub suits : SuitsAction existing file

validate_action_sound :
    (existing : List Bytes) (file : GeneratedFileOperation)
    → validate_action (contains existing (target file)) (target file) file ≡ ok tt
    → SuitsAction existing file
unfolding validate_action
validate_action_sound existing file h = ground (
  arith,
  contains_iff existing (target file),
  eq_iff file.action create,
  eq_iff file.action modify,
  eq_iff file.action delete,
)

validate_action_complete :
    (existing : List Bytes) (file : GeneratedFileOperation)
    → SuitsAction existing file
    → validate_action (contains existing (target file)) (target file) file ≡ ok tt
unfolding validate_action ◌==◌
validate_action_complete existing file (inl (a, n, c)) =
    ground (arith, contains-false existing (target file) n)
validate_action_complete existing file (inr (inl (a, m, c))) =
    ground (arith, (contains_iff existing (target file)).1 m)
validate_action_complete existing file (inr (inr (a, m, c, d))) =
    ground (arith, (contains_iff existing (target file)).1 m)

-- Each of the files is acceptable, and its path is not among those that were seen before it.
IsAccepted : List Bytes → List Bytes → List GeneratedFileOperation → Type 0
IsAccepted existing seen [] = Unit {0}
IsAccepted existing seen (file ∷ files) =
    IsAcceptable existing file
    × (¬ Member (target file) seen)
    × IsAccepted existing (target file ∷ seen) files

module _ (existing seen : List Bytes) (file : GeneratedFileOperation) where
  validate_file_sound :
      {seen' : List Bytes}
      → validate_file existing seen file ≡ ok seen'
      → IsAcceptable existing file × (¬ Member (target file) seen) × (seen' ≡ target file ∷ seen)
  unfolding validate_file
  validate_file_sound h = (
    record {
      safe = ground arith;
      explained = ground arith;
      suits = validate_action_sound existing file (ground arith);
    },
    not-contains seen (target file) (ground arith),
    ground arith,
  )

  validate_file_complete :
      IsAcceptable existing file
      → ¬ Member (target file) seen
      → validate_file existing seen file ≡ ok (target file ∷ seen)
  unfolding validate_file
  validate_file_complete a n = rw (
    a.safe,
    contains-false seen (target file) n,
    a.explained,
    validate_action_complete existing file a.suits,
  )

validate_files_sound :
    (existing seen : List Bytes) (files : List GeneratedFileOperation)
    → validate_files existing seen files ≡ ok tt
    → IsAccepted existing seen files
unfolding validate_files IsAccepted
validate_files_sound existing seen [] h = tt
validate_files_sound existing seen (file ∷ files) h =
    go (validate_file existing seen file) refl h (λ s. validate_files_sound existing s files)
  where
    go :
        (r : Result (List Bytes))
        → validate_file existing seen file ≡ r
        → (r >>= λ s. validate_files existing s files) ≡ ok tt
        → ((s : List Bytes) → validate_files existing s files ≡ ok tt → IsAccepted existing s files)
        → IsAcceptable existing file
          × (¬ Member (target file) seen)
          × IsAccepted existing (target file ∷ seen) files
    go (ok s) e k ih =
        let (a, n, p) = validate_file_sound existing seen file e in
        (a, n, subst (λ t. IsAccepted existing t files) p (ih s k))
    go (err x) e k ih = cc

validate_files_complete :
    (existing seen : List Bytes) (files : List GeneratedFileOperation)
    → IsAccepted existing seen files
    → validate_files existing seen files ≡ ok tt
unfolding validate_files IsAccepted
validate_files_complete existing seen [] h = refl
validate_files_complete existing seen (file ∷ files) (a, n, h) =
    rw (validate_file_complete existing seen file a n)
      (validate_files_complete existing (target file ∷ seen) files h)

Disjoint : List Bytes → List Bytes → Type 0
Disjoint seen ks = (k : Bytes) → Member k ks → ¬ Member k seen

IsAccepted-parts :
    (existing seen : List Bytes) (files : List GeneratedFileOperation)
    → IsAccepted existing seen files
    → All (IsAcceptable existing) files
      × Distinct (map target files)
      × Disjoint seen (map target files)
unfolding IsAccepted Disjoint
IsAccepted-parts existing seen [] h = (tt, tt, λ k m. absurd m)
IsAccepted-parts existing seen (file ∷ files) (a, n, h) =
    let (all, distinct, apart) = IsAccepted-parts existing (target file ∷ seen) files h in
    (
      (a, all),
      ((λ m. apart (target file) m (inl refl)), distinct),
      λ k m s. elim m [
        | inl e ↦ n (subst (λ j. Member j seen) (sym e) s)
        | inr m' ↦ apart k m' (inr s)
      ],
    )

IsAccepted-of_parts :
    (existing seen : List Bytes) (files : List GeneratedFileOperation)
    → All (IsAcceptable existing) files
    → Distinct (map target files)
    → Disjoint seen (map target files)
    → IsAccepted existing seen files
unfolding IsAccepted Disjoint
IsAccepted-of_parts existing seen [] a d apart = tt
IsAccepted-of_parts existing seen (file ∷ files) (a, as') (n, d) apart = (
  a,
  apart (target file) (inl refl),
  IsAccepted-of_parts existing (target file ∷ seen) files as' d λ k m s. elim s [
    | inl e ↦ n (subst (λ j. Member j (map target files)) (sym e) m)
    | inr s' ↦ apart k (inr m) s'
  ],
)

-- What the code means by a valid response.
pub record IsValidResponse (files : List GeneratedFileOperation)
    (repository_files : List RepositoryFile) : Type 0 where
  pub at_least_one : 1 ≤ length files
  pub at_most_500 : length files ≤ 500
  pub acceptable : All (IsAcceptable (existing_paths repository_files)) files
  pub distinct : Distinct (map target files)

-- A response is accepted exactly when it has 1 to 500 operations, no two of them name the same normalised path, each path is safe, each operation has an explanation that is not blank, and each action is "create" for a path that is not in the repository with content that is not blank, "modify" for one that is there with content that is not blank, or "delete" for one that is there with neither content nor diff.
pub validate_generated_files_iff :
    (files : List GeneratedFileOperation) (repository_files : List RepositoryFile)
    → (validate_generated_files files repository_files ≡ ok tt)
      ↔ IsValidResponse files repository_files
unfolding validate_generated_files Disjoint
validate_generated_files_iff files repository_files = (sound, complete)
  where
    existing : List Bytes
    existing = existing_paths repository_files

    sound :
        validate_generated_files files repository_files ≡ ok tt
        → IsValidResponse files repository_files
    sound h =
        let accepted : validate_files existing [] files ≡ ok tt = ground arith in
        let (all, distinct, _) =
          IsAccepted-parts existing [] files (validate_files_sound existing [] files accepted) in
        record {
          at_least_one = ground arith;
          at_most_500 = ground arith;
          acceptable = all;
          distinct = distinct;
        }

    complete :
        IsValidResponse files repository_files
        → validate_generated_files files repository_files ≡ ok tt
    complete v = ground (
      arith,
      validate_files_complete existing [] files
          (IsAccepted-of_parts existing [] files v.acceptable v.distinct (λ k m s. s)),
      v.at_least_one,
      v.at_most_500,
    )
