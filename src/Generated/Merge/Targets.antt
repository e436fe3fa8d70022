-- ===== src/Generated/Merge/Targets.antt =====
-- After the merge no two operations name the same path.
use mathlib.Core.Path.{subst, ap₂}
use capstone_project_git_fla.Prelude.{
  some, List, [], ◌∷◌, ◌≡◌, ◌↔◌, ◌⊎◌, inl, inr, refl, sym, ◌∙◌, arith, Bytes, ◌==◌, eq_iff, Member,
  Distinct, All, map, Bool-cases,
}
use mathlib.Core.Option.{some-injective}
use capstone_project_git_fla.Paths.{normalize_plan_path}
use capstone_project_git_fla.Paths.Normal.{normalize-normalize}
use capstone_project_git_fla.Domain.{GeneratedFileOperation}
use capstone_project_git_fla.Generated.{merge_operation, normalize_generated_files}
use capstone_project_git_fla.Generated.Merge.{
  absorb, absorb_all, normalized, path-merge_operation, normalize_generated_files-absorb_all,
}

abbrev path_of : GeneratedFileOperation → Bytes
path_of file = file.path

abbrev pub target : GeneratedFileOperation → Bytes
target file = normalize_plan_path file.path

absorb-Member :
    (k : Bytes) (gs : List GeneratedFileOperation) (file : GeneratedFileOperation)
    → Member k (map path_of (absorb gs file)) ↔ (Member k (map path_of gs) ⊎ (file.path ≡ k))
unfolding absorb
absorb-Member k [] file = ground arith
absorb-Member k (g ∷ gs) file =
    ground (arith, eq_iff g.path file.path, absorb-Member k gs file, path-merge_operation g file)

absorb-Distinct :
    (gs : List GeneratedFileOperation) (file : GeneratedFileOperation)
    → Distinct (map path_of gs)
    → Distinct (map path_of (absorb gs file))
unfolding absorb
absorb-Distinct [] file h = ((λ m. m), tt)
absorb-Distinct (g ∷ gs) file h = elim (Bool-cases (g.path == file.path)) [
  | inl b ↦ rw (b, path-merge_operation, ← (eq_iff g.path file.path).0 b) h
  | inr b ↦ rw b (
    (λ m. elim ((absorb-Member g.path gs file).0 m) [
      | inl old ↦ h.0 old
      | inr new ↦ cc (b, (eq_iff g.path file.path).1 (sym new))
    ]),
    absorb-Distinct gs file h.1,
  )
]

abbrev IsNormal : GeneratedFileOperation → Type 0
IsNormal g = normalize_plan_path g.path ≡ g.path

absorb-IsNormal :
    (gs : List GeneratedFileOperation) (file : GeneratedFileOperation)
    → All IsNormal gs
    → IsNormal file
    → All IsNormal (absorb gs file)
unfolding absorb merge_operation
absorb-IsNormal [] file h n = (n, tt)
absorb-IsNormal (g ∷ gs) file h n = ground (arith, absorb-IsNormal gs file h.1 n)

module _ (k : Bytes) where
  absorb_all-Member :
      (gs files : List GeneratedFileOperation)
      → Member k (map path_of (absorb_all gs files))
        ↔ (Member k (map path_of gs) ⊎ Member k (map target files))
  unfolding absorb_all
  absorb_all-Member gs [] = (inl, λ m. elim m [ inl a ↦ a | inr b ↦ absurd b ])
  absorb_all-Member gs (file ∷ files) =
      let (to, from) = absorb_all-Member (absorb gs (normalized file)) files in
      let (to', from') = absorb-Member k gs (normalized file) in
      (
        λ m. elim (to m) [
          | inl a ↦ elim (to' a) [ inl b ↦ inl b | inr e ↦ inr (inl e) ]
          | inr a ↦ inr (inr a)
        ],
        λ m. from (elim m [
          | inl a ↦ inl (from' (inl a))
          | inr (inl e) ↦ inl (from' (inr e))
          | inr (inr a) ↦ inr a
        ]),
      )

absorb_all-Distinct :
    (gs files : List GeneratedFileOperation)
    → Distinct (map path_of gs)
    → Distinct (map path_of (absorb_all gs files))
unfolding absorb_all
absorb_all-Distinct gs [] h = h
absorb_all-Distinct gs (file ∷ files) h =
    absorb_all-Distinct (absorb gs (normalized file)) files (absorb-Distinct gs (normalized file) h)

absorb_all-IsNormal :
    (gs files : List GeneratedFileOperation) → All IsNormal gs → All IsNormal (absorb_all gs files)
unfolding absorb_all
absorb_all-IsNormal gs [] h = h
absorb_all-IsNormal gs (file ∷ files) h =
    absorb_all-IsNormal (absorb gs (normalized file)) files
      (absorb-IsNormal gs (normalized file) h (normalize-normalize file.path))

map-IsNormal : (gs : List GeneratedFileOperation) → All IsNormal gs → map target gs ≡ map path_of gs
map-IsNormal [] h = refl
map-IsNormal (g ∷ gs) (e, h) = ap₂ (λ p ps. p ∷ ps) e (map-IsNormal gs h)

-- The merged operations name pairwise different normalised paths, and they name exactly the paths that the response names.
pub normalize_generated_files-Distinct :
    (files : List GeneratedFileOperation) {merged : List GeneratedFileOperation}
    → normalize_generated_files files ≡ some merged
    → Distinct (map target merged)
      × ((k : Bytes) → Member k (map target merged) ↔ Member k (map target files))
normalize_generated_files-Distinct files {merged} h =
    subst Named
      (some-injective (absorb_all [] files) merged
        (sym (normalize_generated_files-absorb_all files) ∙ h))
      (
        subst Distinct (sym same) (absorb_all-Distinct [] files tt),
        λ k.
            let (to, from) = absorb_all-Member k [] files in
            (
              (λ m. elim (to (subst (Member k) same m)) [ inl a ↦ absurd a | inr b ↦ b ]),
              λ m. subst (Member k) (sym same) (from (inr m)),
            ),
      )
  where
    same : map target (absorb_all [] files) ≡ map path_of (absorb_all [] files)
    same = map-IsNormal (absorb_all [] files) (absorb_all-IsNormal [] files tt)

    Named : List GeneratedFileOperation → Type 0
    Named gs =
        Distinct (map target gs)
        × ((k : Bytes) → Member k (map target gs) ↔ Member k (map target files))
