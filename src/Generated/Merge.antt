-- ===== src/Generated/Merge.antt =====
-- The index map of `NormalizeGeneratedFiles` against a plain scan of what is merged so far.
pub mod Targets
use mathlib.Core.Path.{subst}
use capstone_project_git_fla.Prelude.{
  ℕ, zero, suc, ◌<◌, Bool, true, false, Option, none, some, List, [], ◌∷◌, ◌++◌, ◌≡◌, ◌≢◌, ◌⊎◌, inl,
  inr, refl, sym, ap, ◌∙◌, arith, Bytes, ◌==◌, eq_iff, eq_refl, is_empty, if◌then◌else◌, length,
  get_elem?, set, get_elem?-set, get_elem?-lt, get_elem?-append_one, Member, Distinct, map,
  Option-cases, Bool-cases, eqb, ltb,
}
use mathlib.Core.Option.{some-injective}
use capstone_project_git_fla.Prelude.Map.{lookup, insert, lookup-insert, lookup-nil}
use capstone_project_git_fla.Paths.{normalize_plan_path}
use capstone_project_git_fla.Paths.Safety.{normalize-ne-nil}
use capstone_project_git_fla.Domain.{GeneratedFileOperation}
use capstone_project_git_fla.Generated.{
  Merging, merge_operation, merge_at, place, merge_file, merge_files, nothing_merged,
  normalize_generated_files, ◌>>=◌,
}

-- The reference: the first operation with the path takes the new one up, or it goes last.
pub absorb : List GeneratedFileOperation → GeneratedFileOperation → List GeneratedFileOperation
absorb [] file = file ∷ []
absorb (g ∷ gs) file =
    if g.path == file.path then merge_operation g file ∷ gs else g ∷ absorb gs file

abbrev pub normalized : GeneratedFileOperation → GeneratedFileOperation
normalized file = record file { path = normalize_plan_path file.path }

pub absorb_all :
    List GeneratedFileOperation → List GeneratedFileOperation → List GeneratedFileOperation
absorb_all gs [] = gs
absorb_all gs (file ∷ files) = absorb_all (absorb gs (normalized file)) files

pub record Indexed (m : Merging) : Type 0 where
  pub found :
      (p : Bytes) (i : ℕ)
      → lookup p m.index_by_path ≡ some i
      → (g : GeneratedFileOperation) × (get_elem? m.merged i ≡ some g) × (g.path ≡ p)
  pub listed :
      (i : ℕ) (g : GeneratedFileOperation)
      → get_elem? m.merged i ≡ some g
      → lookup g.path m.index_by_path ≡ some i

path-merge_operation : (g file : GeneratedFileOperation) → (merge_operation g file).path ≡ file.path
unfolding merge_operation
path-merge_operation g file = refl

absorb-new :
    (gs : List GeneratedFileOperation) (file : GeneratedFileOperation)
    → ((i : ℕ) (g : GeneratedFileOperation) → get_elem? gs i ≡ some g → g.path ≢ file.path)
    → absorb gs file ≡ gs ++ file ∷ []
unfolding absorb
absorb-new [] file h = refl
absorb-new (g ∷ gs) file h =
    ground
      (arith, eq_iff g.path file.path, h 0 g refl, absorb-new gs file (λ i g' e. h (suc i) g' e))

absorb-at :
    (gs : List GeneratedFileOperation) (file : GeneratedFileOperation) (i : ℕ)
    (g : GeneratedFileOperation)
    → get_elem? gs i ≡ some g
    → g.path ≡ file.path
    → ((j : ℕ) (g' : GeneratedFileOperation)
        → get_elem? gs j ≡ some g'
        → g'.path ≡ file.path
        → j ≡ i)
    → absorb gs file ≡ set gs i (merge_operation g file)
unfolding absorb
absorb-at [] file i g e p h = cc
absorb-at (g' ∷ gs) file zero g e p h =
    let e' : g' ≡ g = cc in rw (e', (eq_iff g.path file.path).1 p)
absorb-at (g' ∷ gs) file (suc i) g e p h = elim (Bool-cases (g'.path == file.path)) [
  | inl b ↦ absurd (omega (arith, h 0 g' refl ((eq_iff g'.path file.path).0 b)))
  | inr b ↦ rw b (
      ap (λ l. g' ∷ l)
        (absorb-at gs file i g e p (λ j g'' e' q. omega (arith, h (suc j) g'' e' q))))
]

-- The next state of the loop, for a path that is not empty.
module _ (m : Merging) (file : GeneratedFileOperation) (h : Indexed m) (ne : file.path ≢ []) where
  -- a path that is not in the map
  fresh-Indexed :
      lookup file.path m.index_by_path ≡ none
      → Indexed (record {
        merged = m.merged ++ file ∷ [];
        index_by_path = insert file.path (length m.merged) m.index_by_path;
      })
  fresh-Indexed e = record {
    found = λ p i q. elim (Bool-cases (file.path == p)) [
      | inl b ↦ (
        file,
        ground (
          arith,
          lookup-insert file.path p (length m.merged) m.index_by_path,
          get_elem?-append_one m.merged file i,
        ),
        (eq_iff file.path p).0 b,
      )
      | inr b ↦
          let old : lookup p m.index_by_path ≡ some i =
            ground (arith, lookup-insert file.path p (length m.merged) m.index_by_path) in
          let (g, at, same) = h.found p i old in
          (
            g,
            ground (arith, get_elem?-append_one m.merged file i, get_elem?-lt m.merged i at),
            same,
          )
    ];
    listed = λ i g q. ground (
      arith,
      get_elem?-append_one m.merged file i,
      h.listed i g,
      eq_iff file.path g.path,
      lookup-insert file.path g.path (length m.merged) m.index_by_path,
    );
  }

  fresh-absorb :
      lookup file.path m.index_by_path ≡ none → absorb m.merged file ≡ m.merged ++ file ∷ []
  fresh-absorb e =
      absorb-new m.merged file
        (λ i g q s. cc (h.listed i g q, ap (λ p. lookup p m.index_by_path) s, e))

  module _ (index : ℕ) (previous : GeneratedFileOperation)
      (e : lookup file.path m.index_by_path ≡ some index)
      (at : get_elem? m.merged index ≡ some previous) (same : previous.path ≡ file.path) where
    merged-absorb : absorb m.merged file ≡ set m.merged index (merge_operation previous file)
    merged-absorb = absorb-at m.merged file index previous at same λ j g q s.
        some-injective j index (cc (h.listed j g q, ap (λ p. lookup p m.index_by_path) s, e))

    merged-Indexed :
        Indexed (record m { merged = set m.merged index (merge_operation previous file) })
    merged-Indexed = record {
      found = λ p i q.
          let (g, at', same') = h.found p i q in
          elim (Bool-cases (eqb index i)) [
            | inl b ↦ (
              merge_operation previous file,
              ground (
                arith,
                get_elem?-set m.merged index i (merge_operation previous file),
                get_elem?-lt m.merged i at',
              ),
              ground (arith, path-merge_operation previous file),
            )
            | inr b ↦ (
              g,
              ground (arith, get_elem?-set m.merged index i (merge_operation previous file)),
              same',
            )
          ];
      listed = λ i g q. ground (
        arith,
        get_elem?-set m.merged index i (merge_operation previous file),
        h.listed i g,
        path-merge_operation previous file,
      );
    }

-- One round never panics, keeps the map in step with the list, and does what the reference does.
Round : Merging → GeneratedFileOperation → Type 0
Round m file =
    (m' : Merging) × (merge_file m file ≡ some m')
    × (m'.merged ≡ absorb m.merged (normalized file))
    × Indexed m'

merge_file-Round : (m : Merging) (file : GeneratedFileOperation) → Indexed m → Round m file
unfolding Round merge_file place merge_at
merge_file-Round m file h = go (lookup path m.index_by_path) refl
  where
    path : Bytes
    path = normalize_plan_path file.path

    ne : path ≢ []
    ne = normalize-ne-nil file.path

    non_empty : (p : Bytes) → p ≢ [] → is_empty p ≡ false
    non_empty [] n = absurd (n refl)
    non_empty (a ∷ p) n = refl

    go : (o : Option ℕ) → lookup path m.index_by_path ≡ o → Round m file
    go none e = (
      record {
        merged = m.merged ++ normalized file ∷ [];
        index_by_path = insert path (length m.merged) m.index_by_path;
      },
      rw (non_empty path ne, e),
      sym (fresh-absorb m (normalized file) h ne e),
      fresh-Indexed m (normalized file) h ne e,
    )
    go (some index) e =
        let (previous, at, same) = h.found path index e in
        (
          record m { merged = set m.merged index (merge_operation previous (normalized file)) },
          rw (non_empty path ne, e, at),
          sym (merged-absorb m (normalized file) h ne index previous e at same),
          merged-Indexed m (normalized file) h ne index previous e at same,
        )

merge_files-absorb_all :
    (m : Merging) (files : List GeneratedFileOperation)
    → Indexed m
    → (m' : Merging) × (merge_files m files ≡ some m') × (m'.merged ≡ absorb_all m.merged files)
unfolding merge_files absorb_all Round
merge_files-absorb_all m [] h = (m, refl, refl)
merge_files-absorb_all m (file ∷ files) h =
    let (m', e, same, h') = merge_file-Round m file h in
    let (m'', e', same') = merge_files-absorb_all m' files h' in (m'', rw e e', rw same at same')

nothing-Indexed : Indexed nothing_merged
nothing-Indexed = record { found = λ p i e. cc (lookup-nil {V = ℕ} p, e); listed = λ i g e. cc }

-- The merge never panics on an index out of range, and for every response it gives what a plain scan gives: each operation, its path normalised, is taken up by the first operation merged so far with the same path, or goes last.
pub normalize_generated_files-absorb_all :
    (files : List GeneratedFileOperation)
    → normalize_generated_files files ≡ some (absorb_all [] files)
unfolding normalize_generated_files
normalize_generated_files-absorb_all files =
    let (m, e, same) = merge_files-absorb_all nothing_merged files nothing-Indexed in
    rw e (ap some same)
