-- ===== src/Store/Cards/Unique.antt =====
-- The storage invariant of `NormalizeRecommendations` in `SaveRecommendations`, and `SaveRepositorySnapshot`.
use capstone_project_git_fla.Prelude.{
  ℕ, true, false, List, [], ◌∷◌, ◌≡◌, ◌⊎◌, inl, inr, refl, sym, Bytes, contains, not-contains,
  Bool-cases, arith, ◌≢◌, codes, length, eqb, is_empty, if◌then◌else◌, Member, Distinct, All,
  All-map, map,
}
use capstone_project_git_fla.Prelude.Map.{lookup-insert_self}
use capstone_project_git_fla.Text.{is_blank}
use capstone_project_git_fla.Domain.{RepositoryMetadata}
use capstone_project_git_fla.Domain.Accounts.{
  RecommendationCard, RepositorySnapshot, RepositorySnapshotFile,
}
use capstone_project_git_fla.Errors.{text, ok, err}
use capstone_project_git_fla.Store.{MemoryStore}
use capstone_project_git_fla.Store.Cards.{
  Codec, fingerprint_of, normalize_from, save_recommendations, recommendations, completed,
  save_snapshot, snapshot,
}

abbrev pub fingerprint : RecommendationCard → Bytes
fingerprint card = card.finding_fingerprint

Misses : List Bytes → RecommendationCard → Type 0
Misses seen card = ¬ Member card.finding_fingerprint seen

Misses-fingerprint :
    (k : Bytes) (seen : List Bytes) (cards : List RecommendationCard)
    → All (Misses (k ∷ seen)) cards
    → ¬ Member k (map fingerprint cards)
unfolding Misses
Misses-fingerprint k seen [] h m = m
Misses-fingerprint k seen (card ∷ cards) h (inl e) = h.0 (inl (sym e))
Misses-fingerprint k seen (card ∷ cards) h (inr m) = Misses-fingerprint k seen cards h.1 m

module _ (codec : Codec) where
  normalize_from-Distinct :
      (seen : List Bytes) (cards : List RecommendationCard)
      → Distinct (map fingerprint (normalize_from codec seen cards))
        × All (Misses seen) (normalize_from codec seen cards)
  unfolding normalize_from Misses
  normalize_from-Distinct seen [] = (tt, tt)
  normalize_from-Distinct seen (card ∷ cards) =
      let k = fingerprint_of codec card in
      let rest = normalize_from codec (k ∷ seen) cards in
      let (distinct, misses) = normalize_from-Distinct (k ∷ seen) cards in
      elim (Bool-cases (contains seen k)) [
        | inl b ↦ rw b (normalize_from-Distinct seen cards)
        | inr b ↦ rw b (
          (Misses-fingerprint k seen rest misses, distinct),
          (
            not-contains seen k b,
            All-map (Misses (k ∷ seen)) (Misses seen) (λ c n m. n (inr m)) rest misses,
          ),
        )
      ]

  -- No two cards of a stored report have the same fingerprint, and a report that was saved is the one that is read for its repository.
  pub save_recommendations-Distinct :
      (repository : RepositoryMetadata) (summary : Bytes) (cards : List RecommendationCard)
      (s : MemoryStore)
      → let (report, s') = save_recommendations codec repository summary cards s in
        Distinct (map fingerprint report.recommendations)
        × (recommendations repository.id s' ≡ ok report)
  unfolding save_recommendations recommendations
  save_recommendations-Distinct repository summary cards s =
      ((normalize_from-Distinct [] cards).0, rw (lookup-insert_self) refl)

-- An empty text stands for the value that is put in its place, and any other text stays.
abbrev pub IsFilled : Bytes → Bytes → Bytes → Type 0
IsFilled given fill value = ((given ≡ []) × (value ≡ fill)) ⊎ ((given ≢ []) × (value ≡ given))

-- Likewise for the number 0.
abbrev pub IsCounted : ℕ → ℕ → ℕ → Type 0
IsCounted given fill value = ((given ≡ 0) × (value ≡ fill)) ⊎ ((given ≢ 0) × (value ≡ given))

-- The snapshot `saved` is `v` in every field, but for what `v` leaves open.
abbrev pub IsCompleted :
    ℕ → Bytes → RepositorySnapshot → List RepositorySnapshotFile → RepositorySnapshot → Type 0
IsCompleted now fresh v files saved =
    IsFilled v.id fresh saved.id
    × IsFilled v.status (codes "fetched") saved.status
    × IsCounted v.fetched_at now saved.fetched_at
    × IsCounted v.file_count (length files) saved.file_count
    × (saved ≡ record v {
      id = saved.id;
      status = saved.status;
      fetched_at = saved.fetched_at;
      file_count = saved.file_count;
    })

fill-IsFilled : (given fill : Bytes) → IsFilled given fill (if is_empty given then fill else given)
fill-IsFilled [] fill = inl (refl, refl)
fill-IsFilled (c ∷ given) fill = inr ((λ e. cc e), refl)

count-IsCounted : (given fill : ℕ) → IsCounted given fill (if eqb given 0 then fill else given)
count-IsCounted given fill = elim (Bool-cases (eqb given 0)) [
  | inl b ↦ inl (ground arith, rw b refl)
  | inr b ↦ inr (ground arith, rw b refl)
]

completed-IsCompleted :
    (now : ℕ) (fresh : Bytes) (v : RepositorySnapshot) (files : List RepositorySnapshotFile)
    → IsCompleted now fresh v files (completed now fresh v files)
unfolding completed
completed-IsCompleted now fresh v files = (
  fill-IsFilled v.id fresh,
  fill-IsFilled v.status (codes "fetched"),
  count-IsCounted v.fetched_at now,
  count-IsCounted v.file_count (length files),
  refl,
)

-- A snapshot whose repository is named is saved as it is given, but that an empty id becomes the fresh one, an empty status "fetched", a missing time the present one and a file count of 0 the number of files; under its id it reads back as it was saved, with the same files. A snapshot whose repository is not named is refused, and nothing is stored.
pub save_snapshot-snapshot :
    (now : ℕ) (fresh : Bytes) (v : RepositorySnapshot) (files : List RepositorySnapshotFile)
    (s : MemoryStore)
    → let (r, s') = save_snapshot now fresh v files s in
      ((is_blank v.repository_id ≡ false)
        × ((saved : RepositorySnapshot) × (r ≡ ok saved)
            × IsCompleted now fresh v files saved
            × (snapshot saved.id s' ≡ ok (saved, files))))
      ⊎ ((is_blank v.repository_id ≡ true)
          × (r ≡ err (text "repository snapshot requires repository id"))
          × (s' ≡ s))
unfolding save_snapshot snapshot
save_snapshot-snapshot now fresh v files s = elim (Bool-cases (is_blank v.repository_id)) [
  | inl b ↦ inr (b, rw b refl, rw b refl)
  | inr b ↦ inl (
    b,
    (
      completed now fresh v files,
      rw (save_snapshot, b) refl,
      completed-IsCompleted now fresh v files,
      rw (save_snapshot, b, snapshot, lookup-insert_self, save_snapshot, b, lookup-insert_self)
          refl,
    ),
  )
]
