-- ===== src/Store/Cards.antt =====
-- Recommendation reports, stored configurations and repository snapshots
-- (backend/internal/repository/memory.go), and `NormalizeRecommendations`
-- (backend/internal/repository/recommendations.go). A child module states what a report keeps.
pub mod Unique
use capstone_project_git_fla.Prelude.{
  ℕ, ℤ, Bool, true, false, not, ◌&&◌, ◌||◌, Option, none, some, List, [], ◌∷◌, ◌++◌, Bytes, codes,
  is_empty, leb, eqb, length, ◌==◌, contains, if◌then◌else◌,
}
use capstone_project_git_fla.Prelude.Map.{Map, lookup, insert}
use capstone_project_git_fla.Text.{trim_space, is_blank, trim_prefix, replace_byte, join}
use capstone_project_git_fla.Domain.{AiConfig, RepositoryMetadata}
use capstone_project_git_fla.Domain.Accounts.{
  RecommendationCard, RecommendationReport, RepositorySnapshot, RepositorySnapshotFile,
}
use capstone_project_git_fla.Errors.{Err, text, not_found, Result, ok, err}
use capstone_project_git_fla.Store.{MemoryStore, found}

is_hex_digit : ℕ → Bool
is_hex_digit c =
    (leb b'0' c && leb c b'9') || (leb b'a' c && leb c b'f') || (leb b'A' c && leb c b'F')

all_hex : Bytes → Bool
unfolding is_hex_digit
all_hex [] = true
all_hex (c ∷ s) = is_hex_digit c && all_hex s

-- the encoding of a SHA-256 sum: 64 hexadecimal digits
unfoldable pub valid_fingerprint : Bytes → Bool
unfolding all_hex
valid_fingerprint s = eqb (length s) 64 && all_hex s

-- Go's `strings.ToLower` and `strings.Fields`, `strconv.Itoa`, and the hexadecimal SHA-256 sum.
pub record Codec : Type 0 where
  pub to_lower : Bytes → Bytes
  pub fields : Bytes → List Bytes
  pub itoa : ℤ → Bytes
  pub sum256 : Bytes → Bytes

module _ (codec : Codec) where
  normalize_text : Bytes → Bytes
  normalize_text s = codec.to_lower (join b' ' (codec.fields s))

  line_text : Option ℤ → Bytes
  line_text none = []
  line_text (some line) = codec.itoa line

  unfoldable pub content_fingerprint : RecommendationCard → Bytes
  unfolding normalize_text line_text
  content_fingerprint card = codec.sum256 (
      join 0x1f (
        normalize_text card.category
        ∷ trim_prefix (replace_byte b'\\' b'/' (trim_space card.file)) (codes "./")
        ∷ line_text card.line
        ∷ normalize_text card.problem
        ∷ normalize_text card.suggestion
        ∷ []))

  unfoldable pub fingerprint_of : RecommendationCard → Bytes
  fingerprint_of card =
      let given = codec.to_lower (trim_space card.finding_fingerprint) in
      if valid_fingerprint given then given else content_fingerprint card

  -- `seen` is the map of the loop
  unfoldable pub normalize_from : List Bytes → List RecommendationCard → List RecommendationCard
  normalize_from seen [] = []
  normalize_from seen (card ∷ cards) =
      let fingerprint = fingerprint_of card in
      let skipped = normalize_from seen cards in
      let kept =
        record card { finding_fingerprint = fingerprint }
        ∷ normalize_from (fingerprint ∷ seen) cards in
      if contains seen fingerprint then skipped else kept

  abbrev pub normalize_recommendations : List RecommendationCard → List RecommendationCard
  normalize_recommendations = normalize_from []

  unfoldable pub save_recommendations :
      RepositoryMetadata
      → Bytes
      → List RecommendationCard
      → MemoryStore
      → RecommendationReport × MemoryStore
  save_recommendations repository summary cards s =
      let saved : RecommendationReport = record {
        repository_id = repository.id;
        summary = summary;
        status = codes "ready";
        recommendations = normalize_recommendations cards;
      } in
      (saved, record s { reports = insert repository.id saved s.reports })

unfoldable pub recommendations : Bytes → MemoryStore → Result RecommendationReport
recommendations id s = found (lookup id s.reports)

-- the inner loop of `CloseRecommendation`: the card, and the cards with it closed
close_card : Bytes → List RecommendationCard → Option (RecommendationCard × List RecommendationCard)
close_card id [] = none
close_card id (c ∷ cs) =
    let rest = close_card id cs in
    if c.id == id
    then (let closed = record c { state = codes "closed" } in some (closed, closed ∷ cs))
    else elim rest [ none ↦ none | some (card, cards) ↦ some (card, c ∷ cards) ]

close_in : Bytes → Map RecommendationReport → Option (RecommendationCard × Map RecommendationReport)
unfolding close_card
close_in id [] = none
close_in id ((k, r) ∷ m) =
    let rest = close_in id m in
    elim (close_card id r.recommendations) [
      | some (card, cards) ↦ some (card, (k, record r { recommendations = cards }) ∷ m)
      | none ↦ elim rest [ none ↦ none | some (card, reports) ↦ some (card, (k, r) ∷ reports) ]
    ]

unfoldable pub close_recommendation : Bytes → MemoryStore → Result RecommendationCard × MemoryStore
unfolding close_in
close_recommendation id s = elim (close_in id s.reports) [
  | none ↦ (err not_found, s)
  | some (card, reports) ↦ (ok card, record s { reports = reports })
]

delete_card : Bytes → List RecommendationCard → Option (List RecommendationCard)
delete_card id [] = none
delete_card id (c ∷ cs) =
    let rest = delete_card id cs in
    if c.id == id then some cs else elim rest [ none ↦ none | some cards ↦ some (c ∷ cards) ]

delete_in : Bytes → Map RecommendationReport → Option (Map RecommendationReport)
unfolding delete_card
delete_in id [] = none
delete_in id ((k, r) ∷ m) =
    let rest = delete_in id m in
    elim (delete_card id r.recommendations) [
      | some cards ↦ some ((k, record r { recommendations = cards }) ∷ m)
      | none ↦ elim rest [ none ↦ none | some reports ↦ some ((k, r) ∷ reports) ]
    ]

unfoldable pub delete_recommendation : Bytes → MemoryStore → Result (Unit {0}) × MemoryStore
unfolding delete_in
delete_recommendation id s = elim (delete_in id s.reports) [
  | none ↦ (err not_found, s)
  | some reports ↦ (ok tt, record s { reports = reports })
]

unfoldable pub save_ai_config :
    RepositoryMetadata → AiConfig → MemoryStore → Result (Unit {0}) × MemoryStore
save_ai_config repository cfg s =
    if is_blank repository.id
    then (err (text "repository id is required"), s)
    else (ok tt, record s { configs = insert repository.id cfg s.configs })

unfoldable pub latest_ai_config : Bytes → MemoryStore → Result AiConfig
latest_ai_config repository_id s = found (lookup repository_id s.configs)

-- The fields that are filled in; the time 0 stands for Go's zero time.
unfoldable pub completed :
    ℕ → Bytes → RepositorySnapshot → List RepositorySnapshotFile → RepositorySnapshot
completed now fresh v files = record v {
  id = if is_empty v.id then fresh else v.id;
  status = if is_empty v.status then codes "fetched" else v.status;
  fetched_at = if eqb v.fetched_at 0 then now else v.fetched_at;
  file_count = if eqb v.file_count 0 then length files else v.file_count;
}

unfoldable pub save_snapshot :
    ℕ
    → Bytes
    → RepositorySnapshot
    → List RepositorySnapshotFile
    → MemoryStore
    → Result RepositorySnapshot × MemoryStore
unfolding completed
save_snapshot now fresh v files s =
    let saved = completed now fresh v files in
    if is_blank v.repository_id
    then (err (text "repository snapshot requires repository id"), s)
    else (
      ok saved,
      record s {
        snapshots = insert saved.id saved s.snapshots;
        snapshot_files = insert saved.id files s.snapshot_files;
      },
    )

-- a missing list of files is an empty one
abbrev files_of : Option (List RepositorySnapshotFile) → List RepositorySnapshotFile
files_of none = []
files_of (some files) = files

unfoldable pub snapshot :
    Bytes → MemoryStore → Result (RepositorySnapshot × List RepositorySnapshotFile)
snapshot id s = elim (lookup id s.snapshots) [
  | none ↦ err not_found
  | some v ↦ ok (v, files_of (lookup id s.snapshot_files))
]
