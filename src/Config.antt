-- ===== src/Config.antt =====
-- The project configuration (backend/internal/service/config.go). The YAML library is the
-- parameter `unmarshal`; `strings.ToLower` is the parameter `to_lower`.
pub mod Accepts
pub mod Samples
use capstone_project_git_fla.Prelude.{
  ℕ, Bool, true, false, not, ◌&&◌, ◌||◌, Option, none, some, List, [], ◌∷◌, ◌++◌, Bytes, codes,
  ◌==◌, is_empty, eqb, leb, if◌then◌else◌, contains, ℤ, pos, leb_ℤ, ◌+◌,
}
use capstone_project_git_fla.Prelude.Map.{Map, lookup, insert}
use capstone_project_git_fla.Text.{is_blank, replace_byte}
use capstone_project_git_fla.Decimal.{atoi}
use capstone_project_git_fla.Domain.{AiConfig}
use capstone_project_git_fla.Errors.{Err, text, about, wrapped, Result, ok, err, guard, ◌>>=◌, ◌>>◌}

-- What `yaml.Unmarshal` gives. A `mapping` is a `map[string]any`, which a mapping of the document
-- becomes when all its keys are strings, and a `general_mapping` is the `map[any]any` that any other
-- mapping becomes, by its `fmt.Sprint` and its entries, each key by its `fmt.Sprint`. A `scalar` is
-- any value that is not null, a map or a `[]any`, by its `fmt.Sprint`.
mutual
  pub data Yaml : Type 0 where
    null : Yaml
    scalar : Bytes → Yaml
    sequence : Items → Yaml
    mapping : Entries → Yaml
    general_mapping : Bytes → Entries → Yaml

  pub data Items : Type 0 where
    end : Items
    item : Yaml → Items → Items

  -- in the order in which `range` gives them
  pub data Entries : Type 0 where
    stop : Entries
    entry : Bytes → Yaml → Entries → Entries

pub record YamlDoc : Type 0 where
  pub scalars : Map Bytes
  pub lists : Map (List Bytes)

-- the key in lower case, with "_" for "-"
abbrev pub selects_model : (Bytes → Bytes) → Bytes → Bool
selects_model to_lower key =
    contains (codes "model" ∷ codes "model_id" ∷ codes "agent_model" ∷ codes "llm_model" ∷ [])
      (replace_byte b'-' b'_' (to_lower key))

module _ (to_lower : Bytes → Bytes) where
  unfoldable mutual
    pub contains_model_selection : Yaml → Bool
    contains_model_selection null = false
    contains_model_selection (scalar s) = false
    contains_model_selection (sequence xs) = any_item xs
    contains_model_selection (mapping es) = any_entry es
    contains_model_selection (general_mapping s es) = false

    pub any_item : Items → Bool
    any_item end = false
    any_item (item x xs) = contains_model_selection x || any_item xs

    pub any_entry : Entries → Bool
    any_entry stop = false
    any_entry (entry key x es) =
        selects_model to_lower key || (contains_model_selection x || any_entry es)

-- `sprint` is `fmt.Sprint` of an element that is a list or a `map[string]any`.
module _ (sprint : Yaml → Bytes) where
  sprint_item : Yaml → Bytes
  sprint_item (scalar s) = s
  sprint_item (general_mapping s es) = s
  sprint_item null = codes "<nil>"
  sprint_item x = sprint x

  sprint_items : Items → List Bytes
  unfolding sprint_item
  sprint_items end = []
  sprint_items (item x xs) = sprint_item x ∷ sprint_items xs

  abbrev path_of : Bytes → Bytes → Bytes
  path_of prefix key = if is_empty prefix then key else prefix ++ codes "." ++ key

  mutual
    flatten_yaml : Bytes → Yaml → YamlDoc → YamlDoc
    flatten_yaml prefix null d = d
    flatten_yaml prefix (scalar s) d = record d { scalars = insert prefix s d.scalars }
    flatten_yaml prefix (sequence xs) d = record d {
      lists = insert prefix (sprint_items xs) d.lists;
    }
    flatten_yaml prefix (mapping es) d = flatten_entries prefix es d
    flatten_yaml prefix (general_mapping s es) d = record d { scalars = insert prefix s d.scalars }

    flatten_entries : Bytes → Entries → YamlDoc → YamlDoc
    flatten_entries prefix stop d = d
    flatten_entries prefix (entry key x es) d =
        flatten_entries prefix es (flatten_yaml (path_of prefix key) x d)

abbrev or_default {ℓ} : {A : Type ℓ} → Option A → A → A
or_default none a = a
or_default (some b) a = b

scalar_or : Bytes → Option Bytes → Bytes
scalar_or f none = f
scalar_or f (some v) = if is_empty v then f else v

-- `scalar` of config.go
get_scalar : YamlDoc → Bytes → Bytes → Bytes
unfolding scalar_or
get_scalar d k f = scalar_or f (lookup k d.scalars)

-- strings.EqualFold(v, "true"): no character outside ASCII folds to one of its letters
fold_byte : ℕ → ℕ
fold_byte c = if leb b'A' c && leb c b'Z' then c + 32 else c

equal_fold : Bytes → Bytes → Bool
unfolding fold_byte
equal_fold [] [] = true
equal_fold [] (d ∷ t) = false
equal_fold (c ∷ s) [] = false
equal_fold (c ∷ s) (d ∷ t) = eqb (fold_byte c) d && equal_fold s t

boolean : YamlDoc → Bytes → Bool → Bool
unfolding equal_fold
boolean d k f = elim (lookup k d.scalars) [ none ↦ f | some v ↦ equal_fold v (codes "true") ]

get_list : YamlDoc → Bytes → List Bytes → List Bytes
get_list d k f = or_default (lookup k d.lists) f

at_least_one : ℤ → Option ℤ → ℤ
at_least_one fallback none = fallback
at_least_one fallback (some n) = if leb_ℤ (pos 1) n then n else fallback

integer : YamlDoc → Bytes → ℤ → ℤ
unfolding at_least_one
integer d key fallback = elim (lookup key d.scalars) [
  | none ↦ fallback
  | some v ↦ at_least_one fallback (atoi v)
]

unfoldable pub strict_integer : YamlDoc → Bytes → ℤ → Result ℤ
strict_integer d key fallback = elim (lookup key d.scalars) [
  | none ↦ ok fallback
  | some v ↦ elim (atoi v) [ none ↦ err (about "" key " must be an integer") | some n ↦ ok n ]
]

abbrev pub is_mapping : Yaml → Bool
is_mapping (mapping es) = true
is_mapping _ = false

empty_doc : YamlDoc
empty_doc = record { scalars = []; lists = [] }

-- parseSimpleYAML, whose `map[string]any` holds an entry for each key of the mapping
unfoldable pub parse_simple_yaml : (Yaml → Bytes) → Yaml → YamlDoc
unfolding flatten_yaml sprint_items empty_doc
parse_simple_yaml sprint (mapping es) = flatten_entries sprint [] es empty_doc
parse_simple_yaml sprint _ = empty_doc

-- the record of the values found, each with its default
unfoldable pub config_of : Bytes → YamlDoc → ℤ → AiConfig
unfolding get_scalar boolean get_list integer
config_of raw doc retention_days = record {
  raw = raw;
  version = get_scalar doc (codes "version") (codes "1");
  default_branch = get_scalar doc (codes "repository.default_branch") (codes "main");
  target_branch_prefix = get_scalar doc (codes "repository.target_branch_prefix") (codes "ai-");
  analysis_enabled = boolean doc (codes "analysis.enabled") true;
  require_approval = boolean doc (codes "code_generation.require_user_approval") true;
  recommendations_enabled = boolean doc (codes "recommendations.enabled") true;
  include_patterns = get_list doc (codes "analysis.include") (codes "**/*" ∷ []);
  exclude_patterns =
      get_list doc (codes "analysis.exclude")
        (codes ".git/**" ∷ codes "node_modules/**" ∷ codes "dist/**" ∷ codes "build/**" ∷ []);
  recommendation_categories = get_list doc (codes "recommendations.categories") [];
  max_files = integer doc (codes "analysis.max_files") (pos 20);
  max_snippets_per_file = integer doc (codes "analysis.max_snippets_per_file") (pos 3);
  retention_days = retention_days;
  reviewer_policy = get_scalar doc (codes "code_generation.reviewer_policy") (codes "issue_author");
  approve_command =
      get_scalar doc (codes "code_generation.allowed_actions.approve_command") (codes "/approve");
  correct_command =
      get_scalar doc (codes "code_generation.allowed_actions.correct_command") (codes "/correct");
  reject_command =
      get_scalar doc (codes "code_generation.allowed_actions.reject_command") (codes "/reject");
}

-- the three checks at the end
unfoldable pub check_config : AiConfig → Result AiConfig
check_config cfg = do
  guard cfg.analysis_enabled (text "repository analysis is disabled in .yml configuration")
  guard (not (is_blank cfg.default_branch || is_blank cfg.target_branch_prefix))
      (text "repository branch configuration is required")
  guard (leb_ℤ (pos 1) cfg.retention_days && leb_ℤ cfg.retention_days (pos 365))
      (text "storage.recommendation_ttl_days must be between 1 and 365")
  ok cfg

module _ (to_lower : Bytes → Bytes) (sprint : Yaml → Bytes) (unmarshal : Bytes → Result Yaml) where
  parse_document : Bytes → Yaml → Result AiConfig
  parse_document raw document = do
    guard (is_mapping document) (text "YAML configuration must contain a mapping")
    guard (not (contains_model_selection to_lower document))
        (text "model selection is operator-controlled")
    let doc = parse_simple_yaml sprint document
    retention_days ← strict_integer doc (codes "storage.recommendation_ttl_days") (pos 30)
    check_config (config_of raw doc retention_days)

  -- `fmt.Errorf("invalid YAML configuration: %w", err)`
  read_document : Bytes → Result Yaml
  read_document raw = elim (unmarshal raw) [
    | ok document ↦ ok document
    | err e ↦ err (wrapped "invalid YAML configuration: " e)
  ]

  unfoldable pub parse_ai_config : Bytes → Result AiConfig
  unfolding parse_document read_document
  parse_ai_config raw = do
    guard (not (is_blank raw)) (text "missing .yml configuration")
    document ← read_document raw
    parse_document raw document
