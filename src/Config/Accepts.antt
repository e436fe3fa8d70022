-- ===== src/Config/Accepts.antt =====
-- What holds of a configuration that `ParseAIConfig` accepts.
use capstone_project_git_fla.Prelude.{
  ℕ, ◌≤◌, Bool, true, false, ◌||◌, List, [], ◌∷◌, ◌≡◌, ◌↔◌, refl, sym, arith, Bytes, codes,
  contains_iff, Member, ℤ, pos, negsuc,
}
use mathlib.Core.Path.{subst}
use capstone_project_git_fla.Text.{is_blank, replace_byte}
use capstone_project_git_fla.Domain.{AiConfig}
use capstone_project_git_fla.Errors.{Result, ok, err, ◌>>=◌}
use capstone_project_git_fla.Config.{
  Yaml, null, scalar, sequence, mapping, general_mapping, Items, end, item, Entries, stop, entry,
  selects_model, contains_model_selection, any_item, any_entry, is_mapping, config_of, check_config,
  parse_document, read_document, parse_ai_config, parse_simple_yaml, strict_integer,
}

-- Keys that choose a model, in lower case with "_" for "-".
abbrev pub model_keys : List Bytes
model_keys = codes "model" ∷ codes "model_id" ∷ codes "agent_model" ∷ codes "llm_model" ∷ []

-- Every key that is reached from the root through lists and through mappings whose keys are all
-- strings has the property. The keys of any other mapping, and what stands below it, may be
-- anything.
mutual
  pub ReachedKeys : (Bytes → Type 0) → Yaml → Type 0
  ReachedKeys P null = Unit
  ReachedKeys P (scalar s) = Unit
  ReachedKeys P (sequence xs) = ReachedKeysItem P xs
  ReachedKeys P (mapping es) = ReachedKeysEntry P es
  ReachedKeys P (general_mapping s es) = Unit

  pub ReachedKeysItem : (Bytes → Type 0) → Items → Type 0
  ReachedKeysItem P end = Unit
  ReachedKeysItem P (item x xs) = ReachedKeys P x × ReachedKeysItem P xs

  pub ReachedKeysEntry : (Bytes → Type 0) → Entries → Type 0
  ReachedKeysEntry P stop = Unit
  ReachedKeysEntry P (entry k x es) = P k × ReachedKeys P x × ReachedKeysEntry P es

-- A disjunction fails exactly when both sides do, whatever the sides say.
or-false :
    (a b : Bool) {P Q : Type 0} → (a ≡ false) ↔ P → (b ≡ false) ↔ Q → ((a || b) ≡ false) ↔ (P × Q)
or-false true b (p, p') q = ((λ h. cc), (λ (x, y). p' x))
or-false false b (p, p') (q, q') = ((λ h. (p refl, q h)), (λ (x, y). q' y))

regroup : {A P Q R : Type 0} → A ↔ (P × (Q × R)) → A ↔ (P × Q × R)
regroup (to, from) = ((λ a. let (p, (q, r)) = to a in (p, q, r)), (λ (p, q, r). from (p, (q, r))))

module _ (to_lower : Bytes → Bytes) where
  -- The key, in lower case and with "_" for "-", does not choose a model.
  abbrev pub IsHarmless : Bytes → Type 0
  IsHarmless k = ¬ Member (replace_byte b'-' b'_' (to_lower k)) model_keys

  key_iff : (k : Bytes) → (selects_model to_lower k ≡ false) ↔ IsHarmless k
  key_iff k = ground (arith, contains_iff model_keys (replace_byte b'-' b'_' (to_lower k)))

  mutual
    unfolding contains_model_selection any_item any_entry ReachedKeys ReachedKeysItem
        ReachedKeysEntry

    IsHarmless-iff :
        (x : Yaml) → (contains_model_selection to_lower x ≡ false) ↔ ReachedKeys IsHarmless x
    IsHarmless-iff null = ((λ h. tt), (λ h. refl))
    IsHarmless-iff (scalar s) = ((λ h. tt), (λ h. refl))
    IsHarmless-iff (sequence xs) = IsHarmless-items_iff xs
    IsHarmless-iff (mapping es) = IsHarmless-entries_iff es
    IsHarmless-iff (general_mapping s es) = ((λ h. tt), (λ h. refl))

    IsHarmless-items_iff :
        (xs : Items) → (any_item to_lower xs ≡ false) ↔ ReachedKeysItem IsHarmless xs
    IsHarmless-items_iff end = ((λ h. tt), (λ h. refl))
    IsHarmless-items_iff (item x xs) =
        or-false (contains_model_selection to_lower x) (any_item to_lower xs) (IsHarmless-iff x)
          (IsHarmless-items_iff xs)

    IsHarmless-entries_iff :
        (es : Entries) → (any_entry to_lower es ≡ false) ↔ ReachedKeysEntry IsHarmless es
    IsHarmless-entries_iff stop = ((λ h. tt), (λ h. refl))
    IsHarmless-entries_iff (entry k x es) = regroup (
        or-false (selects_model to_lower k)
          (contains_model_selection to_lower x || any_entry to_lower es) (key_iff k)
          (or-false (contains_model_selection to_lower x) (any_entry to_lower es) (IsHarmless-iff x)
            (IsHarmless-entries_iff es)))

module _ (to_lower : Bytes → Bytes) (sprint : Yaml → Bytes) (unmarshal : Bytes → Result Yaml) where
  -- What an accepted configuration comes from and satisfies.
  pub record IsAcceptedFrom (source : Bytes) (document : Yaml) (cfg : AiConfig) : Type 0 where
    pub given : is_blank source ≡ false
    pub read : unmarshal source ≡ ok document
    pub is_a_mapping : is_mapping document ≡ true
    pub no_model : ReachedKeys (IsHarmless to_lower) document
    pub kept : cfg.raw ≡ source
    pub enabled : cfg.analysis_enabled ≡ true
    pub branch : is_blank cfg.default_branch ≡ false
    pub prefix : is_blank cfg.target_branch_prefix ≡ false
    pub retention : (days : ℕ) × (cfg.retention_days ≡ pos days) × (1 ≤ days) × (days ≤ 365)

  check_config_sound :
      (cfg : AiConfig) {accepted : AiConfig}
      → check_config cfg ≡ ok accepted
      → (accepted ≡ cfg)
        × (cfg.analysis_enabled ≡ true)
        × (is_blank cfg.default_branch ≡ false)
        × (is_blank cfg.target_branch_prefix ≡ false)
        × ((days : ℕ) × (cfg.retention_days ≡ pos days) × (1 ≤ days) × (days ≤ 365))
  unfolding check_config
  check_config_sound cfg h =
      (ground arith, ground arith, ground arith, ground arith, days cfg.retention_days refl)
    where
      days :
          (n : ℤ)
          → cfg.retention_days ≡ n
          → (d : ℕ) × (cfg.retention_days ≡ pos d) × (1 ≤ d) × (d ≤ 365)
      days (pos d) e = (d, e, ground arith, ground arith)
      days (negsuc d) e = absurd (ground arith)

  raw-config_of :
      (source : Bytes) (document : Yaml) (days : ℤ)
      → (config_of source (parse_simple_yaml sprint document) days).raw ≡ source
  unfolding config_of
  raw-config_of source document days = refl

  -- Whatever the YAML library and the parameters do, an accepted configuration is not blank, is a mapping whose keys are all strings, keeps its source text, has analysis enabled and both branch settings, and keeps recommendations for 1 to 365 days; no key reached from its root through lists and through mappings with only string keys chooses a model. Keys in a mapping that has another key, or below one, are not looked at.
  pub parse_ai_config-IsAcceptedFrom :
      (source : Bytes) {cfg : AiConfig}
      → parse_ai_config to_lower sprint unmarshal source ≡ ok cfg
      → (document : Yaml) × IsAcceptedFrom source document cfg
  unfolding parse_ai_config parse_document read_document
  parse_ai_config-IsAcceptedFrom source {cfg} h = go (unmarshal source) refl
    where
      finish :
          (document : Yaml) (days : Result ℤ)
          → unmarshal source ≡ ok document
          → is_mapping document ≡ true
          → contains_model_selection to_lower document ≡ false
          → is_blank source ≡ false
          → (days >>= λ n. check_config (config_of source (parse_simple_yaml sprint document) n))
            ≡ ok cfg
          → (document : Yaml) × IsAcceptedFrom source document cfg
      finish document (err x) e m n b k = cc
      finish document (ok days) e m n b k =
          let found = config_of source (parse_simple_yaml sprint document) days in
          let (same, enabled, branch, prefix, retention) = check_config_sound found k in
          (
            document,
            subst (IsAcceptedFrom source document) (sym same) (record {
              given = b;
              read = e;
              is_a_mapping = m;
              no_model = (IsHarmless-iff to_lower document).0 n;
              kept = raw-config_of source document days;
              enabled = enabled;
              branch = branch;
              prefix = prefix;
              retention = retention;
            }),
          )

      go :
          (r : Result Yaml)
          → unmarshal source ≡ r
          → (document : Yaml) × IsAcceptedFrom source document cfg
      go (err x) e = absurd (ground arith)
      go (ok document) e =
          finish document
            (strict_integer (parse_simple_yaml sprint document)
              (codes "storage.recommendation_ttl_days") (pos 30))
            e (ground arith) (ground arith) (ground arith) (ground arith)
