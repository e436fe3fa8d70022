-- ===== src/Config/Samples.antt =====
-- A configuration that is accepted.
use capstone_project_git_fla.Prelude.{false, [], ◌≡◌, refl, Bytes, codes, ◌==◌, pos, contains}
use capstone_project_git_fla.Prelude.Map.{lookup, insert}
use capstone_project_git_fla.Text.{trim_space, replace_byte}
use capstone_project_git_fla.Domain.{AiConfig}
use capstone_project_git_fla.Errors.{Result, ok}
use capstone_project_git_fla.Decimal.{atoi, natural}
use capstone_project_git_fla.Config.{
  Yaml, scalar, mapping, general_mapping, entry, stop, parse_simple_yaml, strict_integer, config_of,
  check_config, contains_model_selection, parse_ai_config,
}
use capstone_project_git_fla.Config.Accepts.{IsAcceptedFrom, parse_ai_config-IsAcceptedFrom}

abbrev same : Bytes → Bytes
same s = s

abbrev printed : Yaml → Bytes
printed y = []

-- storage:
--   recommendation_ttl_days: 90
abbrev document : Yaml
document = mapping (
    entry (codes "storage")
      (mapping (entry (codes "recommendation_ttl_days") (scalar (codes "90")) stop)) stop)

abbrev read : Bytes → Result Yaml
read s = ok document

abbrev source : Bytes
source = codes "storage: {recommendation_ttl_days: 90}"

abbrev cfg : AiConfig
cfg = config_of source (parse_simple_yaml printed document) (pos 90)

accepted_config : parse_ai_config same printed read source ≡ ok cfg
unfolding parse_ai_config contains_model_selection strict_integer check_config config_of
    parse_simple_yaml lookup insert trim_space replace_byte atoi natural ◌==◌ contains
accepted_config = refl

parse_ai_config-IsAcceptedFrom_example : (d : Yaml) × IsAcceptedFrom same printed read source d cfg
parse_ai_config-IsAcceptedFrom_example =
    parse_ai_config-IsAcceptedFrom same printed read source accepted_config

-- llm: {1: x, model: gpt}
abbrev hidden_document : Yaml
hidden_document = mapping (
    entry (codes "llm")
      (general_mapping (codes "map[1:x model:gpt]") (
        entry (codes "1") (scalar (codes "x")) (entry (codes "model") (scalar (codes "gpt")) stop)))
      stop)

-- The key "model" is not found there.
hidden_model : contains_model_selection same hidden_document ≡ false
unfolding contains_model_selection replace_byte contains ◌==◌
hidden_model = refl
