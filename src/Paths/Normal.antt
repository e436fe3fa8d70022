-- ===== src/Paths/Normal.antt =====
-- `normalizePlanPath` gives a normal form.

use capstone_project_git_fla.Prelude.{Bytes, ◌≡◌, ap, ◌∙◌}
use capstone_project_git_fla.Text.Laws.{replace_byte-of_Lacks}
use capstone_project_git_fla.Paths.{normalize_plan_path}
use capstone_project_git_fla.Paths.Clean.{clean}
use capstone_project_git_fla.Paths.Clean.Idempotent.{clean-clean, clean-Lacks}
use capstone_project_git_fla.Paths.Safety.{slashed, replace_byte-Lacks, normalize-clean}

-- Normalising a normalised path changes nothing, for every path.
pub normalize-normalize :
    (value : Bytes) → normalize_plan_path (normalize_plan_path value) ≡ normalize_plan_path value
normalize-normalize value =
    let lacks = replace_byte-Lacks value in
    rw (normalize-clean value) (
      normalize-clean (clean (slashed value))
      ∙ (ap clean (
            replace_byte-of_Lacks b'\\' b'/' (clean (slashed value))
              (clean-Lacks (slashed value) lacks))
          ∙ clean-clean (slashed value) lacks))
