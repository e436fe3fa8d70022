-- ===== src/Paths.antt =====
-- Repository paths: `normalizePlanPath` and `safePlanPath`
-- (backend/internal/service/plan_validation.go), with what they use of Go's `path.Clean`.
pub mod Clean
pub mod Safety
pub mod Normal
mod Samples
use capstone_project_git_fla.Prelude.{Bool, not, ◌&&◌, [], ◌∷◌, Bytes, codes, ◌==◌, is_empty}
use capstone_project_git_fla.Text.{has_prefix, trim_prefix, replace_byte}
use Clean.{clean}

abbrev pub slash : Bytes
slash = codes "/"

abbrev pub dot_git : Bytes
dot_git = codes ".git"

unfoldable pub normalize_plan_path : Bytes → Bytes
normalize_plan_path value = trim_prefix (clean (replace_byte b'\\' b'/' value)) (codes "./")

unfoldable pub safe_plan_path : Bytes → Bool
safe_plan_path value =
    not (is_empty value)
    && not (value == codes ".")
    && not (has_prefix value slash)
    && not (value == codes "..")
    && not (has_prefix value (codes "../"))
    && not (value == dot_git)
    && not (has_prefix value (codes ".git/"))
