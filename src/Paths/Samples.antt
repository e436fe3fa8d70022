-- ===== src/Paths/Samples.antt =====
-- Tests of the path functions, and the theorems at concrete paths.
use capstone_project_git_fla.Prelude.{◌↔◌, true, false, Bytes, codes, ◌≡◌, refl, ◌==◌}
use capstone_project_git_fla.Text.{has_prefix, trim_prefix, replace_byte, split, join, trim_space}
use capstone_project_git_fla.Paths.{normalize_plan_path, safe_plan_path}
use capstone_project_git_fla.Paths.Clean.{clean}
use capstone_project_git_fla.Paths.Safety.{StaysInside, safe_plan_path_iff}

clean_inner : clean (codes "a//./b/../c/") ≡ codes "a/c"
unfolding clean split join ◌==◌
clean_inner = refl

clean_root : clean (codes "/../a") ≡ codes "/a"
unfolding clean split join ◌==◌
clean_root = refl

clean_ups : clean (codes "../a/../../b") ≡ codes "../../b"
unfolding clean split join ◌==◌
clean_ups = refl

clean_nothing : clean (codes "a/..") ≡ codes "."
unfolding clean split join ◌==◌
clean_nothing = refl

trim_both : trim_space (codes " \t a b \n") ≡ codes "a b"
unfolding trim_space
trim_both = refl

hides_git : safe_plan_path (normalize_plan_path (codes "x\\..\\.git\\config")) ≡ false
unfolding normalize_plan_path safe_plan_path clean split join ◌==◌ has_prefix trim_prefix
    replace_byte
hides_git = refl

abbrev hidden_path : Bytes
hidden_path = codes "x\\..\\.git\\config"

safe_plan_path_iff_example :
    (safe_plan_path (normalize_plan_path hidden_path) ≡ true)
    ↔ StaysInside (split b'/' (normalize_plan_path hidden_path))
safe_plan_path_iff_example = safe_plan_path_iff hidden_path
