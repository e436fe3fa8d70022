-- ===== src/Metrics/Samples.antt =====
-- Metrics with natural numbers for values, and the theorems on metrics there.

use capstone_project_git_fla.Prelude.{
  ℕ, ◌+◌, false, some, List, [], ◌∷◌, ◌++◌, ◌≡◌, Bytes, codes, leb,
}
use capstone_project_git_fla.Metrics.{Floats, HistogramVec, escape_label_value}
use capstone_project_git_fla.Metrics.Labels.{read_label, read_label-escape_label_value}

abbrev naturals : Floats ℕ
naturals = record {
  zero_value = 0;
  one = 1;
  plus = λ a b. a + b;
  leq = leb;
  is_nan = λ a. false;
  format_value = λ a. [];
}

abbrev durations : HistogramVec naturals
durations = record {
  metadata = record { metric_name = codes "seconds"; help = []; label_names = codes "type" ∷ [] };
  buckets = 1 ∷ 5 ∷ 10 ∷ [];
  series = [];
}

abbrev two_observations : List (ℕ × List Bytes)
two_observations = (3, codes "plan" ∷ []) ∷ (7, codes "plan" ∷ []) ∷ []

read_label-escape_label_value_example :
    read_label (escape_label_value (codes "a\"b\n") ++ b'"' ∷ codes "}")
    ≡ some (codes "a\"b\n", codes "}")
read_label-escape_label_value_example = read_label-escape_label_value (codes "a\"b\n") (codes "}")
