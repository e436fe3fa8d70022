-- ===== src/Metrics/Cumulative.antt =====
-- The series of a histogram after any observations, told from the observations alone.
use capstone_project_git_fla.Prelude.{
  Option, none, some, List, [], ◌∷◌, ◌≡◌, ◌≢◌, ◌⊎◌, Bytes, ◌==◌, if◌then◌else◌,
}
use capstone_project_git_fla.Prelude.Map.{lookup}
use capstone_project_git_fla.Metrics.{Floats, HistogramSeries, HistogramVec, observe, series_key}
use capstone_project_git_fla.Metrics.Counts.{IsCumulative, IsSummary}

module _ {F : Type 0} (floats : Floats F) where
  -- The values observed with the labels of the series, but for NaN.
  abbrev pub values_for : Bytes → List (F × List Bytes) → List F
  values_for key [] = []
  values_for key ((value, labels) ∷ observations) =
      if floats.is_nan value
      then values_for key observations
      else if series_key labels == key
      then value ∷ values_for key observations
      else values_for key observations

  -- There is no series as long as there are no values, and one that sums them up from then on.
  abbrev pub IsSummed : List F → List F → Option (HistogramSeries floats) → Type 0
  IsSummed buckets values found =
      ((values ≡ []) × (found ≡ none))
      ⊎ ((values ≢ [])
          × ((s : HistogramSeries floats) × (found ≡ some s) × IsSummary floats buckets values s))

  -- one observation after another, each a value and its labels
  abbrev pub observe_all : List (F × List Bytes) → HistogramVec floats → HistogramVec floats
  observe_all [] h = h
  observe_all ((value, labels) ∷ observations) h =
      observe_all observations (observe floats value labels h)

  -- The histogram's series of the key sums up the values.
  abbrev pub Tells : Bytes → List F → HistogramVec floats → List F → Type 0
  Tells key buckets h values = (h.buckets ≡ buckets) × IsSummed buckets values (lookup key h.series)

  -- There is no series as long as there are no values; from then on there is one that sums them up, and its counts are cumulative.
  abbrev pub IsReported : List F → List F → Option (HistogramSeries floats) → Type 0
  IsReported buckets values found =
      ((values ≡ []) × (found ≡ none))
      ⊎ ((values ≢ [])
          × ((s : HistogramSeries floats) × (found ≡ some s)
              × IsSummary floats buckets values s
              × IsCumulative s.counts s.count))
