-- ===== src/Metrics.antt =====
-- The metrics (backend/internal/observability/metrics.go). A float64 and its operations are
-- parameters; a Go map is an association list, and each method, which holds its lock, is one step.
pub mod Counts
pub mod Cumulative
pub mod Labels
mod Samples
use capstone_project_git_fla.Prelude.{
  ℕ, suc, ◌+◌, ◌%◌, ◌^◌, Bool, true, false, ◌&&◌, ◌||◌, Option, none, some, List, [], ◌∷◌, ◌++◌,
  map, replicate, Bytes, codes, ◌==◌, is_empty, eqb, ltb, length, if◌then◌else◌,
}
use capstone_project_git_fla.Prelude.Map.{Map, lookup, insert}
use capstone_project_git_fla.Text.{split, join}
use capstone_project_git_fla.Decimal.Format.{format}
use capstone_project_git_fla.Errors.{Err, about, Result, ok, err}

pub record Floats (F : Type 0) : Type 0 where
  pub zero_value : F
  pub one : F
  pub plus : F → F → F
  pub leq : F → F → Bool
  pub is_nan : F → Bool
  -- `strconv.FormatFloat(value, 'g', -1, 64)`, and the texts of the infinities
  pub format_value : F → Bytes

pub record Metadata : Type 0 where
  pub metric_name : Bytes
  pub help : Bytes
  pub label_names : List Bytes

-- strings.NewReplacer of single bytes: each byte of the text by itself
unfoldable pub escape_help : Bytes → Bytes
escape_help [] = []
escape_help (c ∷ s) =
    let rest = escape_help s in
    if eqb c b'\\' then b'\\' ∷ b'\\' ∷ rest else if eqb c 10 then b'\\' ∷ b'n' ∷ rest else c ∷ rest

unfoldable pub escape_label_value : Bytes → Bytes
escape_label_value [] = []
escape_label_value (c ∷ s) =
    let rest = escape_label_value s in
    if eqb c b'\\'
    then b'\\' ∷ b'\\' ∷ rest
    else if eqb c 10
    then b'\\' ∷ b'n' ∷ rest
    else if eqb c b'"'
    then b'\\' ∷ b'"' ∷ rest
    else c ∷ rest

-- `strings.Join(labelValues, seriesSeparator)`
abbrev pub series_key : List Bytes → Bytes
series_key labels = join 0 labels

unfoldable pub split_series : Bytes → List Bytes
split_series key = if is_empty key then [] else split 0 key

abbrev pair : Bytes → Bytes → Bytes
pair name value = name ++ codes "=\"" ++ escape_label_value value ++ codes "\""

-- The values that have a name.
label_pairs : List Bytes → List Bytes → List Bytes
label_pairs names [] = []
label_pairs [] (value ∷ values) = []
label_pairs (name ∷ names) (value ∷ values) = pair name value ∷ label_pairs names values

extra_pair : Bytes → Bytes → List Bytes
extra_pair name value = if is_empty name then [] else pair name value ∷ []

abbrev no_values : List Bytes → Bool
no_values [] = true
no_values (value ∷ values) = false

unfoldable pub format_labels : Metadata → List Bytes → Bytes → Bytes → Bytes
unfolding label_pairs extra_pair
format_labels m values extra_name extra_value =
    if no_values values && is_empty extra_name
    then []
    else codes "{"
      ++ join b',' (label_pairs m.label_names values ++ extra_pair extra_name extra_value)
      ++ codes "}"

unfoldable pub write_header : Metadata → Bytes → Bytes
write_header m metric_type =
    codes "# HELP "
    ++ m.metric_name
    ++ codes " "
    ++ escape_help m.help
    ++ 10 ∷ []
    ++ codes "# TYPE "
    ++ m.metric_name
    ++ codes " "
    ++ metric_type
    ++ 10 ∷ []

-- The order of strings, by bytes.
abbrev pub before : Bytes → Bytes → Bool
before [] t = true
before (a ∷ s) [] = false
before (a ∷ s) (b ∷ t) = let rest = before s t in ltb a b || (eqb a b && rest)

insert_key : Bytes → List Bytes → List Bytes
insert_key k [] = k ∷ []
insert_key k (j ∷ js) = let rest = insert_key k js in if before k j then k ∷ j ∷ js else j ∷ rest

unfoldable pub sorted_keys : {V : Type 0} → Map V → List Bytes
unfolding insert_key
sorted_keys [] = []
sorted_keys ((key, value) ∷ m) = insert_key key (sorted_keys m)

-- one line for each key that is there
lines : {V : Type 0} → (Bytes → V → Bytes) → Map V → List Bytes → Bytes
lines line m [] = []
lines line m (key ∷ keys) =
    elim (lookup key m) [ none ↦ [] | some value ↦ line key value ] ++ lines line m keys

-- `n++` of a uint64
abbrev pub incr64 : ℕ → ℕ
incr64 n = (n + 1) % 2 ^ 64

module _ {F : Type 0} (floats : Floats F) where
  -- A counter or a gauge.
  pub record Vec : Type 0 where
    pub metadata : Metadata
    pub values : Map F

  -- `values[key] += delta`, from 0
  unfoldable pub added : F → Option F → F
  added delta none = floats.plus floats.zero_value delta
  added delta (some old) = floats.plus old delta

  abbrev add_to : F → List Bytes → Vec → Vec
  add_to delta labels v = record v {
    values =
        insert (series_key labels) (added delta (lookup (series_key labels) v.values)) v.values;
  }

  -- CounterVec: a negative delta, or NaN, is dropped.
  unfoldable pub counter_add : F → List Bytes → Vec → Vec
  counter_add delta labels c =
      if floats.leq floats.zero_value delta then add_to delta labels c else c

  unfoldable pub counter_inc : List Bytes → Vec → Vec
  counter_inc labels c = counter_add floats.one labels c

  unfoldable pub gauge_set : F → List Bytes → Vec → Vec
  gauge_set value labels g = record g { values = insert (series_key labels) value g.values }

  unfoldable pub gauge_add : F → List Bytes → Vec → Vec
  gauge_add delta labels g = add_to delta labels g

  unfoldable pub gauge_reset : Vec → Vec
  gauge_reset g = record g { values = [] }

  abbrev value_line : Metadata → Bytes → F → Bytes
  value_line m key value =
      m.metric_name
      ++ format_labels m (split_series key) [] []
      ++ codes " "
      ++ floats.format_value value
      ++ 10 ∷ []

  -- by "counter" or "gauge"
  unfoldable pub write_vec : Bytes → Vec → Bytes
  unfolding lines
  write_vec metric_type v =
      write_header v.metadata metric_type
      ++ lines (value_line v.metadata) v.values (sorted_keys v.values)

  pub record HistogramSeries : Type 0 where
    pub counts : List ℕ
    pub sum : F
    pub count : ℕ

  pub record HistogramVec : Type 0 where
    pub metadata : Metadata
    pub buckets : List F
    pub series : Map HistogramSeries

  insert_bucket : F → List F → List F
  insert_bucket b [] = b ∷ []
  insert_bucket b (c ∷ cs) =
      let rest = insert_bucket b cs in if floats.leq b c then b ∷ c ∷ cs else c ∷ rest

  sort_buckets : List F → List F
  unfolding insert_bucket
  sort_buckets [] = []
  sort_buckets (b ∷ bs) = insert_bucket b (sort_buckets bs)

  unfoldable pub new_histogram_vec : Metadata → List F → HistogramVec
  unfolding sort_buckets
  new_histogram_vec m buckets = record { metadata = m; buckets = sort_buckets buckets; series = [] }

  -- the loop over the buckets and their counts
  unfoldable pub count_in : F → List F → List ℕ → List ℕ
  count_in value [] counts = counts
  count_in value (bound ∷ bounds) [] = []
  count_in value (bound ∷ bounds) (n ∷ counts) =
      (if floats.leq value bound then incr64 n else n) ∷ count_in value bounds counts

  unfoldable pub series_or_new : HistogramVec → Option HistogramSeries → HistogramSeries
  series_or_new h none = record {
    counts = replicate (length h.buckets) 0;
    sum = floats.zero_value;
    count = 0;
  }
  series_or_new h (some s) = s

  unfoldable pub observed : F → List F → HistogramSeries → HistogramSeries
  observed value buckets s = record {
    counts = count_in value buckets s.counts;
    sum = floats.plus s.sum value;
    count = incr64 s.count;
  }

  unfoldable pub observe : F → List Bytes → HistogramVec → HistogramVec
  observe value labels h =
      let key = series_key labels in
      let s = series_or_new h (lookup key h.series) in
      if floats.is_nan value
      then h
      else record h { series = insert key (observed value h.buckets s) h.series }

  bucket_lines : Metadata → List Bytes → List F → List ℕ → Bytes
  bucket_lines m values [] counts = []
  bucket_lines m values (bound ∷ bounds) [] = []
  bucket_lines m values (bound ∷ bounds) (n ∷ counts) =
      m.metric_name
      ++ codes "_bucket"
      ++ format_labels m values (codes "le") (floats.format_value bound)
      ++ codes " "
      ++ format n
      ++ 10 ∷ bucket_lines m values bounds counts

  series_lines : HistogramVec → Bytes → HistogramSeries → Bytes
  unfolding bucket_lines
  series_lines h key s =
      let name = h.metadata.metric_name in
      let values = split_series key in
      let labels = format_labels h.metadata values [] [] in
      bucket_lines h.metadata values h.buckets s.counts
      ++ name
      ++ codes "_bucket"
      ++ format_labels h.metadata values (codes "le") (codes "+Inf")
      ++ codes " "
      ++ format s.count
      ++ 10 ∷ []
      ++ name
      ++ codes "_sum"
      ++ labels
      ++ codes " "
      ++ floats.format_value s.sum
      ++ 10 ∷ []
      ++ name
      ++ codes "_count"
      ++ labels
      ++ codes " "
      ++ format s.count
      ++ 10 ∷ []

  unfoldable pub write_histogram : HistogramVec → Bytes
  unfolding series_lines lines
  write_histogram h =
      write_header h.metadata (codes "histogram")
      ++ lines (series_lines h) h.series (sorted_keys h.series)

-- A collector by its name and what `write` gives; a name twice panics.
unfoldable pub register : Bytes × Bytes → List (Bytes × Bytes) → Result (List (Bytes × Bytes))
register (name, body) registered = check registered
  where
    check : List (Bytes × Bytes) → Result (List (Bytes × Bytes))
    check [] = ok (registered ++ (name, body) ∷ [])
    check ((existing, other) ∷ rest) =
        let checked = check rest in
        if existing == name
        then err (about "panic: observability: metric already registered: " name "")
        else checked

-- Sorted by name; no two have the same.
unfoldable pub render : List (Bytes × Bytes) → Bytes
unfolding lines
render collectors = lines (λ name body. body) collectors (sorted_keys collectors)
