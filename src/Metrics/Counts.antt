-- ===== src/Metrics/Counts.antt =====
-- One series of a histogram, told from the values that were observed for it.
use Prim.Native.Nat.{◌<◌}
use capstone_project_git_fla.Prelude.{
  ℕ, suc, ◌^◌, ◌≤◌, true, none, List, [], ◌∷◌, ◌++◌, map, ◌≡◌, refl, ap, arith, length,
  length-append, replicate, if◌then◌else◌,
}
use capstone_project_git_fla.Metrics.{
  Floats, HistogramSeries, HistogramVec, incr64, count_in, series_or_new, observed,
}

-- The first count, or the number of all observations.
abbrev pub head_or : List ℕ → ℕ → ℕ
head_or [] total = total
head_or (n ∷ ns) total = n

-- Each count is at most the next one, and the last one at most the number of all.
abbrev pub IsCumulative : List ℕ → ℕ → Type 0
IsCumulative [] total = Unit {0}
IsCumulative (n ∷ ns) total = (n ≤ head_or ns total) × IsCumulative ns total

incr64_small : (n : ℕ) → suc n < 2 ^ 64 → incr64 n ≡ suc n
incr64_small n h = omega arith

module _ {F : Type 0} (floats : Floats F) where
  -- Each bound is at most the next one.
  abbrev pub IsBelow : F → List F → Type 0
  IsBelow b [] = Unit {0}
  IsBelow b (c ∷ bounds) = floats.leq b c ≡ true

  abbrev pub IsSorted : List F → Type 0
  IsSorted [] = Unit {0}
  IsSorted (b ∷ bounds) = IsBelow b bounds × IsSorted bounds

  -- the order of numbers; NaN is below nothing
  abbrev pub IsTransitive : Type 0
  IsTransitive = (a b c : F) → floats.leq a b ≡ true → floats.leq b c ≡ true → floats.leq a c ≡ true

  -- How many of the values are at most the bound.
  abbrev pub number_up_to : F → List F → ℕ
  number_up_to bound [] = 0
  number_up_to bound (v ∷ vs) =
      if floats.leq v bound then suc (number_up_to bound vs) else number_up_to bound vs

  -- The values added to a number one after another.
  abbrev pub sum_from : F → List F → F
  sum_from total [] = total
  sum_from total (v ∷ vs) = sum_from (floats.plus total v) vs

  -- The series counts, for each bound, the values up to it, and adds up all of them.
  pub record IsSummary (buckets values : List F) (s : HistogramSeries floats) : Type 0 where
    pub up_to : s.counts ≡ map (λ b. number_up_to b values) buckets
    pub all : s.count ≡ length values
    pub total : s.sum ≡ sum_from floats.zero_value values

  number_up_to-append :
      (bound v : F) (vs : List F)
      → number_up_to bound (vs ++ v ∷ [])
        ≡ (if floats.leq v bound then suc (number_up_to bound vs) else number_up_to bound vs)
  number_up_to-append bound v [] = refl
  number_up_to-append bound v (w ∷ vs) = ground (arith, number_up_to-append bound v vs)

  sum_from-append :
      (total v : F) (vs : List F)
      → sum_from total (vs ++ v ∷ []) ≡ floats.plus (sum_from total vs) v
  sum_from-append total v [] = refl
  sum_from-append total v (w ∷ vs) = sum_from-append (floats.plus total w) v vs

  number_up_to_small : (bound : F) (vs : List F) → number_up_to bound vs ≤ length vs
  number_up_to_small bound [] = omega arith
  number_up_to_small bound (v ∷ vs) = ground (arith, number_up_to_small bound vs)

  next_number :
      (bound v : F) (vs : List F)
      → suc (length vs) < 2 ^ 64
      → (if floats.leq v bound then incr64 (number_up_to bound vs) else number_up_to bound vs)
        ≡ number_up_to bound (vs ++ v ∷ [])
  next_number bound v vs l =
      let few = number_up_to_small bound vs in
      rw (number_up_to-append bound v vs, incr64_small (number_up_to bound vs) (omega arith)) refl

  count_in-number_up_to :
      (v : F) (bounds vs : List F)
      → suc (length vs) < 2 ^ 64
      → count_in floats v bounds (map (λ b. number_up_to b vs) bounds)
        ≡ map (λ b. number_up_to b (vs ++ v ∷ [])) bounds
  unfolding count_in
  count_in-number_up_to v [] vs l = refl
  count_in-number_up_to v (b ∷ bounds) vs l =
      rw (next_number b v vs l, count_in-number_up_to v bounds vs l) refl

  pub observed-IsSummary :
      (v : F) (buckets vs : List F) (s : HistogramSeries floats)
      → suc (length vs) < 2 ^ 64
      → IsSummary buckets vs s
      → IsSummary buckets (vs ++ v ∷ []) (observed floats v buckets s)
  unfolding observed
  observed-IsSummary v buckets vs s l g = record {
    up_to = rw (g.up_to) (count_in-number_up_to v buckets vs l);
    all = rw (g.all, incr64_small (length vs) l, length-append vs (v ∷ [])) (omega arith);
    total = rw (g.total, sum_from-append floats.zero_value v vs) refl;
  }

  no_counts : (bounds : List F) → replicate (length bounds) 0 ≡ map (λ b. number_up_to b []) bounds
  no_counts [] = refl
  no_counts (b ∷ bounds) = ap (λ ns. 0 ∷ ns) (no_counts bounds)

  pub new-IsSummary :
      (h : HistogramVec floats) → IsSummary h.buckets [] (series_or_new floats h none)
  unfolding series_or_new
  new-IsSummary h = record { up_to = no_counts h.buckets; all = refl; total = refl }

  number_up_to_mono :
      (b c : F) (vs : List F)
      → IsTransitive
      → floats.leq b c ≡ true
      → number_up_to b vs ≤ number_up_to c vs
  number_up_to_mono b c [] trans le = omega arith
  number_up_to_mono b c (v ∷ vs) trans le =
      let carried : floats.leq v b ≡ true → floats.leq v c ≡ true = λ h. trans v b c h le in
      ground (arith, number_up_to_mono b c vs trans le, carried)

  pub numbers-IsCumulative :
      (bounds vs : List F)
      → IsTransitive
      → IsSorted bounds
      → IsCumulative (map (λ b. number_up_to b vs) bounds) (length vs)
  numbers-IsCumulative [] vs trans s = tt
  numbers-IsCumulative (b ∷ []) vs trans s = (number_up_to_small b vs, tt)
  numbers-IsCumulative (b ∷ c ∷ bounds) vs trans (below, s) =
      (number_up_to_mono b c vs trans below, numbers-IsCumulative (c ∷ bounds) vs trans s)
