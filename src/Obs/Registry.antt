-- ===== src/Obs/Registry.antt =====
-- `MetricsRegistry` of backend/atlas/obs/metrics.py. A metric is shared: whoever holds one reaches it
-- through the registry, by its name.
use atlas_the_agent.Base.{
  Bool, true, false, Option, none, some, List, [], ◌∷◌, ◌++◌, Text, codes, eqb, if◌then◌else◌,
}
use atlas_the_agent.Core.Arithmetic.{Arithmetic}
use atlas_the_agent.Core.Python.{Python}
use atlas_the_agent.Obs.Labels.{Outcome, done, type_error, Labelled}
use atlas_the_agent.Obs.Counters.{and_then, Values, collect_values}
use atlas_the_agent.Obs.Histograms.{Histogram, collect_histogram}

-- The three classes.
pub data Metric : Type 0 where
  counter gauge : Labelled → Values → Metric
  histogram : Histogram → Metric

abbrev pub base_of : Metric → Labelled
base_of (counter base values) = base
base_of (gauge base values) = base
base_of (histogram h) = h.base

-- `_metrics`, in the order of registration
abbrev pub MetricsRegistry : Type 0
MetricsRegistry = List (Text × Metric)

-- `type(existing) is type(metric)`
abbrev pub same_type : Metric → Metric → Bool
same_type (counter b v) (counter c w) = true
same_type (gauge b v) (gauge c w) = true
same_type (histogram h) (histogram k) = true
same_type _ _ = false

unfoldable pub find_metric : Text → MetricsRegistry → Option Metric
find_metric name [] = none
find_metric name ((n, m) ∷ metrics) = if eqb n name then some m else find_metric name metrics

-- A method of a metric that the registry holds.
unfoldable pub set_metric : Text → Metric → MetricsRegistry → MetricsRegistry
set_metric name new [] = []
set_metric name new ((n, m) ∷ metrics) =
    let later = set_metric name new metrics in
    if eqb n name then (n, new) ∷ metrics else (n, m) ∷ later

-- `_get_or_create`: the metric that is returned is the one that the registry holds under the name.
unfoldable pub get_or_create : Metric → MetricsRegistry → Outcome MetricsRegistry
unfolding find_metric
get_or_create metric metrics = elim (find_metric (base_of metric).name metrics) [
  | none ↦ done (metrics ++ ((base_of metric).name, metric) ∷ [])
  | some existing ↦ if same_type existing metric then done metrics else type_error
]

-- `kind` of the classes
abbrev kind : Metric → Text
kind (counter b v) = codes "counter"
kind (gauge b v) = codes "gauge"
kind (histogram h) = codes "histogram"

module _ (py : Python) (ar : Arithmetic) where
  -- `collect_lines` of each class
  abbrev pub collect_lines : Metric → Outcome (List Text)
  unfolding collect_values collect_histogram
  collect_lines (counter base values) = collect_values py ar base values
  collect_lines (gauge base values) = collect_values py ar base values
  collect_lines (histogram h) = collect_histogram py ar h

  unfoldable pub metric_lines : MetricsRegistry → Outcome (List Text)
  unfolding collect_lines
  metric_lines [] = done []
  metric_lines ((n, m) ∷ metrics) =
      let rest = metric_lines metrics in
      and_then
        (λ lines.
          and_then
            (λ more. done (
              (codes "# HELP " ++ ((base_of m).name ++ (codes " " ++ (base_of m).documentation)))
              ∷ (codes "# TYPE " ++ ((base_of m).name ++ (codes " " ++ kind m)))
              ∷ (lines ++ more)))
            rest)
        (collect_lines m)

  -- `"\n".join(lines) + "\n"`
  abbrev ended_by_newlines : List Text → Text
  ended_by_newlines [] = 0xa ∷ []
  ended_by_newlines (l ∷ []) = l ++ 0xa ∷ []
  ended_by_newlines (l ∷ (m ∷ ls)) = l ++ (0xa ∷ ended_by_newlines (m ∷ ls))

  -- `render`
  unfoldable pub render : MetricsRegistry → Outcome Text
  unfolding metric_lines
  render metrics = and_then (λ lines. done (ended_by_newlines lines)) (metric_lines metrics)
