-- ===== src/Obs/Runtime.antt =====
-- `RuntimeMetrics` of backend/atlas/obs/metrics.py.
pub mod Recorded
use atlas_the_agent.Base.{
  ℕ, ◌^◌, Bool, true, false, Option, none, some, List, [], ◌∷◌, ◌++◌, map, Text, String, codes,
  if◌then◌else◌,
}
use atlas_the_agent.Core.Json.{Float, Fields, finite, pos}
use atlas_the_agent.Persistence.Tables.{Database}
use atlas_the_agent.Events.Types.{EventType, value}
use atlas_the_agent.Process.{emit_to}
use atlas_the_agent.Core.Arithmetic.{Arithmetic}
use atlas_the_agent.Core.Python.{Python}
use atlas_the_agent.Obs.Labels.{
  Outcome, done, value_error, key_error, type_error, index_error, attribute_error, Labelled, Labels,
}
use atlas_the_agent.Obs.Counters.{and_then, new_values, counter_inc, gauge_set, gauge_inc}
use atlas_the_agent.Obs.Histograms.{new_histogram, observe}
use atlas_the_agent.Obs.Registry.{
  Metric, counter, gauge, histogram, MetricsRegistry, find_metric, set_metric, get_or_create,
}

-- `DEFAULT_BUCKETS`
abbrev pub default_buckets : List String
default_buckets =
    "0.0005" ∷ "0.001" ∷ "0.0025" ∷ "0.005" ∷ "0.01" ∷ "0.025" ∷ "0.05" ∷ "0.1" ∷ "0.25" ∷ "0.5"
    ∷ "1.0" ∷ "2.5" ∷ "5.0" ∷ "10.0" ∷ []

-- `1.0`
abbrev pub one : Float
one = finite (pos (2 ^ 1074))

abbrev pub events_total : Labelled
events_total = record {
  name = codes "atlas_events_total";
  documentation = codes "Total run events emitted, by type";
  labelnames = codes "type" ∷ [];
}

abbrev pub emit_seconds : Labelled
emit_seconds = record {
  name = codes "atlas_event_emit_seconds";
  documentation = codes "emit() latency in seconds";
  labelnames = [];
}

abbrev pub ws_subscribers : Labelled
ws_subscribers = record {
  name = codes "atlas_ws_subscribers";
  documentation = codes "Live WebSocket subscribers";
  labelnames = [];
}

abbrev build_info : Labelled
build_info = record {
  name = codes "atlas_build_info";
  documentation = codes "Build info (value always 1)";
  labelnames = codes "version" ∷ [];
}

-- A call of a method of the metric under a name.
abbrev pub put_metric : Text → MetricsRegistry → Outcome Metric → Outcome MetricsRegistry
put_metric name metrics m = and_then (λ new. done (set_metric name new metrics)) m

abbrev pub on_metric : (Metric → Outcome Metric) → Option Metric → Outcome Metric
on_metric f none = key_error
on_metric f (some m) = f m

-- What a call leaves where the exception is trapped.
abbrev pub trapped : MetricsRegistry → Outcome MetricsRegistry → MetricsRegistry
trapped metrics (done new) = new
trapped metrics value_error = metrics
trapped metrics key_error = metrics
trapped metrics type_error = metrics
trapped metrics index_error = metrics
trapped metrics attribute_error = metrics

module _ (py : Python) (ar : Arithmetic) where
  -- `inc` of a counter and of a gauge
  unfoldable pub inc_metric : Float → Labels → Metric → Outcome Metric
  unfolding counter_inc gauge_inc
  inc_metric amount labels (counter base values) =
      and_then (λ v. done (counter base v)) (counter_inc py ar amount labels base values)
  inc_metric amount labels (gauge base values) =
      and_then (λ v. done (gauge base v)) (gauge_inc py ar amount labels base values)
  inc_metric amount labels (histogram h) = attribute_error

  unfoldable pub set_gauge : Float → Labels → Metric → Outcome Metric
  unfolding gauge_set
  set_gauge value labels (gauge base values) =
      and_then (λ v. done (gauge base v)) (gauge_set py ar value labels base values)
  set_gauge value labels _ = attribute_error

  unfoldable pub observe_metric : Float → Labels → Metric → Outcome Metric
  unfolding observe
  observe_metric value labels (histogram h) =
      and_then (λ k. done (histogram k)) (observe py ar value labels h)
  observe_metric value labels _ = attribute_error

  -- `RuntimeMetrics.__init__`: the registry that is left
  unfoldable pub init_metrics : Text → MetricsRegistry → Outcome MetricsRegistry
  unfolding get_or_create find_metric set_metric set_gauge new_values new_histogram
  init_metrics version metrics =
      and_then
        (λ a.
          and_then
            (λ b.
              and_then
                (λ c.
                  and_then
                    (λ d. put_metric build_info.name d (
                      on_metric (set_gauge one ((codes "version", version) ∷ []))
                        (find_metric build_info.name d)))
                    (get_or_create (gauge build_info (new_values build_info)) c))
                (get_or_create (gauge ws_subscribers (new_values ws_subscribers)) b))
            (get_or_create (histogram (new_histogram emit_seconds (map ar.literal default_buckets)))
              a))
        (get_or_create (counter events_total (new_values events_total)) metrics)

  -- `self._events.inc(type=type_value)`
  unfoldable pub inc_events : Text → MetricsRegistry → Outcome MetricsRegistry
  unfolding find_metric set_metric inc_metric
  inc_events type_value metrics = put_metric events_total.name metrics (
      on_metric (inc_metric one ((codes "type", type_value) ∷ []))
        (find_metric events_total.name metrics))

  -- The call of the histogram's method.
  abbrev pub observing : Float → MetricsRegistry → Outcome Metric
  unfolding find_metric observe_metric
  observing seconds metrics =
      on_metric (observe_metric seconds []) (find_metric emit_seconds.name metrics)

  -- `self._emit_seconds.observe(seconds)`
  unfoldable pub observe_seconds : Float → MetricsRegistry → Outcome MetricsRegistry
  unfolding find_metric set_metric observe_metric
  observe_seconds seconds metrics = put_metric emit_seconds.name metrics (observing seconds metrics)

  -- `on_event`: what was counted stays when the second call raises.
  unfoldable pub on_event : Bool → Text → Float → MetricsRegistry → MetricsRegistry
  unfolding inc_events observe_seconds
  on_event enabled type_value seconds metrics =
      if enabled
      then trapped metrics (
          and_then (λ counted. done (trapped counted (observe_seconds seconds counted)))
            (inc_events type_value metrics))
      else metrics

  -- `EventEmitter.emit` with metrics, the publishing apart: `enabled` is read before and the event is
  -- counted behind its append.
  unfoldable pub measured_emit :
      Bool
      → Float
      → ℕ
      → EventType
      → Fields
      → Database × MetricsRegistry
      → Database × MetricsRegistry
  unfolding on_event emit_to
  measured_emit enabled seconds run_id type payload (db, metrics) =
      ((emit_to run_id type payload db).1, on_event enabled (codes (value type)) seconds metrics)
