-- ===== src/Obs/Runtime/Recorded.antt =====
-- The counter of events against the ledger.
use atlas_the_agent.Base.{
  ℕ, zero as none_yet, suc, ◌+◌, ◌≡◌, refl, ap, ◌∙◌, true, false, Bool-cases, inl, inr, Option,
  none, some, List, [], ◌∷◌, ◌++◌, Text, codes, eqb, eqb→eq, if◌then◌else◌, on_option, arith,
}
use atlas_the_agent.Core.Json.{Float, Fields}
use atlas_the_agent.Core.Arithmetic.{Arithmetic}
use atlas_the_agent.Core.Python.{Python}
use atlas_the_agent.Events.Types.{EventType, Event, value}
use atlas_the_agent.Persistence.Tables.{Database}
use atlas_the_agent.Process.{emit_to}
use atlas_the_agent.Obs.Labels.{
  Outcome, done, value_error, key_error, type_error, index_error, attribute_error,
}
use atlas_the_agent.Obs.Counters.{find_key, put_key, added, zero, Values, value_of}
use atlas_the_agent.Obs.Counters.Items.{find_key-put_key}
use atlas_the_agent.Obs.Registry.{
  Metric, counter, gauge, histogram, MetricsRegistry, find_metric, set_metric,
}
use atlas_the_agent.Obs.Runtime.{
  observing, one, events_total, emit_seconds, put_metric, trapped, init_metrics, inc_events,
  observe_seconds, on_event, measured_emit,
}

find_metric-set_same :
    (name : Text) (m old : Metric) (metrics : MetricsRegistry)
    → find_metric name metrics ≡ some old
    → find_metric name (set_metric name m metrics) ≡ some m
unfolding find_metric set_metric
find_metric-set_same name m old [] h = ground (arith, h)
find_metric-set_same name m old ((n, x) ∷ metrics) h = elim (Bool-cases (eqb n name)) [
  | inl e ↦ rw e (rw e refl)
  | inr e ↦ rw e (rw e (find_metric-set_same name m old metrics (ground (arith, h, e))))
]

find_metric-set_other :
    (a b : Text) (m : Metric) (metrics : MetricsRegistry)
    → eqb b a ≡ false
    → find_metric a (set_metric b m metrics) ≡ find_metric a metrics
unfolding find_metric set_metric
find_metric-set_other a b m [] h = refl
find_metric-set_other a b m ((n, x) ∷ metrics) h = elim (Bool-cases (eqb n b)) [
  | inl e ↦ rw e (ground (arith, h, ap (λ x. eqb x a) (eqb→eq n b e)))
  | inr e ↦ rw e (rw (find_metric-set_other a b m metrics h) refl)
]

-- A method of another metric, whether it raises or not.
find_metric-trapped :
    (a b : Text) (metrics : MetricsRegistry) (o : Outcome Metric)
    → eqb b a ≡ false
    → find_metric a (trapped metrics (put_metric b metrics o)) ≡ find_metric a metrics
find_metric-trapped a b metrics (done m) h = find_metric-set_other a b m metrics h
find_metric-trapped a b metrics value_error h = refl
find_metric-trapped a b metrics key_error h = refl
find_metric-trapped a b metrics type_error h = refl
find_metric-trapped a b metrics index_error h = refl
find_metric-trapped a b metrics attribute_error h = refl

-- The events whose type has this value.
abbrev pub number_of : Text → List Event → ℕ
number_of s [] = 0
number_of s (e ∷ es) =
    let rest = number_of s es in if eqb (codes (value e.type)) s then 1 + rest else rest

number_of-append :
    (s : Text) (es : List Event) (e : Event)
    → number_of s (es ++ e ∷ [])
      ≡ (if eqb (codes (value e.type)) s then suc (number_of s es) else number_of s es)
number_of-append s [] e = ground arith
number_of-append s (x ∷ es) e = ground (arith, number_of-append s es e)

module _ (py : Python) (ar : Arithmetic) where
  -- `1.0` added so many times to `0.0`
  abbrev pub ones : ℕ → Float
  ones none_yet = zero
  ones (suc n) = ar.plus (ones n) one

  -- `metrics._events.value(type=s)`
  abbrev pub events_value : Text → Option Metric → Outcome Float
  events_value s none = key_error
  events_value s (some (counter base values)) = value_of py ar ((codes "type", s) ∷ []) base values
  events_value s (some (gauge base values)) = value_of py ar ((codes "type", s) ∷ []) base values
  events_value s (some (histogram h)) = attribute_error

  record Counts (es : List Event) (metrics : MetricsRegistry) : Type 0 where
    pub values : Values
    pub found : find_metric events_total.name metrics ≡ some (counter events_total values)
    pub counted :
        (s : Text) → on_option zero (λ v. v) (find_key (s ∷ []) values) ≡ ones (number_of s es)

  inc_events-found :
      (s : Text) (metrics : MetricsRegistry) (values : Values)
      → find_metric events_total.name metrics ≡ some (counter events_total values)
      → inc_events py ar s metrics
        ≡ done (
            set_metric events_total.name
              (counter events_total (put_key (s ∷ []) (added py ar one (s ∷ []) values) values))
              metrics)
  unfolding inc_events
  inc_events-found s metrics values h = rw h refl

  start-Counts : (version : Text) → Counts [] (trapped [] (init_metrics py ar version []))
  unfolding init_metrics find_key
  start-Counts version = record { values = []; found = refl; counted = λ s. refl }

  count_one :
      (e : Event) (es : List Event) (values : Values) (s : Text)
      → ((s : Text) → on_option zero (λ v. v) (find_key (s ∷ []) values) ≡ ones (number_of s es))
      → on_option zero
          (λ v. v)
          (find_key (s ∷ []) (
            put_key
              (codes (value e.type) ∷ [])
              (added py ar one (codes (value e.type) ∷ []) values)
              values))
        ≡ ones (number_of s (es ++ e ∷ []))
  count_one e es values s h =
      rw
        (find_key-put_key (s ∷ []) (codes (value e.type) ∷ [])
          (added py ar one (codes (value e.type) ∷ []) values) values)
        (rw (number_of-append s es e) (elim (Bool-cases (eqb (codes (value e.type)) s)) [
          | inl t ↦ rw t (
              ap (λ v. ar.plus v one)
                (h (codes (value e.type)) ∙ ap (λ x. ones (number_of x es)) (eqb→eq _ s t)))
          | inr t ↦ rw t (h s)
        ]))

  on_event-Counts :
      (e : Event) (es : List Event) (seconds : Float) (metrics : MetricsRegistry)
      → Counts es metrics
      → Counts (es ++ e ∷ []) (on_event py ar true (codes (value e.type)) seconds metrics)
  unfolding on_event observe_seconds
  on_event-Counts e es seconds metrics c =
      let s = codes (value e.type) in
      let new : Values = put_key (s ∷ []) (added py ar one (s ∷ []) c.values) c.values in
      record {
        values = new;
        found = rw (inc_events-found s metrics c.values c.found) (
            find_metric-trapped events_total.name emit_seconds.name
              (set_metric events_total.name (counter events_total new) metrics)
              (observing py ar seconds
                (set_metric events_total.name (counter events_total new) metrics))
              refl
            ∙ find_metric-set_same events_total.name (counter events_total new)
                (counter events_total c.values) metrics c.found);
        counted = λ t. count_one e es c.values t c.counted;
      }

  -- Emits one behind the other, the newest first, on an empty ledger and a new registry.
  abbrev pub emitted :
      Text → List (Float × ℕ × EventType × Fields) → Database → Database × MetricsRegistry
  emitted version [] db = (record db { events = [] }, trapped [] (init_metrics py ar version []))
  emitted version ((seconds, run_id, type, payload) ∷ calls) db =
      measured_emit py ar true seconds run_id type payload (emitted version calls db)

  emitted-Counts :
      (version : Text) (calls : List (Float × ℕ × EventType × Fields)) (db : Database)
      → Counts (emitted version calls db).0.events (emitted version calls db).1
  unfolding measured_emit emit_to
  emitted-Counts version [] db = start-Counts version
  emitted-Counts version ((seconds, run_id, type, payload) ∷ calls) db =
      let before = emitted version calls db in
      on_event-Counts (emit_to run_id type payload before.0).0 before.0.events seconds before.1
        (emitted-Counts version calls db)

  -- The counter of events agrees with the ledger: from an empty ledger and the registry that
  -- `RuntimeMetrics` sets up, after any emits with metrics enabled, whatever their latencies, the
  -- counter's value for a type is 1.0 added to 0.0 as often as the ledger has an event of that type.
  pub events_value-emitted :
      (version s : Text) (calls : List (Float × ℕ × EventType × Fields)) (db : Database)
      → events_value s (find_metric events_total.name (emitted version calls db).1)
        ≡ done (ones (number_of s (emitted version calls db).0.events))
  unfolding value_of
  events_value-emitted version s calls db =
      let c = emitted-Counts version calls db in ap (events_value s) c.found ∙ ap done (c.counted s)
