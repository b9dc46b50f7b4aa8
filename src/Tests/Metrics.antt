-- ===== src/Tests/Metrics.antt =====
-- Metrics: labels, a histogram, and the counter of events.
use atlas_the_agent.Base.{◌≡◌, refl, some, List, [], ◌∷◌, ◌++◌, Text, codes}
use atlas_the_agent.Core.Json.{Float, finite, pos, end}
use atlas_the_agent.Events.Types.{run_created, thought}
use atlas_the_agent.Obs.Labels.{done, Labelled, Labels, esc_label, replace}
use atlas_the_agent.Obs.Labels.Escaped.{read_value, read_value-esc_label}
use atlas_the_agent.Obs.Counters.{find_key, put_key}
use atlas_the_agent.Obs.Histograms.{
  new_histogram, sort_buckets, place, observe_at, observe, key_lines,
}
use atlas_the_agent.Obs.Histograms.Buckets.{reference_lines}
use atlas_the_agent.Obs.Histograms.Observed.{
  observed, values_under, total, sum_at, key_lines-observed,
}
use atlas_the_agent.Obs.Registry.{find_metric}
use atlas_the_agent.Obs.Runtime.{events_total}
use atlas_the_agent.Obs.Runtime.Recorded.{
  emitted, number_of, ones, events_value, events_value-emitted,
}
use atlas_the_agent.Tests.Fixtures.{python, arithmetic, database}

abbrev quoted : Text
quoted = 0x22 ∷ 0x5c ∷ 0xa ∷ codes "n"

esc_label-quoted : esc_label quoted ≡ 0x5c ∷ 0x22 ∷ 0x5c ∷ 0x5c ∷ 0x5c ∷ codes "nn"
unfolding esc_label replace
esc_label-quoted = refl

read_value-esc_label_example :
    read_value (esc_label quoted ++ 0x22 ∷ codes "}") ≡ some (quoted, codes "}")
read_value-esc_label_example = read_value-esc_label quoted (codes "}")

abbrev seconds : Labelled
seconds = record { name = codes "s"; documentation = codes "latency"; labelnames = [] }

abbrev bounds : List Float
bounds = finite (pos 5) ∷ finite (pos 2) ∷ []

-- Three values, and a call with a label that the histogram does not have.
abbrev calls : List (Labels × Float)
calls =
    ([], finite (pos 9))
    ∷ ([], finite (pos 2))
    ∷ ((codes "a", codes "b") ∷ [], finite (pos 1))
    ∷ ([], finite (pos 4))
    ∷ []

key_lines-observed_example :
    key_lines python arithmetic
      (observed python arithmetic seconds bounds calls).base
      []
      (sum_at [] (observed python arithmetic seconds bounds calls))
      0
      (observed python arithmetic seconds bounds calls).buckets
      (1 ∷ 1 ∷ 1 ∷ [])
    ≡ reference_lines python arithmetic seconds []
        (total arithmetic (values_under seconds [] calls))
        (finite (pos 2) ∷ finite (pos 5) ∷ [])
        (values_under seconds [] calls)
unfolding observe observe_at place find_key put_key new_histogram sort_buckets
key_lines-observed_example =
    key_lines-observed python arithmetic seconds bounds [] calls (1 ∷ 1 ∷ 1 ∷ []) (refl, (refl, tt))
      refl

events_value-emitted_example :
    events_value python arithmetic (codes "thought") (
      find_metric events_total.name
        (emitted python arithmetic
          (codes "1")
          ((finite (pos 3), 7, thought, end) ∷ (finite (pos 1), 7, run_created, end) ∷ [])
          database).1)
    ≡ done (
        ones python arithmetic (
          number_of
            (codes "thought")
            (emitted python arithmetic
              (codes "1")
              ((finite (pos 3), 7, thought, end) ∷ (finite (pos 1), 7, run_created, end) ∷ [])
              database).0.events))
events_value-emitted_example =
    events_value-emitted python arithmetic (codes "1") (codes "thought")
      ((finite (pos 3), 7, thought, end) ∷ (finite (pos 1), 7, run_created, end) ∷ []) database
