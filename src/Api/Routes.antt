-- ===== src/Api/Routes.antt =====
-- The routes of backend/atlas/api/routes.py that read or change what the server keeps. A handler gets
-- its parameters checked by the framework.
pub mod Kept
use atlas_the_agent.Base.{
  ◌*◌, ◌^◌, ℕ, Bool, true, false, Option, none, some, List, [], ◌∷◌, Text, codes, is_empty, length,
  if◌then◌else◌,
}
use atlas_the_agent.Core.Json.{Float, finite, pos}
use atlas_the_agent.Core.Arithmetic.{Arithmetic}
use atlas_the_agent.Core.Python.{Python}
use atlas_the_agent.Agent.Schemas.{TaskView}
use atlas_the_agent.Events.Types.{Event}
use atlas_the_agent.Events.Hub.{Hub, subscriber_count}
use atlas_the_agent.Memory.Schemas.{MemoryView, active}
use atlas_the_agent.Obs.Labels.{Outcome, done, Labelled}
use atlas_the_agent.Obs.Counters.{and_then, new_values}
use atlas_the_agent.Obs.Registry.{gauge, MetricsRegistry, find_metric, get_or_create, render}
use atlas_the_agent.Obs.Runtime.{ws_subscribers, set_gauge, put_metric, on_metric}
use atlas_the_agent.Persistence.Tables.{RunRow, Database}
use atlas_the_agent.Persistence.Runs
use atlas_the_agent.Persistence.Runs.{RunView, to_view}
use atlas_the_agent.Persistence.Tasks.{list_for_run}
use atlas_the_agent.Persistence.Ledger.{list_after}
use atlas_the_agent.Persistence.Memories
use atlas_the_agent.Persistence.Memories.{Sqlite, search, list_recent, set_pinned}
use atlas_the_agent.Runtime.Manager.Cancels.{Cancels}
use atlas_the_agent.Runtime.Manager.Cancels

-- How a handler ends: with a body, with `HTTPException` of a code, or with another exception.
pub data Response (A : Type 0) : Type 0 where
  body : A → Response A
  http_exception : ℕ → Text → Response A
  server_error : Response A

abbrev pub run_not_found : {A : Type 0} → Response A
run_not_found = http_exception 404 (codes "run not found")

abbrev pub memory_not_found : {A : Type 0} → Response A
memory_not_found = http_exception 404 (codes "memory not found")

-- What a handler returns of a row that it looked up.
abbrev pub if_found : {A B : Type 0} → Response B → (A → B) → Option A → Response B
if_found missing f none = missing
if_found missing f (some a) = body (f a)

-- `get_run`
unfoldable pub get_run : ℕ → Database → Response RunView
unfolding Runs.get_run to_view
get_run run_id db = if_found run_not_found to_view (Runs.get_run run_id db)

-- `get_run_events`
unfoldable pub get_run_events : ℕ → ℕ → Database → Response (List Event)
unfolding Runs.get_run list_after
get_run_events run_id after db =
    if_found run_not_found (λ row. list_after run_id after db) (Runs.get_run run_id db)

-- `get_run_tasks`
unfoldable pub get_run_tasks : ℕ → Database → Response (List TaskView)
unfolding Runs.get_run list_for_run
get_run_tasks run_id db =
    if_found run_not_found (λ row. list_for_run run_id db) (Runs.get_run run_id db)

abbrev cancelled : Cancels → Option (Bool × Cancels) → Response Bool × Cancels
cancelled cancels none = (run_not_found, cancels)
cancelled cancels (some (accepted, left)) = (body accepted, left)

-- `cancel_run`: the body says whether the run was active.
unfoldable pub cancel_run : ℕ → Database → Cancels → Response Bool × Cancels
unfolding Runs.get_run Cancels.cancel_run
cancel_run run_id db cancels = elim (Runs.get_run run_id db) [
  | none ↦ cancelled cancels none
  | some row ↦ cancelled cancels (some (Cancels.cancel_run run_id cancels))
]

-- `list_memories`
module _ (sql : Sqlite) (py : Python) where
  unfoldable pub list_memories : Option Text → ℕ → ℕ → Database → List MemoryView
  unfolding search list_recent
  list_memories none limit offset db = list_recent limit offset active db
  list_memories (some []) limit offset db = list_recent limit offset active db
  list_memories (some (c ∷ q)) limit offset db = search sql py (c ∷ q) limit db

-- `get_memory`
unfoldable pub get_memory : ℕ → Database → Response MemoryView
unfolding Memories.get_memory
get_memory i db = if_found memory_not_found (λ m. m) (Memories.get_memory i db)

abbrev pub deleted : Bool × Database → Response (Unit {0}) × Database
deleted (true, left) = (body tt, left)
deleted (false, left) = (memory_not_found, left)

-- `delete_memory`
unfoldable pub delete_memory : ℕ → Database → Response (Unit {0}) × Database
unfolding Memories.delete_memory
delete_memory i db = deleted (Memories.delete_memory i db)

-- `pin_memory` and `unpin_memory`
unfoldable pub pin_memory : ℕ → Bool → ℕ → Database → Response MemoryView × Database
unfolding set_pinned
pin_memory i pinned now db =
    let r = set_pinned i pinned now db in (if_found memory_not_found (λ m. m) r.0, r.1)

-- `float(n)`
abbrev whole : ℕ → Float
whole n = finite (pos (n * 2 ^ 1074))

-- `metrics`: the registry is changed, then printed.
module _ (py : Python) (ar : Arithmetic) where
  abbrev rendered : Outcome Text → Response Text
  rendered (done t) = body t
  rendered _ = server_error

  abbrev printed : MetricsRegistry → Outcome MetricsRegistry → Response Text × MetricsRegistry
  printed metrics (done sampled) = (rendered (render py ar sampled), sampled)
  printed metrics _ = (server_error, metrics)

  unfoldable pub metrics_route : Bool → Hub → MetricsRegistry → Response Text × MetricsRegistry
  unfolding subscriber_count render get_or_create find_metric set_gauge new_values
  metrics_route enabled hub metrics =
      if enabled
      then printed metrics (
          and_then
            (λ found. put_metric ws_subscribers.name found (
              on_metric (set_gauge py ar (whole (subscriber_count hub)) [])
                (find_metric ws_subscribers.name found)))
            (get_or_create (gauge ws_subscribers (new_values ws_subscribers)) metrics))
      else (http_exception 404 (codes "metrics disabled"), metrics)
