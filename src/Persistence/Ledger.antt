-- ===== src/Persistence/Ledger.antt =====
-- `EventRepository` of backend/atlas/persistence/repositories.py.
use atlas_the_agent.Base.{ℕ, ◌+◌, max, ◌&&◌, List, [], ◌∷◌, ◌++◌, filter, ltb, ◌==◌, if◌then◌else◌}
use atlas_the_agent.Core.Json.{Fields}
use atlas_the_agent.Events.Types.{EventType, Event}
use atlas_the_agent.Persistence.Tables.{Database, order_by}

-- `coalesce(max(seq), 0)` over the run's rows.
unfoldable pub max_seq : ℕ → List Event → ℕ
max_seq run_id [] = 0
max_seq run_id (e ∷ es) =
    let rest = max_seq run_id es in if e.run_id == run_id then max e.seq rest else rest

unfoldable pub next_seq : ℕ → Database → ℕ
unfolding max_seq
next_seq run_id db = max_seq run_id db.events + 1

unfoldable pub append : ℕ → ℕ → EventType → Fields → Database → Event × Database
append run_id seq type payload db =
    let row : Event = record { run_id = run_id; seq = seq; type = type; payload = payload } in
    (row, record db { events = db.events ++ row ∷ [] })

unfoldable pub list_after : ℕ → ℕ → Database → List Event
list_after run_id after_seq db =
    order_by (λ e. e.seq) (filter (λ e. e.run_id == run_id && ltb after_seq e.seq) db.events)
