-- ===== src/Api/Stream.antt =====
-- `stream_run` of backend/atlas/api/ws.py: the events that one WebSocket sends.
pub mod Windows
pub mod Backlog
pub mod Cursor
pub mod Followed
pub mod Delivery
pub mod Closed
pub mod Drained
use atlas_the_agent.Base.{
  ℕ, ◌≡◌, ◌≢◌, Bool, true, false, Option, none, some, List, [], ◌∷◌, ◌++◌, leb, ◌==◌, if◌then◌else◌,
}
use atlas_the_agent.Core.Json.{Fields}
use atlas_the_agent.Events.Types
use atlas_the_agent.Events.Types.{EventType, Event}
use atlas_the_agent.Events.Hub.{
  Hub, Subscription, subscribe, unsubscribe, publish, find_subscription, set_queue,
}
use atlas_the_agent.Persistence.Tables.{Database}
use atlas_the_agent.Persistence.Ledger.{list_after}
use atlas_the_agent.Process.{emit_to}

-- `event.type in _TERMINAL`
abbrev pub ends_stream : EventType → Bool
ends_stream Types.run_completed = true
ends_stream Types.run_failed = true
ends_stream Types.run_cancelled = true
ends_stream _ = false

-- The variables of the handler: the cursor, what was sent, and whether it has returned.
pub record Stream : Type 0 where
  pub last_seq : ℕ
  pub sent : List Event
  pub returned : Bool

abbrev pub open_at : ℕ → Stream
open_at after = record { last_seq = after; sent = []; returned = false }

-- `send_json`, the new cursor, and `return` after a terminal event.
unfoldable pub send : Event → Stream → Stream
send e st = record { last_seq = e.seq; sent = st.sent ++ e ∷ []; returned = ends_stream e.type }

-- `for event in backlog`
unfoldable pub backfill : List Event → Stream → Stream
unfolding send
backfill [] st = st
backfill (e ∷ es) st =
    let later = backfill es (send e st) in if ends_stream e.type then send e st else later

-- One round of `while True`.
unfoldable pub deliver : Event → Stream → Stream
unfolding send
deliver e st = if leb e.seq st.last_seq then st else send e st

-- How far the handler is: before `subscribe`, before the backfill, or behind it.
pub data Phase : Type 0 where
  outside subscribed : Phase
  streaming : Stream → Phase

-- The server as a stream sees it. An event that is committed is published before the emitter's lock
-- is free for the next one.
pub record Server : Type 0 where
  pub db : Database
  pub hub : Hub
  pub unpublished : Option Event
  pub phase : Phase

-- The steps of the server around the stream `id` of the run, opened with the cursor `after`: of the
-- emitter, of other handlers and writers, and of the stream itself.
pub data Step (id run after : ℕ) : Server → Server → Type 0 where
  commit :
      (db : Database) (hub : Hub) (p : Phase) (r : ℕ) (type : EventType) (payload : Fields)
      → Step id run after
          (record { db = db; hub = hub; unpublished = none; phase = p })
          (record {
            db = (emit_to r type payload db).1;
            hub = hub;
            unpublished = some (emit_to r type payload db).0;
            phase = p;
          })
  announce :
      (db : Database) (hub : Hub) (p : Phase) (e : Event)
      → Step id run after
          (record { db = db; hub = hub; unpublished = some e; phase = p })
          (record { db = db; hub = publish e hub; unpublished = none; phase = p })
  write :
      (s : Server) (db : Database)
      → db.events ≡ s.db.events
      → Step id run after s (record s { db = db })
  join :
      (s : Server) (other r : ℕ)
      → (other == id) ≡ false
      → Step id run after s (record s { hub = subscribe other r s.hub })
  leave :
      (s : Server) (other : ℕ)
      → (other == id) ≡ false
      → Step id run after s (record s { hub = unsubscribe other s.hub })
  enter :
      (db : Database) (hub : Hub) (u : Option Event)
      → find_subscription id hub ≡ none
      → Step id run after
          (record { db = db; hub = hub; unpublished = u; phase = outside })
          (record { db = db; hub = subscribe id run hub; unpublished = u; phase = subscribed })
  fill :
      (db : Database) (hub : Hub) (u : Option Event)
      → Step id run after
          (record { db = db; hub = hub; unpublished = u; phase = subscribed })
          (record {
            db = db;
            hub = hub;
            unpublished = u;
            phase = streaming (backfill (list_after run after db) (open_at after));
          })
  receive :
      (db : Database) (hub : Hub) (u : Option Event) (st : Stream) (e : Event) (q : List Event)
      → st.returned ≡ false
      → find_subscription id hub ≡ some (record { id = id; run_id = run; queue = e ∷ q })
      → Step id run after
          (record { db = db; hub = hub; unpublished = u; phase = streaming st })
          (record {
            db = db;
            hub = set_queue id q hub;
            unpublished = u;
            phase = streaming (deliver e st);
          })

-- What the server can reach.
pub data Reaches (id run after : ℕ) (from : Server) : Server → Type 0 where
  here : Reaches id run after from from
  next :
      (s t : Server)
      → Reaches id run after from s
      → Step id run after s t
      → Reaches id run after from t
