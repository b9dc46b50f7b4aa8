-- ===== src/Tests/Streams.antt =====
-- A stream that is opened between two events of a run.
use atlas_the_agent.Base.{◌≡◌, refl, false, none, some, [], ◌∷◌}
use atlas_the_agent.Core.Json.{end}
use atlas_the_agent.Events.Types
use atlas_the_agent.Events.Types.{Event}
use atlas_the_agent.Events.Hub.{Hub, subscribe, publish, find_subscription, set_queue}
use atlas_the_agent.Persistence.Tables.{Database, order_by, update_where}
use atlas_the_agent.Persistence.Ledger.{list_after}
use atlas_the_agent.Process.{emit_to}
use atlas_the_agent.Api.Stream.{
  Stream, open_at, backfill, deliver, streaming, Server, Reaches, here, next, commit, announce,
  enter, fill, receive,
}
use atlas_the_agent.Api.Stream.Windows.{up_to}
use atlas_the_agent.Api.Stream.Drained.{CatchesUp, reached-CatchesUp}
use atlas_the_agent.Api.Stream.Delivery.{before, sent-up_to, sent-list_after}
use atlas_the_agent.Tests.Fixtures.{database}

abbrev first_event : Event
first_event = (emit_to 7 Types.run_started end database).0

abbrev one_event : Database
one_event = (emit_to 7 Types.run_started end database).1

abbrev opened_hub : Hub
opened_hub = subscribe 1 7 []

abbrev filled : Stream
filled = backfill (list_after 7 0 one_event) (open_at 0)

-- The event is committed, backfilled, published, and then skipped.
abbrev caught_up : Server
caught_up = record {
  db = one_event;
  hub = set_queue 1 [] (publish first_event opened_hub);
  unpublished = none;
  phase = streaming (deliver first_event filled);
}

live : filled.returned ≡ false
unfolding backfill list_after emit_to order_by
live = refl

queued :
    find_subscription 1 (publish first_event opened_hub)
    ≡ some (record { id = 1; run_id = 7; queue = first_event ∷ [] })
unfolding find_subscription publish subscribe emit_to update_where
queued = refl

Reaches-caught_up : Reaches 1 7 0 (before 1 7 0 database []) caught_up
unfolding find_subscription
Reaches-caught_up =
    next _ _
      (next _ _
        (next _ _
          (next _ _ (next _ _ here (enter database [] none refl))
            (commit database opened_hub _ 7 Types.run_started end))
          (fill one_event opened_hub (some first_event)))
        (announce one_event opened_hub _ first_event))
      (receive one_event (publish first_event opened_hub) none filled first_event [] live queued)

sent-up_to_example :
    (deliver first_event filled).sent
    ≡ up_to (deliver first_event filled).last_seq (list_after 7 0 one_event)
sent-up_to_example =
    sent-up_to 1 7 0 database [] tt caught_up (deliver first_event filled) Reaches-caught_up refl

unreturned : (deliver first_event filled).returned ≡ false
unfolding deliver backfill list_after emit_to order_by
unreturned = refl

drained : find_subscription 1 caught_up.hub ≡ some (record { id = 1; run_id = 7; queue = [] })
unfolding find_subscription publish subscribe emit_to set_queue update_where
drained = refl

sent-list_after_example : (deliver first_event filled).sent ≡ list_after 7 0 one_event
sent-list_after_example =
    sent-list_after 1 7 0 database [] tt caught_up (deliver first_event filled) Reaches-caught_up
      refl refl unreturned drained

-- The one event is sent once.
sent_once : (deliver first_event filled).sent ≡ first_event ∷ []
unfolding deliver backfill list_after emit_to order_by
sent_once = refl

-- The stream before that: the event of its backfill is yet to be published.
abbrev behind : Server
behind = record {
  db = one_event;
  hub = opened_hub;
  unpublished = some first_event;
  phase = streaming filled;
}

Reaches-behind : Reaches 1 7 0 (before 1 7 0 database []) behind
unfolding find_subscription
Reaches-behind =
    next _ _
      (next _ _ (next _ _ here (enter database [] none refl))
        (commit database opened_hub _ 7 Types.run_started end))
      (fill one_event opened_hub (some first_event))

reached-CatchesUp_example : CatchesUp 1 7 0 2 behind
unfolding find_subscription subscribe
reached-CatchesUp_example = reached-CatchesUp 1 7 0 database [] tt behind filled Reaches-behind refl
