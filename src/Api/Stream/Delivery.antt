-- ===== src/Api/Stream/Delivery.antt =====
-- What a stream delivers, in every state that the server reaches.
use atlas_the_agent.Base.{
  append_nil, ℕ, ◌≡◌, sym, subst, ◌∙◌, ap, false, none, some, [], ◌++◌, length, arith,
}
use atlas_the_agent.Events.Gapless.{of_run, IsGapless}
use atlas_the_agent.Events.Hub.{Hub, subscribe, unsubscribe, find_subscription}
use atlas_the_agent.Events.Hub.Queues.{
  find_subscription-subscribe_other, find_subscription-unsubscribe,
}
use atlas_the_agent.Persistence.Tables.{Database}
use atlas_the_agent.Persistence.Ledger.{list_after}
use atlas_the_agent.Api.Stream.{
  Stream, outside, streaming, Server, Step, commit, announce, write, join, leave, enter, fill,
  receive, Reaches, here, next,
}
use atlas_the_agent.Api.Stream.Windows.{up_to, window_whole, list_after-behind}
use atlas_the_agent.Api.Stream.Cursor.{pending, IsQueued, HasSent, queue_of, InPhase, Follows}
use atlas_the_agent.Api.Stream.Followed.{
  commit-Follows, announce-Follows, write-Follows, hub-Follows, enter-Follows, fill-Follows,
  receive-Follows,
}

module _ (id run after : ℕ) where
  step-Follows :
      (s t : Server) → Step id run after s t → Follows id run after s → Follows id run after t
  step-Follows _ _ (commit db hub p r type payload) h =
      commit-Follows id run after db hub p r type payload h
  step-Follows _ _ (announce db hub p e) h = announce-Follows id run after db hub p e h
  step-Follows _ _ (write s db e) h = write-Follows id run after s db e h
  step-Follows _ _ (join s other r e) h =
      hub-Follows id run after s (subscribe other r s.hub)
        (find_subscription-subscribe_other id other r s.hub e) h
  step-Follows _ _ (leave s other e) h =
      hub-Follows id run after s (unsubscribe other s.hub)
        (find_subscription-unsubscribe id other s.hub e) h
  step-Follows _ _ (enter db hub u e) h = enter-Follows id run after db hub u e h
  step-Follows _ _ (fill db hub u) h = fill-Follows id run after db hub u h
  step-Follows _ _ (receive db hub u st e q live found) h =
      receive-Follows id run after db hub u st e q live found h

  reached-Follows :
      (s t : Server) → Reaches id run after s t → Follows id run after s → Follows id run after t
  reached-Follows s _ here h = h
  reached-Follows s _ (next m t r step) h = step-Follows m t step (reached-Follows s m r h)

  start-Follows :
      (db : Database) (hub : Hub)
      → IsGapless run db.events
      → Follows id run after (record { db = db; hub = hub; unpublished = none; phase = outside })
  start-Follows db hub h = record {
    published = of_run run db.events;
    taken = [];
    queue = [];
    gapless = h;
    ledger = sym (append_nil (of_run run db.events));
    in_phase = tt;
  }

  -- A server before the stream is opened.
  abbrev pub before : Database → Hub → Server
  before db hub = record { db = db; hub = hub; unpublished = none; phase = outside }

  module _ (db : Database) (hub : Hub) (num : IsGapless run db.events) (t : Server) (st : Stream)
      (reached : Reaches id run after (before db hub) t) (live : t.phase ≡ streaming st) where
    pub followed : Follows id run after t
    followed = reached-Follows (before db hub) t reached (start-Follows db hub num)

    pub in_stream :
        IsQueued id run followed.published t.hub followed.taken followed.queue
        × HasSent after (of_run run t.db.events) followed.taken st
    in_stream =
        subst
          (λ p.
            InPhase id run after (of_run run t.db.events) followed.published followed.taken
              followed.queue t.hub p)
          live followed.in_phase

    -- No event is missed, doubled or out of order: whatever emitters, writers and other streams do,
    -- in every state that a server reaches from one where the run's ledger is numbered 1, 2, 3, …,
    -- the stream has sent what `list_after` returns of the events behind the cursor that the client
    -- gave, as far as the number of the last event sent.
    pub sent-up_to : st.sent ≡ up_to st.last_seq (list_after run after t.db)
    sent-up_to =
        in_stream.1.sent
        ∙ ap (λ l. up_to st.last_seq l) (sym (list_after-behind run after t.db followed.gapless))

    -- A stream catches up: once nothing waits in its queue or to be published, a stream that has not
    -- returned has sent every event of the run behind the cursor that the client gave, in the order of
    -- `list_after`.
    pub sent-list_after :
        t.unpublished ≡ none
        → st.returned ≡ false
        → find_subscription id t.hub ≡ some (record { id = id; run_id = run; queue = [] })
        → st.sent ≡ list_after run after t.db
    sent-list_after quiet unreturned drained =
        let k = followed in
        let empty : k.queue ≡ [] = ap queue_of (sym in_stream.0.found ∙ drained) in
        let whole : of_run run t.db.events ≡ k.taken =
          k.ledger
          ∙ ap (λ u. k.published ++ pending run u) quiet
          ∙ append_nil k.published
          ∙ in_stream.0.split
          ∙ ap (λ q. k.taken ++ q) empty
          ∙ append_nil k.taken in
        in_stream.1.sent
        ∙ window_whole after st.last_seq 1 (of_run run t.db.events) k.gapless
            (omega (arith, ap (λ l. length l) whole, in_stream.1.ahead unreturned))
        ∙ sym (list_after-behind run after t.db k.gapless)
