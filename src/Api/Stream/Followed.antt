-- ===== src/Api/Stream/Followed.antt =====
-- A stream follows the ledger: the invariant of the server, kept by every step.
use atlas_the_agent.Base.{
  append_nil, append_assoc, ℕ, ◌≡◌, refl, sym, subst, ◌∙◌, ap, true, false, Bool-cases, inl, inr,
  Option, none, some, List, [], ◌∷◌, ◌++◌, length, length-append, ◌==◌, arith, if◌then◌else◌,
}
use atlas_the_agent.Core.Json.{Fields}
use atlas_the_agent.Events.Types.{EventType, Event}
use atlas_the_agent.Events.Gapless.{
  Numbered, of_run, emit-IsGapless, of_run-append_mine, of_run-append_other, max_seq-Numbered,
}
use atlas_the_agent.Events.Hub.{Hub, subscribe, publish, find_subscription, set_queue}
use atlas_the_agent.Events.Hub.Queues.{
  find_subscription-subscribe_new, find_subscription-publish, find_subscription-set_queue,
}
use atlas_the_agent.Persistence.Tables.{Database}
use atlas_the_agent.Persistence.Ledger.{list_after}
use atlas_the_agent.Process.{emit_to}
use atlas_the_agent.Api.Stream.{
  Stream, open_at, backfill, deliver, Phase, outside, subscribed, streaming, Server,
}
use atlas_the_agent.Api.Stream.Cursor.{
  pending, HasSent, queue_of, InPhase, Follows, deliver-HasSent, fill-HasSent, commit-HasSent, move,
}

module _ (id run after : ℕ) where
  pub commit-Follows :
      (db : Database) (hub : Hub) (p : Phase) (r : ℕ) (type : EventType) (payload : Fields)
      → Follows id run after (record { db = db; hub = hub; unpublished = none; phase = p })
      → Follows id run after (record {
        db = (emit_to r type payload db).1;
        hub = hub;
        unpublished = some (emit_to r type payload db).0;
        phase = p;
      })
  unfolding emit_to
  commit-Follows db hub p r type payload h =
      let e : Event = (emit_to r type payload db).0 in
      elim (Bool-cases (r == run)) [
        | inl mine ↦
            let grown = of_run-append_mine run db.events e mine in
            record {
              published = h.published;
              taken = h.taken;
              queue = h.queue;
              gapless = emit-IsGapless r run type payload db h.gapless;
              ledger =
                  grown ∙ ap (λ l. l ++ e ∷ []) (h.ledger ∙ append_nil h.published) ∙ rw mine refl;
              in_phase =
                  subst (λ l. InPhase id run after l h.published h.taken h.queue hub p) (sym grown)
                    (move id run after p (of_run run db.events) (of_run run db.events ++ e ∷ [])
                      h.published h.published h.taken h.queue h.queue hub hub (λ k. k)
                      (λ st k.
                        commit-HasSent id run after (of_run run db.events) h.taken e st
                          (ground (arith, mine, max_seq-Numbered run 0 db.events h.gapless)) k)
                      h.in_phase);
            }
        | inr other ↦
            let same = of_run-append_other run db.events e other in
            record {
              published = h.published;
              taken = h.taken;
              queue = h.queue;
              gapless = emit-IsGapless r run type payload db h.gapless;
              ledger = same ∙ h.ledger ∙ rw other refl;
              in_phase =
                  subst (λ l. InPhase id run after l h.published h.taken h.queue hub p) (sym same)
                    h.in_phase;
            }
      ]

  queue_pending :
      (e : Event) (q : List Event)
      → (if run == e.run_id then q ++ e ∷ [] else q) ≡ q ++ pending run (some e)
  queue_pending e q = elim (Bool-cases (e.run_id == run)) [
    | inl m ↦ (let k : (run == e.run_id) ≡ true = ground (arith, m) in rw (k, m) refl)
    | inr m ↦
        (let k : (run == e.run_id) ≡ false = ground (arith, m) in rw (k, m) (sym (append_nil q)))
  ]

  pub announce-Follows :
      (db : Database) (hub : Hub) (p : Phase) (e : Event)
      → Follows id run after (record { db = db; hub = hub; unpublished = some e; phase = p })
      → Follows id run after
          (record { db = db; hub = publish e hub; unpublished = none; phase = p })
  announce-Follows db hub p e h = record {
    published = h.published ++ pending run (some e);
    taken = h.taken;
    queue = h.queue ++ pending run (some e);
    gapless = h.gapless;
    ledger = h.ledger ∙ sym (append_nil (h.published ++ pending run (some e)));
    in_phase =
        move id run after p (of_run run db.events) (of_run run db.events) h.published
          (h.published ++ pending run (some e)) h.taken h.queue (h.queue ++ pending run (some e))
          hub (publish e hub)
          (λ k. record {
            found =
                find_subscription-publish id e hub run h.queue k.found
                ∙ ap (λ x. some (record { id = id; run_id = run; queue = x }))
                    (queue_pending e h.queue);
            split =
                ap (λ l. l ++ pending run (some e)) k.split
                ∙ append_assoc h.taken h.queue (pending run (some e));
          })
          (λ st k. k) h.in_phase;
  }

  pub write-Follows :
      (s : Server) (db : Database)
      → db.events ≡ s.db.events
      → Follows id run after s
      → Follows id run after (record s { db = db })
  write-Follows s db e h = record {
    published = h.published;
    taken = h.taken;
    queue = h.queue;
    gapless = rw e h.gapless;
    ledger = rw e h.ledger;
    in_phase = rw e h.in_phase;
  }

  pub hub-Follows :
      (s : Server) (new : Hub)
      → find_subscription id new ≡ find_subscription id s.hub
      → Follows id run after s
      → Follows id run after (record s { hub = new })
  hub-Follows s new e h = record {
    published = h.published;
    taken = h.taken;
    queue = h.queue;
    gapless = h.gapless;
    ledger = h.ledger;
    in_phase =
        move id run after s.phase (of_run run s.db.events) (of_run run s.db.events) h.published
          h.published h.taken h.queue h.queue s.hub new
          (λ k. record { found = e ∙ k.found; split = k.split }) (λ st k. k) h.in_phase;
  }

  pub enter-Follows :
      (db : Database) (hub : Hub) (u : Option Event)
      → find_subscription id hub ≡ none
      → Follows id run after (record { db = db; hub = hub; unpublished = u; phase = outside })
      → Follows id run after
          (record { db = db; hub = subscribe id run hub; unpublished = u; phase = subscribed })
  enter-Follows db hub u e h = record {
    published = h.published;
    taken = h.published;
    queue = [];
    gapless = h.gapless;
    ledger = h.ledger;
    in_phase = record {
      found = find_subscription-subscribe_new id run hub e;
      split = sym (append_nil h.published);
    };
  }

  pub fill-Follows :
      (db : Database) (hub : Hub) (u : Option Event)
      → Follows id run after (record { db = db; hub = hub; unpublished = u; phase = subscribed })
      → Follows id run after (record {
        db = db;
        hub = hub;
        unpublished = u;
        phase = streaming (backfill (list_after run after db) (open_at after));
      })
  fill-Follows db hub u h = record {
    published = h.published;
    taken = h.taken;
    queue = h.queue;
    gapless = h.gapless;
    ledger = h.ledger;
    in_phase = (
      h.in_phase,
      fill-HasSent id run after db h.taken h.gapless (
          omega (
            arith,
            ap (λ l. length l) h.ledger,
            ap (λ l. length l) h.in_phase.split,
            length-append h.published (pending run u),
            length-append h.taken h.queue,
          )),
    );
  }

  pub receive-Follows :
      (db : Database) (hub : Hub) (u : Option Event) (st : Stream) (e : Event) (q : List Event)
      → st.returned ≡ false
      → find_subscription id hub ≡ some (record { id = id; run_id = run; queue = e ∷ q })
      → Follows id run after (record { db = db; hub = hub; unpublished = u; phase = streaming st })
      → Follows id run after (record {
        db = db;
        hub = set_queue id q hub;
        unpublished = u;
        phase = streaming (deliver e st);
      })
  receive-Follows db hub u st e q live found h =
      let eq : h.queue ≡ e ∷ q = ap queue_of (sym h.in_phase.0.found ∙ found) in
      let rest = q ++ pending run u in
      let split : h.published ≡ h.taken ++ e ∷ q = h.in_phase.0.split ∙ ap (λ l. h.taken ++ l) eq in
      let whole : of_run run db.events ≡ h.taken ++ e ∷ rest =
        h.ledger
        ∙ ap (λ l. l ++ pending run u) split
        ∙ append_assoc h.taken (e ∷ q) (pending run u) in
      record {
        published = h.published;
        taken = h.taken ++ e ∷ [];
        queue = q;
        gapless = h.gapless;
        ledger = h.ledger;
        in_phase = (
          record {
            found = find_subscription-set_queue id q hub run (e ∷ q) found;
            split = split ∙ sym (append_assoc h.taken (e ∷ []) q);
          },
          subst (λ l. HasSent after l (h.taken ++ e ∷ []) (deliver e st)) (sym whole)
              (deliver-HasSent id run after st e h.taken rest
                (subst (λ l. Numbered 1 l) whole h.gapless)
                (subst (λ l. HasSent after l h.taken st) whole h.in_phase.1)
                (h.in_phase.1.ahead live)),
        );
      }
