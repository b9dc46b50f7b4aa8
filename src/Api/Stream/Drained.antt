-- ===== src/Api/Stream/Drained.antt =====
-- A stream catches up by itself: the steps that it takes once nobody else writes.
use atlas_the_agent.Base.{
  ℕ, zero, suc, ◌+◌, ◌≤◌, ◌≡◌, refl, sym, subst, ◌∙◌, ap, Bool, true, false, Bool-cases, ◌⊎◌, inl,
  inr, Option, none, some, List, [], ◌∷◌, ◌++◌, length, length-append, arith, ◌==◌, if◌then◌else◌,
}
use atlas_the_agent.Events.Types.{Event}
use atlas_the_agent.Events.Gapless.{IsGapless}
use atlas_the_agent.Events.Hub.{Hub, publish, find_subscription, set_queue}
use atlas_the_agent.Events.Hub.Queues.{find_subscription-publish, find_subscription-set_queue}
use atlas_the_agent.Persistence.Tables.{Database}
use atlas_the_agent.Persistence.Ledger.{list_after}
use atlas_the_agent.Api.Stream.{
  Stream, deliver, streaming, Server, Step, commit, announce, write, join, leave, enter, fill,
  receive, Reaches, next,
}
use atlas_the_agent.Api.Stream.Closed.{
  EndsRun, IsOngoing, IsClosed, IsClosedBy, IsClosedIn, reached-IsClosedIn,
}
use atlas_the_agent.Api.Stream.Cursor.{queue_of}
use atlas_the_agent.Api.Stream.Delivery.{before, followed, in_stream, sent-list_after}

module _ (id run after : ℕ) where
  -- The publishing of an event that is committed, or a round of the stream's own loop.
  abbrev pub IsOwn : (s t : Server) → Step id run after s t → Type 0
  IsOwn _ _ (commit db hub p r type payload) = ⊥
  IsOwn _ _ (announce db hub p e) = Unit
  IsOwn _ _ (write s db e) = ⊥
  IsOwn _ _ (join s other r e) = ⊥
  IsOwn _ _ (leave s other e) = ⊥
  IsOwn _ _ (enter db hub u e) = ⊥
  IsOwn _ _ (fill db hub u) = ⊥
  IsOwn _ _ (receive db hub u st e q live found) = Unit

  -- So many such steps lead from one server to another.
  pub data Drains : ℕ → Server → Server → Type 0 where
    rest : (s : Server) → Drains zero s s
    step :
        (n : ℕ) (s m t : Server) (move : Step id run after s m)
        → IsOwn s m move
        → Drains n m t
        → Drains (suc n) s t

  Reaches-Drains :
      (n : ℕ) (from s t : Server)
      → Reaches id run after from s
      → Drains n s t
      → Reaches id run after from t
  Reaches-Drains _ from s _ r (rest _) = r
  Reaches-Drains _ from _ _ r (step n s m t move own d) =
      Reaches-Drains n from m t (next s m r move) d

  -- Steps to where nothing waits for the stream, or it has returned.
  record Empties (bound : ℕ) (t : Server) : Type 0 where
    pub steps : ℕ
    pub soon : steps ≤ bound
    pub end : Server
    pub stream : Stream
    pub drains : Drains steps t end
    pub same_db : end.db ≡ t.db
    pub at_end : end.phase ≡ streaming stream
    pub quiet : end.unpublished ≡ none
    pub emptied :
        (stream.returned ≡ true)
        ⊎ ((stream.returned ≡ false)
            × (find_subscription id end.hub ≡ some (record { id = id; run_id = run; queue = [] })))

  receive_all :
      (q : List Event) (db : Database) (hub : Hub) (st : Stream)
      → find_subscription id hub ≡ some (record { id = id; run_id = run; queue = q })
      → Empties (length q) (record { db = db; hub = hub; unpublished = none; phase = streaming st })
  receive_all [] db hub st found = record {
    steps = 0;
    soon = omega arith;
    end = record { db = db; hub = hub; unpublished = none; phase = streaming st };
    stream = st;
    drains = rest _;
    same_db = refl;
    at_end = refl;
    quiet = refl;
    emptied = elim (Bool-cases st.returned) [ inl e ↦ inl e | inr e ↦ inr (e, found) ];
  }
  receive_all (e ∷ q) db hub st found = elim (Bool-cases st.returned) [
    | inl r ↦ record {
      steps = 0;
      soon = omega arith;
      end = record { db = db; hub = hub; unpublished = none; phase = streaming st };
      stream = st;
      drains = rest _;
      same_db = refl;
      at_end = refl;
      quiet = refl;
      emptied = inl r;
    }
    | inr live ↦
        let later =
          receive_all q db (set_queue id q hub) (deliver e st)
            (find_subscription-set_queue id q hub run (e ∷ q) found) in
        record {
          steps = suc later.steps;
          soon = omega (arith, later.soon);
          end = later.end;
          stream = later.stream;
          drains =
              step later.steps _ _ later.end (receive db hub none st e q live found) tt
                later.drains;
          same_db = later.same_db;
          at_end = later.at_end;
          quiet = later.quiet;
          emptied = later.emptied;
        }
  ]

  one_more :
      (b : Bool) (e : Event) (q : List Event) → length (if b then q ++ e ∷ [] else q) ≤ 1 + length q
  one_more true e q = omega (arith, length-append q (e ∷ []))
  one_more false e q = omega arith

  empty_all :
      (u : Option Event) (q : List Event) (db : Database) (hub : Hub) (st : Stream)
      → find_subscription id hub ≡ some (record { id = id; run_id = run; queue = q })
      → Empties
          (2 + length q)
          (record { db = db; hub = hub; unpublished = u; phase = streaming st })
  empty_all none q db hub st found =
      let all = receive_all q db hub st found in
      record {
        steps = all.steps;
        soon = omega (arith, all.soon);
        end = all.end;
        stream = all.stream;
        drains = all.drains;
        same_db = all.same_db;
        at_end = all.at_end;
        quiet = all.quiet;
        emptied = all.emptied;
      }
  empty_all (some e) q db hub st found =
      let all =
        receive_all (if run == e.run_id then q ++ e ∷ [] else q) db (publish e hub) st
          (find_subscription-publish id e hub run q found) in
      record {
        steps = suc all.steps;
        soon = omega (arith, all.soon, one_more (run == e.run_id) e q);
        end = all.end;
        stream = all.stream;
        drains = step all.steps _ _ all.end (announce db hub (streaming st) e) tt all.drains;
        same_db = all.same_db;
        at_end = all.at_end;
        quiet = all.quiet;
        emptied = all.emptied;
      }

  -- Own steps, at most `bound` of them, to where the stream has sent an event that ends a run, or all
  -- of a ledger that has none.
  pub record CatchesUp (bound : ℕ) (t : Server) : Type 0 where
    pub steps : ℕ
    pub soon : steps ≤ bound
    pub end : Server
    pub stream : Stream
    pub drains : Drains steps t end
    pub same_db : end.db ≡ t.db
    pub at_end : end.phase ≡ streaming stream
    pub caught_up :
        EndsRun stream.sent
        ⊎ ((stream.sent ≡ list_after run after t.db) × IsOngoing (list_after run after t.db))

  -- A stream never stays behind: in every state that a server reaches from one where the run's ledger
  -- is numbered 1, 2, 3, …, a stream behind its backfill can go on by itself. The publishing of the
  -- event that is committed and its own rounds, at most two more than its queue is long, lead to where
  -- the last event it sent is one that ends a run, or it has sent every event of the ledger behind
  -- the client's cursor and none of them ends a run.
  pub reached-CatchesUp :
      (db : Database) (hub : Hub)
      → IsGapless run db.events
      → (t : Server) (st : Stream) → Reaches id run after (before id run after db hub) t
      → t.phase ≡ streaming st
      → CatchesUp (2 + length (queue_of (find_subscription id t.hub))) t
  reached-CatchesUp db hub num t st reached live =
      let k = followed id run after db hub num t st reached live in
      let found = (in_stream id run after db hub num t st reached live).0.found in
      let all : Empties (2 + length k.queue) t =
        subst (λ p. Empties (2 + length k.queue) (record t { phase = p })) (sym live)
          (empty_all t.unpublished k.queue t.db t.hub st found) in
      let later =
        Reaches-Drains all.steps (before id run after db hub) t all.end reached all.drains in
      let closed : IsClosed all.stream =
        subst IsClosedIn all.at_end
          (reached-IsClosedIn id run after (before id run after db hub) all.end later tt) in
      record {
        steps = all.steps;
        soon = omega (arith, all.soon, ap (λ s. length (queue_of s)) found);
        end = all.end;
        stream = all.stream;
        drains = all.drains;
        same_db = all.same_db;
        at_end = all.at_end;
        caught_up = elim all.emptied [
          | inl r ↦ inl (subst (λ b. IsClosedBy b all.stream.sent) r closed)
          | inr (r, e) ↦
              let sent =
                sent-list_after id run after db hub num all.end all.stream later all.at_end
                  all.quiet r e
                ∙ ap (λ d. list_after run after d) all.same_db in
              inr (sent, subst IsOngoing sent (subst (λ b. IsClosedBy b all.stream.sent) r closed))
        ];
      }
