-- ===== src/Api/Stream/Cursor.antt =====
-- The cursor of a stream against the ledger and against its queue.
use atlas_the_agent.Base.{
  append_nil, ℕ, ◌+◌, ◌≤◌, ◌≡◌, refl, sym, max, ◌∙◌, ap, Bool, true, false, Option, none, some,
  List, [], ◌∷◌, ◌++◌, length, length-append, leb, ◌==◌, arith, if◌then◌else◌,
}
use atlas_the_agent.Events.Types.{Event}
use atlas_the_agent.Events.Gapless.{Numbered, of_run, IsGapless}
use atlas_the_agent.Events.Hub.{Hub, Subscription, find_subscription}
use atlas_the_agent.Persistence.Tables.{Database}
use atlas_the_agent.Persistence.Ledger.{list_after}
use atlas_the_agent.Api.Stream.{
  Stream, open_at, send, backfill, deliver, Phase, outside, subscribed, streaming, Server,
}
use atlas_the_agent.Api.Stream.Windows.{
  behind, window, window-append, ledger_behind, list_after-behind, Numbered-next, length-behind,
  window_next,
}
use atlas_the_agent.Api.Stream.Backlog.{backfill-IsFilled}

-- The event that is committed and not yet published, if it is one of the run.
abbrev pub pending : ℕ → Option Event → List Event
pending run none = []
pending run (some e) = if e.run_id == run then e ∷ [] else []

-- The queue of the subscription: the published events behind those that were taken out.
pub record IsQueued (id run : ℕ) (published : List Event) (hub : Hub) (taken queue : List Event)
    : Type 0 where
  pub found : find_subscription id hub ≡ some (record { id = id; run_id = run; queue = queue })
  pub split : published ≡ taken ++ queue

-- What a stream has sent is the window of the ledger up to its cursor, and no event was taken out of
-- the queue beyond the cursor.
pub record HasSent (after : ℕ) (ledger taken : List Event) (st : Stream) : Type 0 where
  pub sent : st.sent ≡ window after st.last_seq ledger
  pub opened : after ≤ st.last_seq
  pub bounded : st.last_seq ≤ max after (length ledger)
  pub ahead : st.returned ≡ false → length taken ≤ st.last_seq

abbrev pub queue_of : Option Subscription → List Event
queue_of none = []
queue_of (some s) = s.queue

abbrev pub InPhase :
    ℕ → ℕ → ℕ → List Event → List Event → List Event → List Event → Hub → Phase → Type 0
InPhase id run after ledger published taken queue hub outside = Unit
InPhase id run after ledger published taken queue hub subscribed =
    IsQueued id run published hub taken queue
InPhase id run after ledger published taken queue hub (streaming st) =
    IsQueued id run published hub taken queue × HasSent after ledger taken st

pub record Follows (id run after : ℕ) (s : Server) : Type 0 where
  pub published : List Event
  pub taken : List Event
  pub queue : List Event
  pub gapless : IsGapless run s.db.events
  pub ledger : of_run run s.db.events ≡ published ++ pending run s.unpublished
  pub in_phase : InPhase id run after (of_run run s.db.events) published taken queue s.hub s.phase

module _ (id run after : ℕ) where
  -- A new event of the ledger stays outside of every window that is open.
  window_commit :
      (l : List Event) (e : Event) (b : ℕ)
      → e.seq ≡ 1 + length l
      → b ≤ max after (length l)
      → window after b (l ++ e ∷ []) ≡ window after b l
  window_commit l e b h k =
      window-append after b l (e ∷ [])
      ∙ ap (λ m. window after b l ++ m) (ground (arith, h, k))
      ∙ append_nil (window after b l)

  -- The next event is either sent already, or the next one to send.
  module _ (st : Stream) (e : Event) (taken rest : List Event)
      (num : Numbered 1 (taken ++ e ∷ rest)) (h : HasSent after (taken ++ e ∷ rest) taken st)
      (reach : length taken ≤ st.last_seq) where
    its_number : e.seq ≡ 1 + length taken
    its_number = (Numbered-next 1 taken e rest num).0

    deliver_step :
        (b : Bool)
        → leb e.seq st.last_seq ≡ b
        → HasSent after (taken ++ e ∷ rest) (taken ++ e ∷ []) (if b then st else send e st)
    unfolding send
    deliver_step true t = record {
      sent = h.sent;
      opened = h.opened;
      bounded = h.bounded;
      ahead = λ u. ground (arith, t, its_number, length-append taken (e ∷ []));
    }
    deliver_step false t =
        let same : st.last_seq ≡ length taken = ground (arith, t, its_number, reach) in
        record {
          sent =
              ap (λ l. l ++ e ∷ []) (h.sent ∙ ap (λ b. window after b (taken ++ e ∷ rest)) same)
              ∙ sym (window_next after taken e rest num (omega (arith, h.opened, same)));
          opened = omega (arith, h.opened, same, its_number);
          bounded = omega (arith, its_number, length-append taken (e ∷ rest));
          ahead = λ u. omega (arith, its_number, length-append taken (e ∷ []));
        }

    pub deliver-HasSent : HasSent after (taken ++ e ∷ rest) (taken ++ e ∷ []) (deliver e st)
    unfolding deliver
    deliver-HasSent = deliver_step (leb e.seq st.last_seq) refl

  -- Behind the backfill.
  pub fill-HasSent :
      (db : Database) (taken : List Event)
      → IsGapless run db.events
      → length taken ≤ length (of_run run db.events)
      → HasSent after
          (of_run run db.events)
          taken
          (backfill (list_after run after db) (open_at after))
  fill-HasSent db taken num le =
      rw (list_after-behind run after db num) (filled (of_run run db.events) num le)
    where
      filled :
          (l : List Event)
          → Numbered 1 l
          → length taken ≤ length l
          → HasSent after l taken (backfill (behind after l) (open_at after))
      filled l num le =
          let k =
            backfill-IsFilled (behind after l) (open_at after) (ledger_behind after l num) refl in
          record {
            sent = k.sent;
            opened = k.onward;
            bounded = omega (arith, k.bounded, length-behind after l num);
            ahead = λ u. omega (arith, k.whole u, length-behind after l num, le);
          }

  -- An event that is committed.
  pub commit-HasSent :
      (l taken : List Event) (e : Event) (st : Stream)
      → e.seq ≡ 1 + length l
      → HasSent after l taken st
      → HasSent after (l ++ e ∷ []) taken st
  commit-HasSent l taken e st n h = record {
    sent = h.sent ∙ sym (window_commit l e st.last_seq n h.bounded);
    opened = h.opened;
    bounded = omega (arith, h.bounded, length-append l (e ∷ []));
    ahead = h.ahead;
  }

  -- A change of the ledger, of the hub, or of both, in each phase.
  pub move :
      (p : Phase) (l m was now taken q r : List Event) (hub new : Hub)
      → (IsQueued id run was hub taken q → IsQueued id run now new taken r)
      → ((st : Stream) → HasSent after l taken st → HasSent after m taken st)
      → InPhase id run after l was taken q hub p
      → InPhase id run after m now taken r new p
  move outside l m was now taken q r hub new f g h = tt
  move subscribed l m was now taken q r hub new f g h = f h
  move (streaming st) l m was now taken q r hub new f g h = (f h.0, g st h.1)
