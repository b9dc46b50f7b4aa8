-- ===== src/Recovery/Track.antt =====
-- The fold of the ledger refines the state machine of a run's status.
pub mod Ledger
use atlas_the_agent.Base.{
  Text, ℕ, ◌≡◌, refl, subst, Bool, true, false, Option, none, some, List, [], ◌∷◌, map,
}
use atlas_the_agent.Core.Json.{Json, null, Fields, get}
use atlas_the_agent.Core.Python.{Python}
use atlas_the_agent.Events.Types.{EventType, Event}
use atlas_the_agent.Agent.Schemas.{TaskStatus, RunStatus}
use atlas_the_agent.Agent.Fields.{◌>>=◌}
use atlas_the_agent.Recovery.Replay.{
  str_or_none, put_status, on_index, Item, ReplayState, unpack, start, apply_event, fold_from,
  fold_events, put_plan, apply_task_event, plan_event, push_token, join_tokens,
}

-- A run's status, and whether it is final.
abbrev pub Phase : Type 0
Phase = RunStatus × Bool

-- The state machine: what each event makes of the phase. No payload matters.
unfoldable pub step : EventType → Phase → Phase
step EventType.run_created p = (RunStatus.created, p.1)
step EventType.run_started p = (RunStatus.running, p.1)
step EventType.run_completed p = (RunStatus.done, true)
step EventType.run_failed p = (RunStatus.failed, true)
step EventType.run_cancelled p = (RunStatus.cancelled, true)
step _ p = p

unfoldable pub track : List Event → Phase → Phase
unfolding step
track [] p = p
track (e ∷ es) p = track es (step e.type p)

abbrev pub phase_of : ReplayState → Phase
phase_of st = (st.status, st.terminal)

-- A fold that does not raise ends in the phase `p`.
abbrev Agrees : Phase → Option ReplayState → Type 0
Agrees p none = Unit
Agrees p (some st) = phase_of st ≡ p

bind-Agrees :
    {A : Type 0} (p : Phase) (o : Option A) (f : A → Option ReplayState)
    → ((a : A) → Agrees p (f a))
    → Agrees p (o >>= f)
bind-Agrees p none f h = tt
bind-Agrees p (some a) f h = h a

push_token-phase : (o : Option Text) (st : ReplayState) → phase_of (push_token o st) ≡ phase_of st
push_token-phase none st = refl
push_token-phase (some t) st = refl

module _ (py : Python) (st : ReplayState) where
  index-Agrees :
      (o : Option Json) (f : Json → Option ReplayState)
      → ((j : Json) → Agrees (phase_of st) (f j))
      → Agrees (phase_of st) (on_index st f o)
  index-Agrees none f h = refl
  index-Agrees (some null) f h = refl
  index-Agrees (some j) f h = h j

  apply_task_event-Agrees :
      (s : TaskStatus) (e : Item) → Agrees (phase_of st) (apply_task_event py s e st)
  apply_task_event-Agrees s e =
      index-Agrees (get e.payload "index") _
        (λ j. bind-Agrees _ (py.int_of j) (put_status s e st) (λ i. refl))

  plan_event-Agrees : (e : Item) → Agrees (phase_of st) (plan_event py e st)
  plan_event-Agrees e =
      bind-Agrees _ (put_plan py (get e.payload "tasks") st.tasks) _ (λ tasks. refl)

  module _ (r n : ℕ) (fs : Fields) where
    abbrev item : EventType → Item
    item type = unpack (record { run_id = r; seq = n; type = type; payload = fs })

    apply_event-Agrees :
        (type : EventType) → Agrees (step type (phase_of st)) (apply_event py (item type) st)
    unfolding apply_event step
    apply_event-Agrees EventType.run_created = refl
    apply_event-Agrees EventType.run_started = refl
    apply_event-Agrees EventType.run_completed = refl
    apply_event-Agrees EventType.run_failed = refl
    apply_event-Agrees EventType.run_cancelled = refl
    apply_event-Agrees EventType.answer_completed = refl
    apply_event-Agrees EventType.log = refl
    apply_event-Agrees EventType.thought = refl
    apply_event-Agrees EventType.tool_call = refl
    apply_event-Agrees EventType.tool_result = refl
    apply_event-Agrees EventType.task_reflected = refl
    apply_event-Agrees EventType.budget_exceeded = refl
    apply_event-Agrees EventType.memory_recalled = refl
    apply_event-Agrees EventType.memory_written = refl
    apply_event-Agrees EventType.answer_token = push_token-phase (str_or_none (get fs "text")) st
    apply_event-Agrees EventType.plan_created = plan_event-Agrees (item EventType.plan_created)
    apply_event-Agrees EventType.plan_replanned = plan_event-Agrees (item EventType.plan_replanned)
    apply_event-Agrees EventType.task_started =
        apply_task_event-Agrees TaskStatus.running (item EventType.task_started)
    apply_event-Agrees EventType.task_completed =
        apply_task_event-Agrees TaskStatus.done (item EventType.task_completed)
    apply_event-Agrees EventType.task_failed =
        apply_task_event-Agrees TaskStatus.failed (item EventType.task_failed)
    apply_event-Agrees EventType.task_retrying =
        apply_task_event-Agrees TaskStatus.retrying (item EventType.task_retrying)
    apply_event-Agrees EventType.task_skipped =
        apply_task_event-Agrees TaskStatus.skipped (item EventType.task_skipped)
    apply_event-Agrees EventType.task_cancelled =
        apply_task_event-Agrees TaskStatus.cancelled (item EventType.task_cancelled)

then-Agrees :
    (p : Phase) (o : Option ReplayState) (es : List Event) (f : ReplayState → Option ReplayState)
    → ((st : ReplayState) → Agrees (track es (phase_of st)) (f st))
    → Agrees p o
    → Agrees (track es p) (o >>= f)
then-Agrees p none es f h e = tt
then-Agrees p (some st) es f h e = subst (λ q. Agrees (track es q) (f st)) e (h st)

fold_from-Agrees :
    (py : Python) (st : ReplayState) (es : List Event)
    → Agrees (track es (phase_of st)) (fold_from py st (map unpack es))
unfolding fold_from track
fold_from-Agrees py st [] = refl
fold_from-Agrees py st (e ∷ es) =
    then-Agrees _ (apply_event py (unpack e) st) es (λ st'. fold_from py st' (map unpack es))
      (λ st'. fold_from-Agrees py st' es) (apply_event-Agrees py st e.run_id e.seq e.payload e.type)

joined-Agrees :
    (p : Phase) (o : Option ReplayState) → Agrees p o → Agrees p (o >>= λ st. some (join_tokens st))
joined-Agrees p none h = tt
joined-Agrees p (some st) h = h

found :
    (p : Phase) (o : Option ReplayState) (st : ReplayState)
    → o ≡ some st
    → Agrees p o
    → phase_of st ≡ p
found p o st e h = subst (Agrees p) e h

-- The status that `fold_events` gives to a run, and whether it is terminal, are those of the state
-- machine that reads only the types of the events, whatever their payloads, if no payload makes the
-- fold raise.
pub fold_events-tracks :
    (py : Python) (es : List Event) (st : ReplayState)
    → fold_events py (map unpack es) ≡ some st
    → phase_of st ≡ track es (RunStatus.created, false)
unfolding fold_events
fold_events-tracks py es st e =
    found _ (fold_events py (map unpack es)) st e
      (joined-Agrees _ (fold_from py start (map unpack es)) (fold_from-Agrees py start es))
