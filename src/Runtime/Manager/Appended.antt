-- ===== src/Runtime/Manager/Appended.antt =====
-- The ledger is append-only.
use atlas_the_agent.Base.{append_nil, ℕ, ◌≡◌, sym, ap, ◌∙◌, List, [], ◌∷◌, ◌++◌, Text, append_assoc}
use atlas_the_agent.Core.Json.{Fields}
use atlas_the_agent.Core.Settings.{Settings}
use atlas_the_agent.Events.Types.{EventType, Event}
use atlas_the_agent.Runtime.Manager.Execute.{execute}
use atlas_the_agent.Runtime.Manager.Kept.{execute-keeps}
use atlas_the_agent.Memory.{MemoryService, IsBestEffort, IsBestEffort→ServiceKeeps}
use atlas_the_agent.Process.{Env, World, emit_to}
use atlas_the_agent.Process.Keeps.{IsAside, BearsSessions, BearsEvents}

-- The ledger is `es`, and what was appended to it.
abbrev pub Extends : List Event → World → Type 0
Extends es w = (new : List Event) × (w.db.events ≡ es ++ new)

emit-Extends :
    (es : List Event) (r : ℕ) (type : EventType) (payload : Fields) (w : World)
    → Extends es w
    → Extends es (record w { db = (emit_to r type payload w.db).1 })
unfolding emit_to
emit-Extends es r type payload w h = (
  h.0 ++ (emit_to r type payload w.db).0 ∷ [],
  ap (λ l. l ++ (emit_to r type payload w.db).0 ∷ []) h.1
      ∙ append_assoc es h.0 ((emit_to r type payload w.db).0 ∷ []),
)

Extends-aside : (es : List Event) → IsAside (Extends es)
Extends-aside es = record {
  at_emit = λ r type payload w e h. emit-Extends es r type payload w h;
  at_model = λ c b w e h. h;
  at_tool = λ b w e h. h;
  at_retry = λ t w h. h;
  at_replan = λ w h. h;
  at_tick = λ n w h. h;
  at_memories = λ ms w h. h;
  at_lessons = λ l w h. h;
}

Extends-sessions : (es : List Event) → BearsSessions (Extends es)
Extends-sessions es = record { at_session = λ d w e h. (h.0, e ∙ h.1) }

Extends-events : (es : List Event) → BearsEvents (Extends es)
Extends-events es = record { at_event = emit-Extends es }

-- Whatever the model, the tools, the clock and whoever cancels do, executing a run leaves every event
-- that was in the ledger, of this run and of the others, where it was and as it was: it only appends.
-- The memory is one that is best-effort, as that of the repository is.
pub execute-Extends :
    (env : Env) (s : Settings) (m : MemoryService)
    → IsBestEffort m
    → (r : ℕ) (goal : Text) (w : World) → Extends w.db.events (execute env s m r goal w).1
execute-Extends env s m best r goal w =
    let aside = Extends-aside w.db.events in
    execute-keeps aside (Extends-sessions w.db.events) (Extends-events w.db.events) env s m
      (IsBestEffort→ServiceKeeps (Extends w.db.events) m aside best) r goal w
      ([], sym (append_nil w.db.events))
