-- ===== src/Process/Keeps.antt =====
-- Invariants of actions, one rule for each way to build an action.
use atlas_the_agent.Base.{ℕ, ◌+◌, ◌≡◌, refl, Bool, true, false, Option, List, Text, if◌then◌else◌}
use atlas_the_agent.Core.Json.{Fields}
use atlas_the_agent.Events.Types.{EventType}
use atlas_the_agent.Agent.Schemas.{TaskId}
use atlas_the_agent.Persistence.Tables.{Database}
use atlas_the_agent.Runtime.Budget.{
  BudgetCategory, RunBudget, Charge, charged, exceeded, charge_model_call, charge_tool_call,
  charge_retry, charge_replan,
}
use atlas_the_agent.Memory.Schemas.{MemoryView}
use atlas_the_agent.Tools.Registry.{execute}
use atlas_the_agent.Llm.{LlmMessage, Reply}
use atlas_the_agent.Process.Monad.{
  handle, proceed, Exc, Env, World, Result, ok, err, Action, pure, raise, ◌>>=◌, catch, reads,
  session, session_value,
}
use atlas_the_agent.Process.Effects.{
  settle, reply_of, emit_to, emit, tick, call_model, call_tool, is_set, complete_as, execute_tool,
}

-- `m` keeps `P`, whether it returns or raises.
pub record Keeps {A : Type 0} (P : World → Type 0) (m : Action A) : Type 0 where
  pub at : (w : World) → P w → P (m w).1

module _ {A : Type 0} {P : World → Type 0} where
  pub Keeps-pure : (a : A) → Keeps P (pure a)
  Keeps-pure a = record { at = λ w h. h }

  pub Keeps-raise : (e : Exc) → Keeps P (raise {A = A} e)
  Keeps-raise e = record { at = λ w h. h }

  pub Keeps-reads : (f : World → A) → Keeps P (reads f)
  Keeps-reads f = record { at = λ w h. h }

  pub Keeps-if : (b : Bool) (m n : Action A) → Keeps P m → Keeps P n → Keeps P (if b then m else n)
  Keeps-if true m n km kn = km
  Keeps-if false m n km kn = kn

  Keeps-handle :
      (h : Exc → Action A) (x : Result A × World)
      → ((e : Exc) → Keeps P (h e))
      → P x.1
      → P (handle h x).1
  Keeps-handle h (ok a, w) kh p = p
  Keeps-handle h (err e, w) kh p = (kh e).at w p

  pub Keeps-catch :
      (m : Action A) (h : Exc → Action A)
      → Keeps P m
      → ((e : Exc) → Keeps P (h e))
      → Keeps P (catch m h)
  Keeps-catch m h km kh = record { at = λ w p. Keeps-handle h (m w) kh (km.at w p) }

module _ {A B : Type 0} {P : World → Type 0} where
  Keeps-proceed :
      (f : A → Action B) (x : Result A × World)
      → ((a : A) → Keeps P (f a))
      → P x.1
      → P (proceed f x).1
  Keeps-proceed f (ok a, w) kf p = (kf a).at w p
  Keeps-proceed f (err e, w) kf p = p

  pub Keeps-bind :
      (m : Action A) (f : A → Action B) → Keeps P m → ((a : A) → Keeps P (f a)) → Keeps P (m >>= f)
  Keeps-bind m f km kf = record { at = λ w p. Keeps-proceed f (m w) kf (km.at w p) }

-- The events that turn the status of a run.
abbrev pub is_turning : EventType → Bool
is_turning EventType.run_created = true
is_turning EventType.run_started = true
is_turning EventType.run_completed = true
is_turning EventType.run_failed = true
is_turning EventType.run_cancelled = true
is_turning _ = false

-- What an invariant must bear to be kept by an action that writes no row but those of the ledger:
-- an event that does not turn the run, a call and the charge in front of it, a charge for a retry or
-- a replan, the passing of time.
pub record IsAside (P : World → Type 0) : Type 0 where
  pub at_emit :
      (r : ℕ) (type : EventType) (payload : Fields) (w : World)
      → is_turning type ≡ false
      → P w
      → P (record w { db = (emit_to r type payload w.db).1 })
  pub at_model :
      (c : BudgetCategory) (b : RunBudget) (w : World)
      → charge_model_call c w.budget ≡ charged b
      → P w
      → P (record w { budget = b; clock = w.clock + 1; model_called = w.model_called + 1 })
  pub at_tool :
      (b : RunBudget) (w : World)
      → charge_tool_call w.budget ≡ charged b
      → P w
      → P (record w { budget = b; clock = w.clock + 1; tool_called = w.tool_called + 1 })
  pub at_retry : (t : TaskId) (w : World) → P w → P (record w { budget = charge_retry t w.budget })
  pub at_replan : (w : World) → P w → P (record w { budget = charge_replan w.budget })
  pub at_tick : (n : ℕ) (w : World) → P w → P (record w { clock = n })
  pub at_memories :
      (ms : List MemoryView) (w : World) → P w → P (record w { db = record w.db { memories = ms } })
  pub at_lessons : (l : Option Text) (w : World) → P w → P (record w { lessons = l })

-- What an invariant must bear to be kept by a unit of work that leaves the ledger alone.
pub record BearsSessions (P : World → Type 0) : Type 0 where
  pub at_session :
      (d : Database) (w : World) → d.events ≡ w.db.events → P w → P (record w { db = d })

-- What an invariant must bear to be kept by an event of any type.
pub record BearsEvents (P : World → Type 0) : Type 0 where
  pub at_event :
      (r : ℕ) (type : EventType) (payload : Fields) (w : World)
      → P w
      → P (record w { db = (emit_to r type payload w.db).1 })

module _ {P : World → Type 0} (sessions : BearsSessions P) where
  pub Keeps-session :
      (f : Database → Database) → ((d : Database) → (f d).events ≡ d.events) → Keeps P (session f)
  Keeps-session f same = record { at = λ w h. sessions.at_session (f w.db) w (same w.db) h }

  pub Keeps-session_value :
      {A : Type 0} (f : Database → A × Database)
      → ((d : Database) → (f d).1.events ≡ d.events)
      → Keeps P (session_value f)
  Keeps-session_value f same = record { at = λ w h. sessions.at_session (f w.db).1 w (same w.db) h }

module _ {P : World → Type 0} (events : BearsEvents P) where
  pub Keeps-event : (r : ℕ) (type : EventType) (payload : Fields) → Keeps P (emit r type payload)
  unfolding emit
  Keeps-event r type payload = record { at = λ w h. events.at_event r type payload w h }

module _ {P : World → Type 0} (aside : IsAside P) where
  pub Keeps-emit :
      (r : ℕ) (type : EventType) (payload : Fields)
      → is_turning type ≡ false
      → Keeps P (emit r type payload)
  unfolding emit
  Keeps-emit r type payload e = record { at = λ w h. aside.at_emit r type payload w e h }

  pub Keeps-tick : Keeps P tick
  unfolding tick
  Keeps-tick = record { at = λ w h. aside.at_tick (w.clock + 1) w h }

  module _ (env : Env) where
    pub Keeps-is_set : Keeps P (is_set env)
    unfolding is_set
    Keeps-is_set = Keeps-bind tick _ Keeps-tick (λ n. Keeps-pure _)

    Keeps-reply_of : (r : Reply) → Keeps P (reply_of r)
    Keeps-reply_of (Reply.text s) = Keeps-pure s
    Keeps-reply_of (Reply.llm_error e) = Keeps-raise _

    -- What follows a charge: nothing, or an action that may count on it.
    charging-keeps :
        {A : Type 0} (x : Charge) (w : World) (m : Action A)
        → ((b : RunBudget) → x ≡ charged b → P (m (record w { budget = b })).1)
        → P w
        → P (proceed (λ _. m) (settle x w)).1
    charging-keeps (charged b) w m step h = step b refl
    charging-keeps (exceeded e) w m step h = h

    pub Keeps-complete_as :
        (c : BudgetCategory) (messages : List LlmMessage) → Keeps P (complete_as env c messages)
    unfolding complete_as call_model
    Keeps-complete_as c messages = record {
      at = λ w h.
          charging-keeps (charge_model_call c w.budget) w
            (call_model >>= λ n. reply_of (env.complete n messages))
            (λ b e.
              (Keeps-reply_of (env.complete w.clock messages)).at _ (aside.at_model c b w e h))
            h;
    }

    pub Keeps-execute_tool :
        (name : Text) (arguments : Fields) → Keeps P (execute_tool env name arguments)
    unfolding execute_tool call_tool
    Keeps-execute_tool name arguments = record {
      at = λ w h.
          charging-keeps (charge_tool_call w.budget) w
            (call_tool >>= λ n. pure (execute env.py env.tool_timeout env.tools n name arguments))
            (λ b e. aside.at_tool b w e h) h;
    }

pub ruleset keeps_rules = (
  Keeps-pure, Keeps-raise, Keeps-reads, Keeps-if, Keeps-bind, Keeps-catch, Keeps-emit, Keeps-event,
  refl, Keeps-session, Keeps-session_value, Keeps-is_set, Keeps-complete_as, Keeps-execute_tool,
)
