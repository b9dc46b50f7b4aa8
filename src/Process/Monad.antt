-- ===== src/Process/Monad.antt =====
-- State and exceptions. The state comes back after an exception too: what was written stays.
use atlas_the_agent.Base.{ℕ, String, Option, List, Text, Bool, if◌then◌else◌}
use atlas_the_agent.Core.Python.{Python}
use atlas_the_agent.Agent.Schemas.{TaskView, ReflectionResult}
use atlas_the_agent.Persistence.Tables.{Database}
use atlas_the_agent.Runtime.Budget.{RunBudget, BudgetExceeded}
use atlas_the_agent.Tools.Registry.{Registry}
use atlas_the_agent.Llm.{LlmMessage, Reply}

-- The exceptions of the runtime. `unexpected` is any other one, with its message.
pub data Exc : Type 0 where
  cancelled : TaskView → String → Exc
  replan : TaskView → Option ReflectionResult → Exc
  run_cancelled : Exc
  budget_exceeded : BudgetExceeded → Exc
  planner_error : Text → Exc
  llm_error : Text → Exc
  executor_error : Text → Exc
  unexpected : Text → Exc
  -- not of the source: a loop of the model had too little fuel
  out_of_fuel : Exc

-- What surrounds the process. `clock` counts the calls made of it, so that a provider, a tool and
-- whoever cancels the run may answer differently each time.
pub record Env : Type 0 where
  pub py : Python
  pub complete : ℕ → List LlmMessage → Reply
  pub is_cancelled : ℕ → Bool
  pub tools : Registry
  pub tool_timeout : Text

pub record World : Type 0 where
  pub db : Database
  pub budget : RunBudget
  pub clock : ℕ
  -- not kept by the process: how many calls have reached the provider, and how many the tools
  pub model_called : ℕ
  pub tool_called : ℕ
  -- the run's entry in `RunManager._lessons`
  pub lessons : Option Text

pub data Result (A : Type 0) : Type 0 where
  ok : A → Result A
  err : Exc → Result A

abbrev pub Action : Type 0 → Type 0
Action A = World → Result A × World

abbrev pub Done : Type 0
Done = Unit

module _ {A : Type 0} where
  abbrev pub pure : A → Action A
  pure a w = (ok a, w)

  abbrev pub raise : Exc → Action A
  raise e w = (err e, w)

-- What follows an action that has ended: the next one, or nothing after an exception.
abbrev pub proceed : {A B : Type 0} → (A → Action B) → Result A × World → Result B × World
proceed f (ok a, w) = f a w
proceed f (err e, w) = (err e, w)

-- What an `except` makes of an action that has ended.
abbrev pub handle : {A : Type 0} → (Exc → Action A) → Result A × World → Result A × World
handle h (ok a, w) = (ok a, w)
handle h (err e, w) = h e w

infixl 5 ◌>>=◌ ◌>>◌
abbrev pub ◌>>=◌ : {A B : Type 0} → Action A → (A → Action B) → Action B
◌>>=◌ m f w = proceed f (m w)

abbrev pub ◌>>◌ : {A B : Type 0} → Action A → Action B → Action B
m >> k = m >>= λ _. k

-- `try: m; except …: handler`; the handler raises again what it does not catch.
abbrev pub catch : {A : Type 0} → Action A → (Exc → Action A) → Action A
catch m handler w = handle handler (m w)

-- A pure read of the state.
abbrev pub reads : {A : Type 0} → (World → A) → Action A
reads f w = (ok (f w), w)

-- A unit of work on the database.
abbrev pub session : (Database → Database) → Action Done
session f w = (ok tt, record w { db = f w.db })

abbrev pub session_value : {A : Type 0} → (Database → A × Database) → Action A
session_value f w = let (a, d) = f w.db in (ok a, record w { db = d })

abbrev pub when : Bool → Action Done → Action Done
when b m = if b then m else pure tt
