-- ===== src/Runtime/Manager/Outcome/Passes.antt =====
-- The tasks of a generation and the generations of a run: `_run_tasks`.
use atlas_the_agent.Runtime.Manager.Outcome.Stages.{
  OnTables, IsClosed, HasStopped→IsClosed, FromTurn,
}
use atlas_the_agent.Runtime.Manager.Outcome.Replans.{Swapped, Uncaught, Allowed, do_replan-Triple}
use atlas_the_agent.Base.{ℕ, suc, sym, subst, inl, Option, none, some, List, ◌∷◌, Text}
use atlas_the_agent.Core.Settings.{Settings}
use atlas_the_agent.Agent.Schemas.{TaskView, PriorTaskOutput, ReflectionResult}
use atlas_the_agent.Persistence.Tasks.Status.{IsReady, IsSettled, InTurn}
use atlas_the_agent.Persistence.Tasks.Fresh.{ids}
use atlas_the_agent.Runtime.Manager.Replan.{do_replan}
use atlas_the_agent.Runtime.Manager.Finalize.{finalize_cancelled_run, finalize_budget_exceeded}
use atlas_the_agent.Runtime.Manager.Settled.{
  finalize_cancelled_run-Triple, finalize_budget_exceeded-Triple,
}
use atlas_the_agent.Runtime.Manager.Tasks.{Turn, ran, closed, swapped, swapped_or_closed, on_signal}
use atlas_the_agent.Memory.{MemoryService, IsBestEffort}
use atlas_the_agent.Process.{
  Exc, cancelled, replan, run_cancelled, budget_exceeded, planner_error, llm_error, executor_error,
  unexpected, out_of_fuel, Env, World,
}
use atlas_the_agent.Process.Triple.{
  Triple, Triple-pure, Triple-raise, Triple-bind, Triple-from, Triple-given, Triple-raises,
}

-- What escapes `_run_tasks`: a failure of the model where nothing is open, and what is unexpected.
abbrev pub FromTasks : ℕ → Exc → World → Type 0
FromTasks r (llm_error m) w = IsSettled r w.db.tasks
FromTasks r (unexpected m) w = Unit
FromTasks r (cancelled t p) w = ⊥
FromTasks r (replan t v) w = ⊥
FromTasks r run_cancelled w = ⊥
FromTasks r (budget_exceeded be) w = ⊥
FromTasks r (planner_error m) w = ⊥
FromTasks r (executor_error m) w = ⊥
FromTasks r out_of_fuel w = ⊥

from_Uncaught : (r : ℕ) (e : Exc) (w : World) → Uncaught e w → FromTasks r e w
from_Uncaught r (unexpected m) w h = tt
from_Uncaught r (cancelled t p) w h = h
from_Uncaught r (replan t v) w h = h
from_Uncaught r run_cancelled w h = h
from_Uncaught r (budget_exceeded be) w h = h
from_Uncaught r (planner_error m) w h = h
from_Uncaught r (llm_error m) w h = absurd h
from_Uncaught r (executor_error m) w h = h
from_Uncaught r out_of_fuel w h = h

module _ (env : Env) (settings : Settings) (memory : MemoryService) (best : IsBestEffort memory)
    (r : ℕ) (goal : Text) (R : ℕ) where
  -- The tasks of `ts` are still to come, and fewer than `f` replans are left.
  abbrev pub Awaits : ℕ → List TaskView → World → Type 0
  Awaits f ts = OnTables (λ rs us. IsReady r (ids ts) us) R f

  module _ (g : ℕ) where
    abbrev pub Turned : List TaskView → Turn → World → Type 0
    Turned ts (ran none) = IsClosed r
    Turned ts (ran (some output)) = Awaits (suc g) ts
    Turned ts closed = IsClosed r
    Turned ts (swapped new) = Awaits g new

    module _ (t : TaskView) (ts : List TaskView) where
      Swapped-Turned :
          (u : TaskView) (o : Option (List TaskView)) (w : World)
          → Swapped env settings r goal u (ids ts) R g o w
          → Turned ts (swapped_or_closed o) w
      Swapped-Turned u none w h = h
      Swapped-Turned u (some new) w h = h

      abbrev Raised : Exc → World → Type 0
      Raised = FromTurn r R (suc g) t.id (ids ts)

      allowed :
          (u : TaskView) (v : Option ReflectionResult) (w : World)
          → Raised (replan u v) w
          → Allowed env settings r goal u (ids ts) R g w
      allowed u v w h = ((subst (λ x. InTurn r x (ids ts) w.db.tasks) (sym h.0) h.1, h.2), h.3)

      on_replan-Triple :
          (u : TaskView) (v : Option ReflectionResult) (outputs : List PriorTaskOutput)
          → Triple
              (Raised (replan u v))
              (on_signal env settings memory r goal t (t ∷ ts) outputs (replan u v))
              (Turned ts)
              (FromTasks r)
      unfolding on_signal
      on_replan-Triple u v outputs =
          Triple-given _ (λ w h. h.0)
            λ e.
              Triple-bind (do_replan env settings r goal u v (t ∷ ts) outputs) _
                (Triple-raises (from_Uncaught r) (
                  Triple-from (allowed u v) (
                    do_replan-Triple env settings r goal u (ids ts) R g v (t ∷ ts) outputs
                      (λ i. sym e i ∷ ids ts))))
                λ o. Triple-pure (swapped_or_closed o) (Swapped-Turned u o)

      pub on_signal-Triple :
          (outputs : List PriorTaskOutput) (e : Exc)
          → Triple
              (Raised e)
              (on_signal env settings memory r goal t (t ∷ ts) outputs e)
              (Turned ts)
              (FromTasks r)
      unfolding on_signal
      on_signal-Triple outputs (cancelled u phase) =
          Triple-bind (finalize_cancelled_run env.py r (some (u, phase))) _
            (finalize_cancelled_run-Triple r env.py (some (u, phase)))
            (λ x. Triple-pure closed (λ w h. inl h))
      on_signal-Triple outputs (budget_exceeded be) =
          Triple-bind (finalize_budget_exceeded env r be (some t)) _
            (finalize_budget_exceeded-Triple r env be (some t))
            (λ x. Triple-pure closed (HasStopped→IsClosed r))
      on_signal-Triple outputs (replan u v) = on_replan-Triple u v outputs
      on_signal-Triple outputs (llm_error m) = Triple-raise _ (λ w h. h)
      on_signal-Triple outputs (unexpected m) = Triple-raise _ (λ w h. tt)
      on_signal-Triple outputs run_cancelled = Triple-raise _ (λ w h. h)
      on_signal-Triple outputs (planner_error m) = Triple-raise _ (λ w h. h)
      on_signal-Triple outputs (executor_error m) = Triple-raise _ (λ w h. h)
      on_signal-Triple outputs out_of_fuel = Triple-raise _ (λ w h. h)
