-- ===== src/Runtime/Manager/Outcome/Told.antt =====
-- The events of a task and of a plan leave the tables of the run alone.
use atlas_the_agent.Base.{ℕ, refl, List, [], ◌∷◌, Text}
use atlas_the_agent.Core.Python.{Python}
use atlas_the_agent.Agent.Schemas.{TaskView, ReflectionResult}
use atlas_the_agent.Runtime.Manager.Finalize.{
  emit_task_completed, emit_task_retrying, emit_task_started, emit_task_reflected,
  emit_task_skipped, emit_skips,
}
use atlas_the_agent.Runtime.Manager.Replan.{emit_plan_replanned}
use atlas_the_agent.Core.Settings.{Settings}
use atlas_the_agent.Process.{Exc, Env, World}
use atlas_the_agent.Process.Keeps.{IsAside}
use atlas_the_agent.Process.Stays.{Stays, Stays-emit, Stays-bind, Stays-pure}

module _ {P : World → Type 0} {S : Exc → Type 0} (aside : IsAside P) (r : ℕ) where
  module _ (py : Python) (t : TaskView) where
    pub Stays-task_started : Stays P S (emit_task_started py r t)
    unfolding emit_task_started
    Stays-task_started = Stays-emit aside r _ _ refl

    pub Stays-task_completed :
        (n : ℕ) (output : Text) → Stays P S (emit_task_completed py r t n output)
    unfolding emit_task_completed
    Stays-task_completed n output = Stays-emit aside r _ _ refl

    pub Stays-task_reflected :
        (n : ℕ) (v : ReflectionResult) → Stays P S (emit_task_reflected py r t n v)
    unfolding emit_task_reflected
    Stays-task_reflected n v = Stays-emit aside r _ _ refl

    pub Stays-task_retrying :
        (n : ℕ) (reason : Text) → Stays P S (emit_task_retrying py r t n reason)
    unfolding emit_task_retrying
    Stays-task_retrying n reason = Stays-emit aside r _ _ refl

  Stays-task_skipped :
      (py : Python) (reason : Text) (t : TaskView) → Stays P S (emit_task_skipped py r reason t)
  unfolding emit_task_skipped
  Stays-task_skipped py reason t = Stays-emit aside r _ _ refl

  pub Stays-skips :
      (py : Python) (reason : Text) (ts : List TaskView) → Stays P S (emit_skips py r reason ts)
  unfolding emit_skips
  Stays-skips py reason [] = Stays-pure tt
  Stays-skips py reason (t ∷ ts) =
      Stays-bind (emit_task_skipped py r reason t) _ (Stays-task_skipped py reason t)
        (λ u. Stays-skips py reason ts)

  pub Stays-plan_replanned :
      (env : Env) (settings : Settings) (goal : Text) (n : ℕ) (old new : List TaskView)
      (reason : Text)
      → Stays P S (emit_plan_replanned env settings r goal n old new reason)
  unfolding emit_plan_replanned
  Stays-plan_replanned env settings goal n old new reason = Stays-emit aside r _ _ refl
