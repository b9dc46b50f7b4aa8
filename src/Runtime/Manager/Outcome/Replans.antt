-- ===== src/Runtime/Manager/Outcome/Replans.antt =====
-- A replan, `_do_replan`: the swap of generations, or the end of the run.
use atlas_the_agent.Runtime.Manager.Outcome.Stages.{
  OnTables, OnTables-aside, IsClosed, HasStopped→IsClosed, charge_replan-Reserve,
}
use atlas_the_agent.Runtime.Manager.Outcome.Told.{Stays-skips, Stays-plan_replanned}
use atlas_the_agent.Base.{
  ℕ, suc, ◌-◌, ◌<◌, ◌≡◌, sym, subst, inl, inr, Option, none, some, List, ◌∷◌, Text, codes, ◌++◌,
  on_option,
}
use atlas_the_agent.Core.Settings.{Settings}
use atlas_the_agent.Agent.Schemas.{TaskId, TaskView, PlannedTask, PriorTaskOutput, ReflectionResult}
use atlas_the_agent.Agent.Raises.{FromPlanner, Stays-plan_again}
use atlas_the_agent.Persistence.Tasks.{bulk_skip, append_generation}
use atlas_the_agent.Persistence.Tasks.Status.{
  IsIdle, IsReady, IsSettled, InTurn, Flies, bulk_skip-settles,
}
use atlas_the_agent.Persistence.Tasks.Fresh.{ids, append_generation-IsReady}
use atlas_the_agent.Runtime.Budget.{replans_left}
use atlas_the_agent.Runtime.Manager.Finalize.{
  emit_skips, fail_task, finalize_failed, finalize_cancelled_run, finalize_budget_exceeded,
}
use atlas_the_agent.Runtime.Manager.Settled.{
  finalize_failed-Triple, fail_task-Triple, finalize_cancelled_run-Triple,
  finalize_budget_exceeded-Triple,
}
use atlas_the_agent.Runtime.Manager.Replan.{
  charging_replan, start_after, replan_reason, emit_plan_replanned, fail_replan, no_plan, plan_rest,
  swap_generation, adopt_plan, do_replan,
}
use atlas_the_agent.Process.{
  ◌>>◌, Exc, cancelled, replan, run_cancelled, budget_exceeded, planner_error, llm_error,
  executor_error, unexpected, out_of_fuel, Env, World, pure, reads, session, session_value, is_set,
}
use atlas_the_agent.Process.Keeps.{IsAside}
use atlas_the_agent.Process.Triple.{
  Triple, Triple-pure, Triple-raise, Triple-if, Triple-bind, Triple-catch, Triple-from,
  Triple-session, Triple-session_value,
}
use atlas_the_agent.Process.Stays.{Stays-reads, Stays-is_set, Triple-quiet, Triple-stays}

-- Only an exception that no component names escapes.
abbrev pub Uncaught : Exc → World → Type 0
Uncaught (unexpected m) w = Unit
Uncaught (cancelled t p) w = ⊥
Uncaught (replan t v) w = ⊥
Uncaught run_cancelled w = ⊥
Uncaught (budget_exceeded be) w = ⊥
Uncaught (planner_error m) w = ⊥
Uncaught (llm_error m) w = ⊥
Uncaught (executor_error m) w = ⊥
Uncaught out_of_fuel w = ⊥

module _ (env : Env) (settings : Settings) (r : ℕ) (goal : Text) (t : TaskView) (rest : List TaskId)
    (R g : ℕ) where
  -- The triggering task is still in its turn.
  abbrev Turning : World → Type 0
  Turning = OnTables (λ rs ts. InTurn r t.id rest ts) R g

  Turning-aside : IsAside Turning
  Turning-aside = OnTables-aside (λ rs ts. InTurn r t.id rest ts) R g

  abbrev Planned : Option (List PlannedTask) → World → Type 0
  Planned none = IsClosed r
  Planned (some planned) = Turning

  fail_replan-Triple :
      (message : Text) → Triple Turning (fail_replan env settings r goal t message) Planned Uncaught
  unfolding fail_replan
  fail_replan-Triple message =
      Triple-bind (fail_task env.py r t (codes "Replan failed: " ++ message)) _
        (Triple-from (λ w h. h.0.0)
          (fail_task-Triple r env.py t (codes "Replan failed: " ++ message)))
        λ u.
          Triple-bind (finalize_failed r (codes "Replan failed: " ++ message)) _
            (finalize_failed-Triple r (IsIdle r) (codes "Replan failed: " ++ message))
            λ v. Triple-pure none (λ w h. inr h)

  no_plan-Triple :
      (e : Exc)
      → Triple (λ w. FromPlanner e × Turning w) (no_plan env settings r goal t e) Planned Uncaught
  no_plan-Triple (budget_exceeded be) =
      Triple-bind (finalize_budget_exceeded env r be (some t)) _
        (Triple-from (λ w h. h.1.0.0) (finalize_budget_exceeded-Triple r env be (some t)))
        λ u. Triple-pure none (HasStopped→IsClosed r)
  no_plan-Triple (planner_error m) = Triple-from (λ w h. h.1) (fail_replan-Triple m)
  no_plan-Triple (llm_error m) = Triple-from (λ w h. h.1) (fail_replan-Triple m)
  no_plan-Triple (unexpected m) = Triple-raise _ (λ w h. tt)
  no_plan-Triple (cancelled u p) = Triple-raise _ (λ w h. absurd h.0)
  no_plan-Triple (replan u v) = Triple-raise _ (λ w h. absurd h.0)
  no_plan-Triple run_cancelled = Triple-raise _ (λ w h. absurd h.0)
  no_plan-Triple (executor_error m) = Triple-raise _ (λ w h. absurd h.0)
  no_plan-Triple out_of_fuel = Triple-raise _ (λ w h. absurd h.0)

  plan_rest-Triple :
      (outputs : List PriorTaskOutput) (reason : Text)
      → Triple Turning (plan_rest env settings r goal t outputs reason) Planned Uncaught
  unfolding plan_rest
  plan_rest-Triple outputs reason =
      Triple-catch _ _
        (Triple-bind _ _ (Triple-quiet (Stays-reads (λ w. w.lessons))) λ lessons.
          Triple-bind _ _
            (Triple-stays _
              (Stays-plan_again Turning-aside env settings goal outputs reason lessons) (λ o w h. h)
              (λ e w s h. (s, h)))
            (λ planned. Triple-pure (some planned) (λ w h. h)))
        no_plan-Triple

  -- The stages of the swap.
  abbrev Cleared : World → Type 0
  Cleared = OnTables (λ rs ts. IsSettled r ts) R g

  Cleared-aside : IsAside Cleared
  Cleared-aside = OnTables-aside (λ rs ts. IsSettled r ts) R g

  abbrev Fresh : List TaskView → World → Type 0
  Fresh new = OnTables (λ rs ts. IsReady r (ids new) ts) R g

  cleared :
      (old : List TaskId) (w : World)
      → old ≡ t.id ∷ rest
      → Turning w
      → Cleared (record w { db = bulk_skip old w.db })
  cleared old w e h = (
    subst (λ is. IsSettled r (bulk_skip is w.db).tasks) (sym e)
        (bulk_skip-settles r t.id rest w.db h.0),
    h.1,
  )

  swap_generation-Triple :
      (old : List TaskView) (reason : Text) (planned : List PlannedTask)
      → ids old ≡ t.id ∷ rest
      → Triple Turning (swap_generation env settings r goal old reason planned) Fresh Uncaught
  unfolding swap_generation
  swap_generation-Triple old reason planned e =
      Triple-bind {Q = λ u. Cleared} (session (bulk_skip (ids old))) _
        (Triple-session (bulk_skip (ids old)) (λ w h. cleared (ids old) w e h))
        λ u.
          Triple-bind (emit_skips env.py r (codes "replaced by replan") old) _
            (Triple-quiet (Stays-skips Cleared-aside r env.py (codes "replaced by replan") old))
            λ v.
              Triple-bind (reads (λ w. w.budget.replans_used)) _
                (Triple-quiet (Stays-reads (λ w. w.budget.replans_used)))
                λ n.
                  Triple-bind {Q = Fresh}
                    (session_value
                      (append_generation r planned (start_after 0 old) n (some (n - 1))))
                    _
                    (Triple-session_value
                      (append_generation r planned (start_after 0 old) n (some (n - 1)))
                      (λ w h. (
                        append_generation-IsReady r planned w.db (start_after 0 old) n
                            (some (n - 1)) h.0,
                        h.1,
                      )))
                    λ new.
                      Triple-bind (emit_plan_replanned env settings r goal n old new reason) _
                        (Triple-quiet (
                          Stays-plan_replanned
                            (OnTables-aside (λ rs ts. IsReady r (ids new) ts) R g) r env settings
                            goal n old new reason))
                        λ x. Triple-pure new (λ w h. h)

  -- How a replan returns: with a new generation, or with the run closed.
  abbrev pub Swapped : Option (List TaskView) → World → Type 0
  Swapped none = IsClosed r
  Swapped (some new) = Fresh new

  pub stop_replan-Triple :
      Triple
        (λ w. Flies r t.id w.db.tasks)
        (do finalize_cancelled_run env.py r (some (t, "replan")); pure none)
        Swapped
        Uncaught
  stop_replan-Triple =
      Triple-bind (finalize_cancelled_run env.py r (some (t, "replan"))) _
        (finalize_cancelled_run-Triple r env.py (some (t, "replan")))
        λ u. Triple-pure none (λ w h. inl h)

  adopt_plan-Triple :
      (v : Option ReflectionResult) (old : List TaskView) (o : Option (List PlannedTask))
      → ids old ≡ t.id ∷ rest
      → Triple
          (Planned o)
          (on_option (pure none) (adopt_plan env settings r goal t v old) o)
          Swapped
          Uncaught
  unfolding adopt_plan
  adopt_plan-Triple v old none e = Triple-pure none (λ w h. h)
  adopt_plan-Triple v old (some planned) e =
      Triple-bind (is_set env) _ (Triple-quiet (Stays-is_set Turning-aside env)) λ stop.
        Triple-if stop _ _ (Triple-from (λ w h. h.0.0) stop_replan-Triple) (
          Triple-bind (swap_generation env settings r goal old (replan_reason v) planned) _
            (swap_generation-Triple old (replan_reason v) planned e)
            (λ new. Triple-pure (some new) (λ w h. h)))

-- A replan that the budget still allows leaves one replan less.
module _ (env : Env) (settings : Settings) (r : ℕ) (goal : Text) (t : TaskView) (rest : List TaskId)
    (R g : ℕ) where
  abbrev pub Allowed : World → Type 0
  Allowed w = OnTables (λ rs ts. InTurn r t.id rest ts) R (suc g) w × (0 < replans_left w.budget)

  pub do_replan-Triple :
      (v : Option ReflectionResult) (old : List TaskView) (outputs : List PriorTaskOutput)
      → ids old ≡ t.id ∷ rest
      → Triple Allowed
          (do_replan env settings r goal t v old outputs)
          (Swapped env settings r goal t rest R g)
          Uncaught
  unfolding do_replan is_set
  do_replan-Triple v old outputs e =
      Triple-bind {Q = λ b. Allowed} (is_set env) _ (record { at = λ w h. h })
        λ stop.
          Triple-if stop _ _
            (Triple-from (λ w h. h.0.0.0) (stop_replan-Triple env settings r goal t rest R g))
            (Triple-bind {Q = λ u. OnTables (λ rs ts. InTurn r t.id rest ts) R g} charging_replan _
              (record { at = λ w h. (h.0.0, charge_replan-Reserve R g w.budget h.0.1 h.1) })
              λ u.
                Triple-bind (plan_rest env settings r goal t outputs (replan_reason v)) _
                  (plan_rest-Triple env settings r goal t rest R g outputs (replan_reason v))
                  (λ planned. adopt_plan-Triple env settings r goal t rest R g v old planned e))
