-- ===== src/Runtime/Manager/Outcome/Phases.antt =====
-- The phases of a run: `_plan` and `_synthesize`.
use atlas_the_agent.Runtime.Manager.Outcome.Delivered.{
  Over, FromPhases, from_tasks, from_planner, synthesize-Triple,
}
use atlas_the_agent.Runtime.Manager.Outcome.Stages.{OnTables, OnTables-aside, IsClosed}
use atlas_the_agent.Runtime.Manager.Outcome.Generations.{Finished, run_tasks-Triple}
use atlas_the_agent.Base.{ℕ, ◌+◌, refl, inl, Option, none, some, List, Text, on_option}
use atlas_the_agent.Core.Json.{arr, end, field}
use atlas_the_agent.Core.Settings.{Settings}
use atlas_the_agent.Events.Types
use atlas_the_agent.Agent.Schemas.{RunStatus, TaskView, PriorTaskOutput}
use atlas_the_agent.Agent.Planner.{plan}
use atlas_the_agent.Agent.Raises.{Stays-plan}
use atlas_the_agent.Persistence.Ledger.{append}
use atlas_the_agent.Persistence.Runs.{set_status}
use atlas_the_agent.Persistence.Tasks.{bulk_create}
use atlas_the_agent.Persistence.Tasks.Status.{IsReady, IsSettled}
use atlas_the_agent.Persistence.Tasks.Fresh.{ids, bulk_create-IsReady}
use atlas_the_agent.Runtime.Manager.Replan.{briefs}
use atlas_the_agent.Runtime.Manager.Finalize.{finalize_cancelled, finalize_cancelled_run}
use atlas_the_agent.Runtime.Manager.Settled.{
  finalize_cancelled-Triple, finalize_cancelled_run-Triple,
}
use atlas_the_agent.Runtime.Manager.Tasks.{run_tasks}
use atlas_the_agent.Runtime.Manager.Execute.{
  keep_lessons, or_none, recall_lessons, plan_tasks, plan_run, synthesize, phases,
}
use atlas_the_agent.Memory.{MemoryService, IsBestEffort}
use atlas_the_agent.Process.{
  Exc, emit_to, Env, World, pure, ◌>>=◌, session, session_value, is_set, emit,
}
use atlas_the_agent.Process.Keeps.{IsAside}
use atlas_the_agent.Process.Triple.{
  Triple, Triple-pure, Triple-if, Triple-bind, Triple-raises, Triple-from, Triple-session,
  Triple-session_value,
}
use atlas_the_agent.Process.Stays.{
  Stays, Stays-emit, Stays-bind, Stays-if, Stays-pure, Stays-is_set, Triple-quiet, Triple-stays,
}

module _ (env : Env) (settings : Settings) (memory : MemoryService) (best : IsBestEffort memory)
    (r : ℕ) (goal : Text) where
  -- Before the plan: nothing of the run is open, and the budget is whole.
  abbrev pub Opened : World → Type 0
  Opened =
      OnTables (λ rs ts. IsSettled r ts) settings.agent_max_retries (settings.agent_max_replans + 1)

  Opened-aside : IsAside Opened
  Opened-aside =
      OnTables-aside (λ rs ts. IsSettled r ts) settings.agent_max_retries
        (settings.agent_max_replans + 1)

  abbrev HasPlan : List TaskView → World → Type 0
  HasPlan ts =
      OnTables (λ rs us. IsReady r (ids ts) us) settings.agent_max_retries
        (settings.agent_max_replans + 1)

  plan_aside : (ts : List TaskView) → IsAside (HasPlan ts)
  plan_aside ts =
      OnTables-aside (λ rs us. IsReady r (ids ts) us) settings.agent_max_retries
        (settings.agent_max_replans + 1)

  abbrev Planned : Option (List TaskView) → World → Type 0
  Planned none = IsClosed r
  Planned (some ts) = HasPlan ts

  recall_lessons-Stays : Stays Opened (λ e. ⊥) (recall_lessons env settings memory r goal)
  unfolding recall_lessons
  recall_lessons-Stays =
      Stays-if settings.memory_enabled _ _
        (Stays-bind _ _ (best.at_recall Opened Opened-aside r goal) λ rendered.
          Stays-bind (keep_lessons rendered) _
            (record { at = λ w h. Opened-aside.at_lessons (or_none rendered) w h })
            (λ u. Stays-pure (or_none rendered)))
        (Stays-pure none)

  plan_tasks-Triple : Triple Opened (plan_tasks env settings memory r goal) Planned (FromPhases r)
  unfolding plan_tasks
  plan_tasks-Triple =
      Triple-bind (recall_lessons env settings memory r goal) _ (Triple-quiet recall_lessons-Stays)
        λ lessons.
          Triple-bind (plan env settings goal lessons) _
            (Triple-stays _ (Stays-plan Opened-aside env settings goal lessons) (λ o w h. h)
              (λ e w s h. from_planner r w e s h.0.0))
            λ planned.
              Triple-bind {Q = HasPlan} (session_value (bulk_create r planned)) _
                (Triple-session_value (bulk_create r planned)
                  (λ w h. (bulk_create-IsReady r planned w.db h.0, h.1)))
                λ ts.
                  Triple-bind
                    (emit r Types.plan_created (field "tasks" (arr (briefs env.py ts)) end)) _
                    (Triple-quiet (
                      Stays-emit (plan_aside ts) r Types.plan_created
                        (field "tasks" (arr (briefs env.py ts)) end) refl))
                    λ u.
                      Triple-bind (is_set env) _ (Triple-quiet (Stays-is_set (plan_aside ts) env))
                        λ stop.
                          Triple-if stop _ _
                            (Triple-bind (finalize_cancelled_run env.py r none) _
                              (Triple-from (λ w h. h.0.0)
                                (finalize_cancelled_run-Triple r env.py none))
                              (λ v. Triple-pure none (λ w h. inl h)))
                            (Triple-pure (some ts) (λ w h. h))

  started-Triple :
      {E : Exc → World → Type 0} → Triple Opened (emit r Types.run_started end) (λ u. Opened) E
  unfolding emit emit_to append
  started-Triple = record { at = λ w h. h }

  plan_run-Triple : Triple Opened (plan_run env settings memory r goal) Planned (FromPhases r)
  unfolding plan_run set_status
  plan_run-Triple =
      Triple-bind {Q = λ u. Opened} (session (set_status r RunStatus.planning)) _
        (Triple-session (set_status r RunStatus.planning) (λ w h. h))
        λ u. Triple-bind (emit r Types.run_started end) _ started-Triple λ v.
          Triple-bind (is_set env) _ (Triple-quiet (Stays-is_set Opened-aside env)) λ stop.
            Triple-if stop _ _
              (Triple-bind (finalize_cancelled r) _
                (Triple-from (λ w h. h.0) (finalize_cancelled-Triple r (IsSettled r)))
                (λ x. Triple-pure none (λ w h. inl h)))
              plan_tasks-Triple

  after_tasks-Triple :
      (o : Option (List PriorTaskOutput))
      → Triple
          (Finished env settings memory best r goal o)
          (on_option (pure tt) (synthesize env settings memory r goal) o)
          (λ u. Over r)
          (FromPhases r)
  after_tasks-Triple none = Triple-pure tt (λ w h. inl h)
  after_tasks-Triple (some outputs) = synthesize-Triple env settings memory best r goal outputs

  after_plan-Triple :
      (o : Option (List TaskView))
      → Triple
          (Planned o)
          (on_option
            (pure tt)
            (λ tasks. do
              ran ← run_tasks env settings memory r goal tasks
              on_option (pure tt) (synthesize env settings memory r goal) ran)
            o)
          (λ u. Over r)
          (FromPhases r)
  after_plan-Triple none = Triple-pure tt (λ w h. inl h)
  after_plan-Triple (some ts) =
      Triple-bind (run_tasks env settings memory r goal ts) _
        (Triple-raises (λ e w h. from_tasks r w e h)
          (run_tasks-Triple env settings memory best r goal ts))
        after_tasks-Triple

  pub phases-Triple : Triple Opened (phases env settings memory r goal) (λ u. Over r) (FromPhases r)
  unfolding phases
  phases-Triple =
      Triple-bind (plan_run env settings memory r goal) _ plan_run-Triple after_plan-Triple
