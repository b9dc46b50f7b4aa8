-- ===== src/Runtime/Manager/Replan.antt =====
-- `_do_replan` of `RunManager`.
use atlas_the_agent.Base.{
  on_option, if◌then◌else◌, ℕ, ◌+◌, ◌-◌, Option, none, some, List, [], ◌∷◌, ◌++◌, map, Text, codes,
  length,
}
use atlas_the_agent.Core.Json.{Json, str, str_or_null, nat, arr, obj, Items, nil, cons, end, field}
use atlas_the_agent.Core.Python.{Python}
use atlas_the_agent.Core.Settings.{Settings}
use atlas_the_agent.Events.Types
use atlas_the_agent.Agent.Schemas.{TaskView, PlannedTask, PriorTaskOutput, ReflectionResult}
use atlas_the_agent.Agent.Executor.{id_text}
use atlas_the_agent.Agent.Planner.{plan_again}
use atlas_the_agent.Persistence.Tasks.{bulk_skip, append_generation}
use atlas_the_agent.Runtime.Budget.{charge_replan}
use atlas_the_agent.Runtime.Manager.Finalize.{
  finalize_failed, emit_skips, fail_task, finalize_cancelled_run, finalize_budget_exceeded,
}
use atlas_the_agent.Process.{
  Exc, reads, budget_exceeded, llm_error, planner_error, Env, ok, Action, Done, pure, raise, ◌>>=◌,
  ◌>>◌, catch, session, session_value, is_set, emit,
}

-- `_task_brief`
unfoldable pub task_brief : Python → TaskView → Json
task_brief py t = obj (
    field "id" (str (id_text py t.id)) (
      field "index" (nat t.index) (
        field "description" (str t.description) (
          field "success_criteria" (str t.success_criteria)
            (field "suggested_tool" (str_or_null t.suggested_tool) end)))))

unfoldable pub briefs : Python → List TaskView → Items
unfolding task_brief
briefs py [] = nil
briefs py (t ∷ ts) = cons (task_brief py t) (briefs py ts)

unfoldable pub id_items : Python → List TaskView → Items
id_items py [] = nil
id_items py (t ∷ ts) = cons (str (id_text py t.id)) (id_items py ts)

-- `remaining[-1].index + 1`; the triggering task is always among the remaining ones.
unfoldable pub start_after : ℕ → List TaskView → ℕ
start_after default [] = default
start_after default (t ∷ ts) = start_after (t.index + 1) ts

abbrev pub replan_reason : Option ReflectionResult → Text
replan_reason none = codes "replan requested"
replan_reason (some r) = r.reason

-- `budget.charge_replan()`
abbrev pub charging_replan : Action Done
charging_replan w = (ok tt, record w { budget = charge_replan w.budget })

module _ (env : Env) (settings : Settings) (run_id : ℕ) (goal : Text) where
  unfoldable pub emit_plan_replanned : ℕ → List TaskView → List TaskView → Text → Action Done
  unfolding briefs id_items
  emit_plan_replanned generation dropped new_tasks reason = emit run_id Types.plan_replanned (
      field "generation" (nat generation) (
        field "parent_generation" (nat (generation - 1)) (
          field "dropped_task_ids" (arr (id_items env.py dropped)) (
            field "old_task_count" (nat (length dropped)) (
              field "new_task_count" (nat (length new_tasks)) (
                field "reason" (str reason)
                  (field "tasks" (arr (briefs env.py new_tasks)) end)))))))

  unfoldable pub fail_replan : TaskView → Text → Action (Option (List PlannedTask))
  fail_replan t message = do
    fail_task env.py run_id t (codes "Replan failed: " ++ message)
    finalize_failed run_id (codes "Replan failed: " ++ message)
    pure none

  abbrev pub no_plan : TaskView → Exc → Action (Option (List PlannedTask))
  no_plan t (budget_exceeded be) = do finalize_budget_exceeded env run_id be (some t); pure none
  no_plan t (planner_error message) = fail_replan t message
  no_plan t (llm_error message) = fail_replan t message
  no_plan t e = raise e

  -- The `try` around `Planner.replan`; `none` if its failure has finalized the run.
  unfoldable pub plan_rest :
      TaskView → List PriorTaskOutput → Text → Action (Option (List PlannedTask))
  unfolding fail_replan
  plan_rest t outputs reason =
      catch
        (do
          lessons ← reads (λ w. w.lessons)
          planned ← plan_again env settings goal outputs reason lessons
          pure (some planned))
        (no_plan t)

  -- The swap of generations, once there is a new plan.
  unfoldable pub swap_generation : List TaskView → Text → List PlannedTask → Action (List TaskView)
  unfolding emit_plan_replanned start_after
  swap_generation remaining reason planned = do
    session (bulk_skip (map (λ t. t.id) remaining))
    emit_skips env.py run_id (codes "replaced by replan") remaining
    generation ← reads (λ w. w.budget.replans_used)
    new_tasks ← session_value (
        append_generation run_id planned (start_after 0 remaining) generation
          (some (generation - 1)))
    emit_plan_replanned generation remaining new_tasks reason
    pure new_tasks

  -- The part of `_do_replan` behind the planning.
  unfoldable pub adopt_plan :
      TaskView
      → Option ReflectionResult
      → List TaskView
      → List PlannedTask
      → Action (Option (List TaskView))
  unfolding swap_generation
  adopt_plan t result remaining planned = do
    stop ← is_set env
    if stop then (do finalize_cancelled_run env.py run_id (some (t, "replan")); pure none) else (do
      new_tasks ← swap_generation remaining (replan_reason result) planned
      pure (some new_tasks))

  -- `_do_replan`: the new tasks, or `none` if the run is finalized.
  unfoldable pub do_replan :
      TaskView
      → Option ReflectionResult
      → List TaskView
      → List PriorTaskOutput
      → Action (Option (List TaskView))
  unfolding plan_rest adopt_plan
  do_replan t result remaining outputs = do
    stop ← is_set env
    if stop then (do finalize_cancelled_run env.py run_id (some (t, "replan")); pure none) else (do
      charging_replan
      planned ← plan_rest t outputs (replan_reason result)
      on_option (pure none) (adopt_plan t result remaining) planned)
