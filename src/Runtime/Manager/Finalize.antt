-- ===== src/Runtime/Manager/Finalize.antt =====
-- The finalizers of `RunManager`, the events of a task, and the clean-up of open tasks.
use atlas_the_agent.Base.{
  if◌then◌else◌, ℕ, String, Option, none, some, List, [], ◌∷◌, ◌++◌, map, filter, Text, codes,
}
use atlas_the_agent.Core.Json.{str, nat, float, Fields, end, field}
use atlas_the_agent.Core.Python.{Python}
use atlas_the_agent.Events.Types
use atlas_the_agent.Agent.Schemas.{
  RunStatus, TaskView, is_pending, ReflectionDecision, ReflectionResult, AttemptId,
}
use atlas_the_agent.Agent.Executor.{id_text}
use atlas_the_agent.Persistence.Tables.{Database}
use atlas_the_agent.Persistence.Runs.{set_status, set_answer, set_error}
use atlas_the_agent.Persistence.Tasks.{
  list_for_run, mark_failed, mark_cancelled, bulk_skip, set_attempt_count,
}
use atlas_the_agent.Persistence.Attempts
use atlas_the_agent.Runtime.Budget.{BudgetExceeded}
use atlas_the_agent.Process.{
  Env, Action, Done, pure, ◌>>=◌, ◌>>◌, session, session_value, is_set, emit,
}

unfoldable pub finalize_done : ℕ → Text → Action Done
finalize_done run_id answer = do
  session (λ d. set_status run_id RunStatus.done (set_answer run_id answer d))
  emit run_id Types.answer_completed (field "text" (str answer) end)
  emit run_id Types.run_completed end

unfoldable pub finalize_failed : ℕ → Text → Action Done
finalize_failed run_id error = do
  session (λ d. set_status run_id RunStatus.failed (set_error run_id error d))
  emit run_id Types.run_failed (field "error" (str error) end)

unfoldable pub finalize_cancelled : ℕ → Action Done
finalize_cancelled run_id = do
  session (set_status run_id RunStatus.cancelled)
  emit run_id Types.run_cancelled end

-- A cancellation that was seen while a task was in flight: the task and the phase.
abbrev pub InFlight : Type 0
InFlight = TaskView × String

module _ (py : Python) where
  abbrev pub task_fields : TaskView → Fields → Fields
  task_fields t rest = field "task_id" (str (id_text py t.id)) (field "index" (nat t.index) rest)

  unfoldable pub emit_task_started : ℕ → TaskView → Action Done
  emit_task_started run_id t =
      emit run_id Types.task_started
        (task_fields t (field "description" (str t.description) (field "attempt" (nat 1) end)))

  unfoldable pub emit_task_completed : ℕ → TaskView → ℕ → Text → Action Done
  emit_task_completed run_id t attempt output =
      emit run_id Types.task_completed
        (task_fields t (field "output" (str output) (field "attempt" (nat attempt) end)))

  abbrev decision_value : ReflectionDecision → Text
  decision_value ReflectionDecision.accept = codes "accept"
  decision_value ReflectionDecision.retry = codes "retry"
  decision_value ReflectionDecision.replan = codes "replan"
  decision_value ReflectionDecision.abort = codes "abort"

  unfoldable pub emit_task_reflected : ℕ → TaskView → ℕ → ReflectionResult → Action Done
  emit_task_reflected run_id t attempt r = emit run_id Types.task_reflected (
      task_fields t (
        field "attempt" (nat attempt) (
          field "decision" (str (decision_value r.decision)) (
            field "reason" (str r.reason) (
              field "confidence" (float r.confidence)
                (field "reflection_version" (nat r.reflection_version) end))))))

  unfoldable pub emit_task_retrying : ℕ → TaskView → ℕ → Text → Action Done
  emit_task_retrying run_id t attempt reason =
      emit run_id Types.task_retrying
        (task_fields t (field "attempt" (nat attempt) (field "reason" (str reason) end)))

  unfoldable pub emit_task_skipped : ℕ → Text → TaskView → Action Done
  emit_task_skipped run_id reason t =
      emit run_id Types.task_skipped (task_fields t (field "reason" (str reason) end))

  -- `for task in …: await self._emit_task_skipped(run_id, task, reason)`
  unfoldable pub emit_skips : ℕ → Text → List TaskView → Action Done
  emit_skips run_id reason [] = pure tt
  emit_skips run_id reason (t ∷ ts) =
      emit_task_skipped run_id reason t >> emit_skips run_id reason ts

  unfoldable pub fail_task : ℕ → TaskView → Text → Action Done
  fail_task run_id t error = do
    session (mark_failed t.id error)
    emit run_id Types.task_failed (task_fields t (field "error" (str error) end))

  -- The session of `_skip_pending_tasks`: the tasks that it skips, and their new status.
  unfoldable pub skip_pending : ℕ → Database → List TaskView × Database
  skip_pending run_id d =
      let remaining = filter (λ t. is_pending t.status) (list_for_run run_id d) in
      (remaining, bulk_skip (map (λ t. t.id) remaining) d)

  unfoldable pub skip_pending_tasks : ℕ → Text → Action Done
  skip_pending_tasks run_id reason = do
    remaining ← session_value (skip_pending run_id)
    emit_skips run_id reason remaining

  abbrev pub cancel_task : ℕ → Option InFlight → Action Done
  cancel_task run_id none = pure tt
  cancel_task run_id (some (t, phase)) = do
    session (mark_cancelled t.id)
    emit run_id Types.task_cancelled (task_fields t (field "phase" (str (codes phase)) end))

  unfoldable pub finalize_cancelled_run : ℕ → Option InFlight → Action Done
  finalize_cancelled_run run_id cancelled = do
    cancel_task run_id cancelled
    skip_pending_tasks run_id (codes "run cancelled")
    finalize_cancelled run_id

  -- `_record_attempt` returns the id of the new row.
  unfoldable pub record_attempt : ℕ → TaskView → ℕ → Text → Option Text → Action AttemptId
  record_attempt run_id t attempt output error = do
    view ← session_value (Attempts.create t.id run_id attempt (some output) error)
    session (set_attempt_count t.id attempt)
    pure view.attempt_id

-- The task in flight, if there is one, and its failure.
abbrev budget_fields : Python → Option TaskView → Fields
budget_fields py none = end
budget_fields py (some t) = field "task_id" (str (id_text py t.id)) end

abbrev pub fail_in_flight : Python → ℕ → Option TaskView → Text → Action Done
fail_in_flight py run_id none error = pure tt
fail_in_flight py run_id (some t) error = fail_task py run_id t error

abbrev pub in_execution : Option TaskView → Option InFlight
in_execution none = none
in_execution (some t) = some (t, "execution")

module _ (env : Env) where
  -- What `_finalize_budget_exceeded` does when the run is not cancelled.
  unfoldable pub exhaust : ℕ → BudgetExceeded → Option TaskView → Action Done
  exhaust run_id be task = do
    emit run_id Types.budget_exceeded (
        field "budget" (str (codes be.budget))
          (field "limit" (nat be.limit) (field "used" (nat be.used) (budget_fields env.py task))))
    fail_in_flight env.py run_id task (codes "budget exceeded: " ++ codes be.budget)
    skip_pending_tasks env.py run_id (codes "run out of budget")
    finalize_failed run_id (codes "budget exceeded: " ++ codes be.budget)

  unfoldable pub finalize_budget_exceeded : ℕ → BudgetExceeded → Option TaskView → Action Done
  unfolding exhaust
  finalize_budget_exceeded run_id be task = do
    stop ← is_set env
    if stop
        then finalize_cancelled_run env.py run_id (in_execution task)
        else exhaust run_id be task
