-- ===== src/Runtime/Manager/Execute.antt =====
-- `create_run`, `_execute`, `_plan`, `_synthesize` and `_stream_answer` of `RunManager`.
use atlas_the_agent.Base.{
  on_option, ℕ, Bool, true, false, Option, none, some, List, [], ◌∷◌, ◌++◌, Text, codes, ◌==◌,
  if◌then◌else◌,
}
use atlas_the_agent.Core.Json.{str, arr, end, field}
use atlas_the_agent.Core.Settings.{Settings}
use atlas_the_agent.Events.Types
use atlas_the_agent.Agent.Schemas.{RunStatus, TaskView, PriorTaskOutput}
use atlas_the_agent.Agent.Planner.{plan}
use atlas_the_agent.Agent.Synthesizer.{answer}
use atlas_the_agent.Persistence.Runs.{create, set_status}
use atlas_the_agent.Persistence.Tasks.{bulk_create}
use atlas_the_agent.Runtime.Budget.{from_settings}
use atlas_the_agent.Runtime.Manager.Finalize.{
  finalize_done, finalize_failed, finalize_cancelled, finalize_cancelled_run,
  finalize_budget_exceeded,
}
use atlas_the_agent.Runtime.Manager.Attempt.{write_memory}
use atlas_the_agent.Runtime.Manager.Replan.{briefs}
use atlas_the_agent.Runtime.Manager.Tasks.{run_tasks}
use atlas_the_agent.Memory.{MemoryService}
use atlas_the_agent.Memory.Schemas.{done}
use atlas_the_agent.Process.{
  Exc, cancelled, replan, run_cancelled, budget_exceeded, planner_error, llm_error, executor_error,
  unexpected, out_of_fuel, Env, ok, Action, Done, pure, raise, ◌>>=◌, ◌>>◌, catch, session,
  session_value, is_set, emit,
}

-- `answer.split(" ")`
abbrev pub onto_first : ℕ → List Text → List Text
onto_first c [] = (c ∷ []) ∷ []
onto_first c (w ∷ ws) = (c ∷ w) ∷ ws

unfoldable pub split_words : Text → List Text
split_words [] = [] ∷ []
split_words (c ∷ s) = let rest = split_words s in if c == b' ' then [] ∷ rest else onto_first c rest

-- `chunk = word if index == 0 else f" {word}"`
abbrev pub chunk : Bool → Text → Text
chunk true word = word
chunk false word = b' ' ∷ word

-- `RunManager.create_run` up to the scheduling of the run's task.
unfoldable pub create_run : ℕ → Text → Action Done
create_run run_id goal = do
  session (create run_id goal)
  emit run_id Types.run_created (field "goal" (str goal) end)

-- `recalled.rendered or None`
abbrev pub or_none : Text → Option Text
or_none [] = none
or_none (c ∷ s) = some (c ∷ s)

-- `self._lessons[run_id] = recalled.rendered`
abbrev pub keep_lessons : Text → Action Done
keep_lessons rendered w = (ok tt, record w { lessons = or_none rendered })

-- `budget = RunBudget.from_settings(self._settings)`
abbrev pub open_budget : Settings → Action Done
open_budget settings w = (ok tt, record w { budget = from_settings settings })

module _ (env : Env) (settings : Settings) (memory : MemoryService) (run_id : ℕ) (goal : Text) where
  unfoldable pub recall_lessons : Action (Option Text)
  recall_lessons =
      if settings.memory_enabled
      then (do rendered ← memory.recall run_id goal; keep_lessons rendered; pure (or_none rendered))
      else pure none

  -- The part of `_plan` behind its first check.
  unfoldable pub plan_tasks : Action (Option (List TaskView))
  unfolding recall_lessons briefs
  plan_tasks = do
    lessons ← recall_lessons
    planned ← plan env settings goal lessons
    tasks ← session_value (bulk_create run_id planned)
    emit run_id Types.plan_created (field "tasks" (arr (briefs env.py tasks)) end)
    stop ← is_set env
    if stop then (do finalize_cancelled_run env.py run_id none; pure none) else pure (some tasks)

  -- `_plan`: the tasks, or `none` if the run was cancelled.
  unfoldable pub plan_run : Action (Option (List TaskView))
  unfolding plan_tasks
  plan_run = do
    session (set_status run_id RunStatus.planning)
    emit run_id Types.run_started end
    stop ← is_set env
    if stop then (do finalize_cancelled run_id; pure none) else plan_tasks

  -- The loop of `_stream_answer`: whether it was cancelled.
  unfoldable pub stream_words : Bool → List Text → Action Bool
  stream_words first [] = pure false
  stream_words first (word ∷ words) = do
    stop ← is_set env
    if stop then pure true else (do
      emit run_id Types.answer_token (field "text" (str (chunk first word)) end)
      stream_words false words)

  unfoldable pub stream_answer : Text → Action Bool
  unfolding stream_words split_words
  stream_answer text = stream_words true (split_words text)

  unfoldable pub deliver : Text → Action Done
  unfolding stream_answer write_memory
  deliver text = do
    stopped ← stream_answer text
    if stopped
        then finalize_cancelled run_id
        else (do finalize_done run_id text; write_memory env settings memory run_id goal done text)

  -- `_synthesize`
  unfoldable pub synthesize : List PriorTaskOutput → Action Done
  unfolding deliver
  synthesize outputs = do
    stop ← is_set env
    if stop
        then finalize_cancelled run_id
        else (do text ← answer env settings goal outputs; deliver text)

  -- The body of the `try` of `_execute`.
  unfoldable pub phases : Action Done
  unfolding plan_run synthesize run_tasks
  phases = do
    planned ← plan_run
    on_option (pure tt)
        (λ tasks. do
          ran ← run_tasks env settings memory run_id goal tasks
          on_option (pure tt) synthesize ran)
        planned

  -- `str(exc)` of the internal signals.
  abbrev unexpected_error : Text → Action Done
  unexpected_error message = finalize_failed run_id (codes "Unexpected error: " ++ message)

  -- The `except` clauses of `_execute`.
  unfoldable pub on_exception : Exc → Action Done
  on_exception run_cancelled = finalize_cancelled run_id
  on_exception (budget_exceeded be) = finalize_budget_exceeded env run_id be none
  on_exception (planner_error e) = finalize_failed run_id (codes "Planning failed: " ++ e)
  on_exception (llm_error e) = finalize_failed run_id (codes "LLM error: " ++ e)
  on_exception (executor_error e) = finalize_failed run_id e
  on_exception (cancelled t phase) = unexpected_error (codes "cancelled during " ++ codes phase)
  on_exception (replan t result) = unexpected_error (codes "replan requested")
  on_exception (unexpected e) = unexpected_error e
  on_exception out_of_fuel = raise out_of_fuel

  -- `_execute`
  unfoldable pub execute : Action Done
  unfolding phases on_exception
  execute = do open_budget settings; catch phases on_exception
