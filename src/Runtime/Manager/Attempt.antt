-- ===== src/Runtime/Manager/Attempt.antt =====
-- `_run_task`, `_escalate` and `_graceful_abort` of `RunManager`.
use atlas_the_agent.Base.{
  on_option, String, ◌&&◌, ℕ, zero, suc, ◌+◌, Bool, true, false, Option, none, some, List, [], ◌∷◌,
  ◌++◌, Text, codes, ltb, ◌==◌, is_empty, if◌then◌else◌,
}
use atlas_the_agent.Core.Json.{str, end, field}
use atlas_the_agent.Core.Settings.{Settings}
use atlas_the_agent.Events.Types
use atlas_the_agent.Agent.Schemas.{
  TaskView, PriorTaskOutput, ReflectionDecision, accept, retry, replan, abort, ReflectionResult,
}
use atlas_the_agent.Agent.Prompts.{build_partial_answer}
use atlas_the_agent.Agent.Context.{build}
use atlas_the_agent.Agent.Executor
use atlas_the_agent.Agent.Reflector.{reflect}
use atlas_the_agent.Agent.Synthesizer.{answer}
use atlas_the_agent.Persistence.Runs.{set_answer}
use atlas_the_agent.Persistence.Tasks.{mark_running, mark_done, mark_retrying}
use atlas_the_agent.Persistence.Attempts.{record_reflection}
use atlas_the_agent.Runtime.Budget.{retries_left, replans_left, charge_retry}
use atlas_the_agent.Runtime.Manager.Finalize.{
  finalize_failed, emit_task_started, emit_task_completed, emit_task_reflected, emit_task_retrying,
  fail_task, skip_pending_tasks, record_attempt, finalize_budget_exceeded,
}
use atlas_the_agent.Memory.{MemoryService}
use atlas_the_agent.Memory.Schemas.{MemoryOutcome, partial}
use atlas_the_agent.Process.{
  Exc, cancelled, budget_exceeded, run_cancelled, llm_error, executor_error, out_of_fuel, Env, ok,
  Action, Done, reads, pure, raise, ◌>>=◌, ◌>>◌, catch, session, when, is_set, emit,
}

-- The variables of the attempt loop.
pub record Attempt : Type 0 where
  pub attempt : ℕ
  pub previous_output : Option Text
  pub critique : Option Text
  pub previous_reasons : List Text

abbrev pub first_attempt : Attempt
first_attempt = record {
  attempt = 1;
  previous_output = none;
  critique = none;
  previous_reasons = [];
}

abbrev pub next_attempt : Text → Text → Attempt → Attempt
next_attempt output reason a = record {
  attempt = a.attempt + 1;
  previous_output = some output;
  critique = some reason;
  previous_reasons = a.previous_reasons ++ reason ∷ [];
}

-- `budget.charge_retry(task.id)`
abbrev pub charging_retry : TaskView → Action Done
charging_retry t w = (ok tt, record w { budget = charge_retry t.id w.budget })

-- How one round of the loop ends: `return`, or `continue` with an output and its critique.
pub data Round : Type 0 where
  finished : Option PriorTaskOutput → Round
  again : Text → Text → Round

abbrev pub on_round :
    (Text → Text → Action (Option PriorTaskOutput)) → Round → Action (Option PriorTaskOutput)
on_round next (finished result) = pure result
on_round next (again output reason) = next output reason

-- The reason of the last verdict, for the error of an abort.
abbrev pub abort_reason : Option ReflectionResult → Text
abort_reason none = codes "recovery options exhausted"
abort_reason (some r) = r.reason

-- `decision in (RETRY, REPLAN)`
abbrev pub asks_replan : Option ReflectionResult → Bool
asks_replan none = false
asks_replan (some r) = elim r.decision [
  | retry ↦ true
  | replan ↦ true
  | accept ↦ false
  | abort ↦ false
]

module _ (env : Env) (settings : Settings) (memory : MemoryService) (run_id : ℕ) (goal : Text) where
  -- `if cancel.is_set(): raise _Cancelled(task, phase)`
  unfoldable pub check_cancel : TaskView → String → Action Done
  check_cancel t phase = do stop ← is_set env; if stop then raise (cancelled t phase) else pure tt

  -- `_write_memory`
  unfoldable pub write_memory : MemoryOutcome → Text → Action Done
  write_memory outcome text =
      if settings.memory_enabled then memory.write run_id goal outcome text else pure tt

  module _ (t : TaskView) (outputs : List PriorTaskOutput) where
    -- The partial answer of `_graceful_abort` once it is composed.
    unfoldable pub deliver_partial : Text → Text → Action Done
    unfolding write_memory
    deliver_partial error partial_text = do
      let text = build_partial_answer partial_text
      session (set_answer run_id text)
      emit run_id Types.answer_completed (field "text" (str text) end)
      finalize_failed run_id error
      write_memory partial text

    abbrev pub no_partial : Exc → Action (Option Text)
    no_partial (budget_exceeded be) = do finalize_budget_exceeded env run_id be none; pure none
    no_partial e = raise e

    -- `except BudgetExceeded` around the synthesis; `none` if the run is finalized.
    unfoldable pub compose_partial : Action (Option Text)
    compose_partial =
        catch (do text ← answer env settings goal outputs; pure (some text)) no_partial

    unfoldable pub graceful_abort : Option ReflectionResult → Action Done
    unfolding check_cancel deliver_partial compose_partial
    graceful_abort result = do
      check_cancel t "reflection"
      let error =
          codes "Task "
          ++ (env.py.show (t.index + 1)
              ++ (codes " could not be completed: " ++ abort_reason result))
      fail_task env.py run_id t error
      skip_pending_tasks env.py run_id (codes "run aborted")
      if is_empty outputs
          then finalize_failed run_id error
          else do composed ← compose_partial; on_option (pure tt) (deliver_partial error) composed

    unfoldable pub escalate : Option ReflectionResult → Action Done
    unfolding graceful_abort
    escalate result = do
      check_cancel t "reflection"
      left ← reads (λ w. replans_left w.budget)
      if asks_replan result && ltb 0 left
          then raise (Exc.replan t result)
          else graceful_abort result

    -- The `try` around `executor.run`: the output and the error of the attempt, or `none` if the
    -- failure has finalized the run.
    unfoldable pub on_failure : Text → Action (Option (Text × Option Text))
    on_failure message = do
      check_cancel t "execution"
      if settings.agent_enable_reflection
          then pure (some (codes "ERROR: " ++ message, some message))
          else do
            fail_task env.py run_id t message
            finalize_failed run_id
                (codes "Task " ++ (env.py.show (t.index + 1) ++ (codes " failed: " ++ message)))
            pure none

    abbrev pub on_exception : Exc → Action (Option (Text × Option Text))
    on_exception run_cancelled = raise (cancelled t "execution")
    on_exception (executor_error message) = on_failure message
    on_exception (llm_error message) = on_failure message
    on_exception e = raise e

    unfoldable pub execute_attempt : Attempt → ℕ → Action (Option (Text × Option Text))
    unfolding on_failure
    execute_attempt a total =
        catch
          (do
            output ←
                Executor.run env settings
                  (record {
                    run_id = run_id;
                    task_id = some t.id;
                    attempt = a.attempt;
                    generation = t.replan_generation;
                  })
                  (build env.tools settings (record {
                    goal = goal;
                    task = t;
                    prior_outputs = outputs;
                    total_tasks = total;
                    attempt = a.attempt;
                    previous_output = a.previous_output;
                    critique_reason = a.critique;
                  }))
            pure (some (output, none)))
          on_exception

    -- The verdict on an attempt: `none` and acceptance without reflection.
    unfoldable pub judge : Attempt → Text → Option Text → Action (Option ReflectionResult)
    judge a output error = do
      attempt_id ← record_attempt env.py run_id t a.attempt output error
      check_cancel t "execution"
      if settings.agent_enable_reflection
          then (do
            result ← reflect env settings goal t output a.attempt a.previous_reasons
            session (record_reflection attempt_id result)
            emit_task_reflected env.py run_id t a.attempt result
            check_cancel t "reflection"
            pure (some result))
          else pure none

    unfoldable pub accept_task : Attempt → Text → Action Round
    accept_task a output = do
      session (mark_done t.id output)
      emit_task_completed env.py run_id t a.attempt output
      pure (
          finished
            (some (record { index = t.index; description = t.description; output = output })))

    unfoldable pub retry_task : Attempt → Text → Text → Action Round
    retry_task a output reason = do
      check_cancel t "execution"
      charging_retry t
      session (mark_retrying t.id)
      emit_task_retrying env.py run_id t (a.attempt + 1) reason
      pure (again output reason)

    unfoldable pub give_up : Option ReflectionResult → Action Round
    unfolding escalate
    give_up result = do escalate result; pure (finished none)

    -- What a decision leads to: a retry that is left, or the recovery ladder.
    unfoldable pub act_by : ReflectionDecision → Attempt → Text → ReflectionResult → Action Round
    unfolding accept_task retry_task give_up
    act_by accept a output r = accept_task a output
    act_by retry a output r = do
      left ← reads (λ w. retries_left t.id w.budget)
      if ltb 0 left then retry_task a output r.reason else give_up (some r)
    act_by replan a output r = give_up (some r)
    act_by abort a output r = give_up (some r)

    -- What the verdict leads to.
    unfoldable pub act_on : Attempt → Text → Option ReflectionResult → Action Round
    unfolding act_by
    act_on a output none = accept_task a output
    act_on a output (some r) = act_by r.decision a output r

    unfoldable pub conclude : Attempt → Text × Option Text → Action Round
    unfolding judge act_on
    conclude a (output, error) = do verdict ← judge a output error; act_on a output verdict

    -- One round of `while True`.
    unfoldable pub round : ℕ → Attempt → Action Round
    unfolding execute_attempt conclude
    round total a = do
      check_cancel t "execution"
      session (mark_running t.id)
      when (a.attempt == 1) (emit_task_started env.py run_id t)
      executed ← execute_attempt a total
      on_option (pure (finished none)) (conclude a) executed

    -- `_run_task`: the loop, on fuel.
    unfoldable pub rounds : ℕ → ℕ → Attempt → Action (Option PriorTaskOutput)
    unfolding round
    rounds zero total a = raise out_of_fuel
    rounds (suc fuel) total a = do
      next ← round total a
      on_round (λ output reason. rounds fuel total (next_attempt output reason a)) next

    -- Each round but the last uses up a retry.
    unfoldable pub run_task : ℕ → Action (Option PriorTaskOutput)
    unfolding rounds
    run_task total = rounds (settings.agent_max_retries + 1) total first_attempt
