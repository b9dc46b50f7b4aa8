-- ===== src/Runtime/Manager/Kept.antt =====
-- Every method of the manager keeps every aside invariant of the process, if the memory does.
pub mod Rules
pub mod Finalizers
mod Attempts
use Rules.{method_rules}
use Attempts.{Keeps-write_memory, Keeps-run_task}
use atlas_the_agent.Base.{
  ℕ, zero, suc, Bool, true, false, String, Option, none, some, List, [], ◌∷◌, Text,
}
use atlas_the_agent.Core.Settings.{Settings}
use atlas_the_agent.Events.Types
use atlas_the_agent.Agent.Schemas.{
  TaskView, PlannedTask, PriorTaskOutput, ReflectionDecision, accept, retry, replan, abort,
  ReflectionResult,
}
use atlas_the_agent.Agent.Kept.{
  Keeps-plan, Keeps-plan_again, Keeps-reflect, Keeps-answer, Keeps-run,
}
use atlas_the_agent.Persistence.Runs.{create, set_status, set_answer}
use atlas_the_agent.Persistence.Tasks.{
  mark_running, mark_done, mark_retrying, bulk_skip, bulk_create, append_generation,
}
use atlas_the_agent.Persistence.Attempts.{record_reflection}
use atlas_the_agent.Runtime.Budget.{from_settings}
use atlas_the_agent.Runtime.Manager.Finalize.{
  emit_task_started, emit_task_completed, emit_task_reflected, emit_task_retrying,
}
use atlas_the_agent.Runtime.Manager.Attempt
use atlas_the_agent.Runtime.Manager.Attempt.{
  Round, finished, again, on_round, charging_retry, check_cancel, write_memory, deliver_partial,
  no_partial, compose_partial, graceful_abort, escalate, on_failure, on_exception, execute_attempt,
  judge, accept_task, retry_task, give_up, act_by, act_on, conclude, round, rounds, run_task,
}
use atlas_the_agent.Runtime.Manager.Replan.{
  charging_replan, emit_plan_replanned, fail_replan, no_plan, plan_rest, swap_generation,
  adopt_plan, do_replan,
}
use atlas_the_agent.Runtime.Manager.Tasks.{
  Turn, ran, closed, swapped, Pass, completed, stopped, replanned, on_turn, on_pass, on_signal,
  turn, pass, generations, run_tasks,
}
use atlas_the_agent.Runtime.Manager.Execute
use atlas_the_agent.Runtime.Manager.Execute.{
  keep_lessons, open_budget, recall_lessons, plan_tasks, plan_run, stream_words, stream_answer,
  deliver, synthesize, phases, execute,
}
use atlas_the_agent.Memory.{MemoryService, ServiceKeeps}
use atlas_the_agent.Memory.Schemas.{MemoryOutcome}
use atlas_the_agent.Process.{
  emit, Exc, cancelled, budget_exceeded, run_cancelled, llm_error, executor_error, planner_error,
  Env, World, Action,
}
use atlas_the_agent.Process.Keeps.{
  Keeps, IsAside, BearsSessions, BearsEvents, Keeps-raise, Keeps-pure, Keeps-bind, Keeps-catch,
  Keeps-if, Keeps-is_set, Keeps-event,
}

module _ {P : World → Type 0} (aside : IsAside P) (sessions : BearsSessions P)
    (events : BearsEvents P) (env : Env) (settings : Settings) (memory : MemoryService)
    (service : ServiceKeeps P memory) (r : ℕ) (goal : Text) where
  Keeps-no_plan : (t : TaskView) (e : Exc) → Keeps P (no_plan env settings r goal t e)
  unfolding fail_replan
  Keeps-no_plan t (budget_exceeded be) = search method_rules
  Keeps-no_plan t (planner_error m) = search method_rules
  Keeps-no_plan t (llm_error m) = search method_rules
  Keeps-no_plan t _ = Keeps-raise _

  Keeps-plan_rest :
      (t : TaskView) (os : List PriorTaskOutput) (reason : Text)
      → Keeps P (plan_rest env settings r goal t os reason)
  unfolding plan_rest
  Keeps-plan_rest t os reason = search (method_rules, Keeps-no_plan)

  Keeps-swap_generation :
      (ts : List TaskView) (reason : Text) (ps : List PlannedTask)
      → Keeps P (swap_generation env settings r goal ts reason ps)
  unfolding swap_generation bulk_skip append_generation emit_plan_replanned
  Keeps-swap_generation ts reason ps = search method_rules depth 9

  Keeps-do_replan :
      (t : TaskView) (v : Option ReflectionResult) (ts : List TaskView) (os : List PriorTaskOutput)
      → Keeps P (do_replan env settings r goal t v ts os)
  unfolding do_replan adopt_plan
  Keeps-do_replan t v ts os = search (method_rules, Keeps-plan_rest, Keeps-swap_generation) depth 12

  Keeps-on_signal :
      (t : TaskView) (ts : List TaskView) (os : List PriorTaskOutput) (e : Exc)
      → Keeps P (on_signal env settings memory r goal t ts os e)
  unfolding on_signal
  Keeps-on_signal t ts os (cancelled u phase) = search method_rules
  Keeps-on_signal t ts os (budget_exceeded be) = search method_rules
  Keeps-on_signal t ts os (Exc.replan u v) = search (method_rules, Keeps-do_replan)
  Keeps-on_signal t ts os _ = Keeps-raise _

  Keeps-turn :
      (total : ℕ) (t : TaskView) (ts : List TaskView) (os : List PriorTaskOutput)
      → Keeps P (turn env settings memory r goal total t ts os)
  unfolding turn
  Keeps-turn total t ts os = search (
    method_rules,
    Keeps-run_task aside sessions events env settings memory service r goal,
    Keeps-on_signal,
  )

  Keeps-pass :
      (total : ℕ) (ts : List TaskView) (os : List PriorTaskOutput)
      → Keeps P (pass env settings memory r goal total ts os)
  unfolding pass
  Keeps-pass total [] os = Keeps-pure _
  Keeps-pass total (t ∷ ts) os = search (method_rules, Keeps-turn, Keeps-pass total ts) depth 8

  Keeps-generations :
      (fuel : ℕ) (ts : List TaskView) (os : List PriorTaskOutput)
      → Keeps P (generations env settings memory r goal fuel ts os)
  unfolding generations
  Keeps-generations zero [] os = Keeps-pure _
  Keeps-generations zero (t ∷ ts) os = Keeps-raise _
  Keeps-generations (suc fuel) [] os = Keeps-pure _
  Keeps-generations (suc fuel) (t ∷ ts) os =
      search (method_rules, Keeps-pass, Keeps-generations fuel)

  Keeps-run_tasks : (ts : List TaskView) → Keeps P (run_tasks env settings memory r goal ts)
  unfolding run_tasks set_status
  Keeps-run_tasks ts = search (method_rules, Keeps-generations)

  Keeps-plan_run : Keeps P (plan_run env settings memory r goal)
  unfolding plan_run plan_tasks recall_lessons set_status bulk_create
  Keeps-plan_run = search (method_rules, service.at_recall) depth 14

  Keeps-stream_words :
      (first : Bool) (words : List Text)
      → Keeps P (stream_words env settings memory r goal first words)
  unfolding stream_words
  Keeps-stream_words first [] = Keeps-pure _
  Keeps-stream_words first (word ∷ words) = Keeps-bind _ _ (Keeps-is_set aside env) λ stop.
      Keeps-if stop _ _ (Keeps-pure _) (
        Keeps-bind (emit r Types.answer_token _) _ (Keeps-event events r _ _)
          (λ _. Keeps-stream_words false words))

  Keeps-synthesize :
      (os : List PriorTaskOutput) → Keeps P (synthesize env settings memory r goal os)
  unfolding synthesize deliver stream_answer
  Keeps-synthesize os =
      search
        (
          method_rules,
          Keeps-stream_words,
          Keeps-write_memory aside sessions events env settings memory service r goal,
        )
        depth 12

  Keeps-handler : (e : Exc) → Keeps P (Execute.on_exception env settings memory r goal e)
  unfolding Execute.on_exception
  Keeps-handler (cancelled t phase) = search method_rules
  Keeps-handler (Exc.replan t v) = search method_rules
  Keeps-handler run_cancelled = search method_rules
  Keeps-handler (budget_exceeded be) = search method_rules
  Keeps-handler (planner_error m) = search method_rules
  Keeps-handler (llm_error m) = search method_rules
  Keeps-handler (executor_error m) = search method_rules
  Keeps-handler (Exc.unexpected m) = search method_rules
  Keeps-handler Exc.out_of_fuel = Keeps-raise _

  Keeps-phases : Keeps P (phases env settings memory r goal)
  unfolding phases
  Keeps-phases = search (method_rules, Keeps-plan_run, Keeps-run_tasks, Keeps-synthesize) depth 9

  -- What holds once the run's budget is opened holds when the run has ended, however it ends.
  pub execute-keeps :
      (w : World)
      → P (record w { budget = from_settings settings })
      → P (execute env settings memory r goal w).1
  unfolding execute
  execute-keeps w h =
      (Keeps-catch (phases env settings memory r goal) _ Keeps-phases Keeps-handler).at
        (record w { budget = from_settings settings }) h
