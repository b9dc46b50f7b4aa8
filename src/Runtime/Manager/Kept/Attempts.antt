-- ===== src/Runtime/Manager/Kept/Attempts.antt =====
-- The attempts on a task keep every aside invariant of the process: Runtime/Manager/Attempt.
use atlas_the_agent.Runtime.Manager.Kept.Rules.{method_rules}
use atlas_the_agent.Base.{ℕ, zero, suc, String, Option, none, some, List, Text}
use atlas_the_agent.Core.Settings.{Settings}
use atlas_the_agent.Agent.Schemas.{
  TaskView, PriorTaskOutput, ReflectionDecision, accept, retry, replan, abort, ReflectionResult,
}
use atlas_the_agent.Persistence.Runs.{set_answer}
use atlas_the_agent.Persistence.Tasks.{mark_running, mark_done, mark_retrying}
use atlas_the_agent.Persistence.Attempts.{record_reflection}
use atlas_the_agent.Runtime.Manager.Finalize.{
  emit_task_started, emit_task_completed, emit_task_reflected, emit_task_retrying,
}
use atlas_the_agent.Runtime.Manager.Attempt
use atlas_the_agent.Runtime.Manager.Attempt.{
  Round, finished, again, on_round, charging_retry, check_cancel, write_memory, deliver_partial,
  no_partial, compose_partial, graceful_abort, escalate, on_failure, on_exception, execute_attempt,
  judge, accept_task, retry_task, give_up, act_by, act_on, conclude, round, rounds, run_task,
}
use atlas_the_agent.Memory.{MemoryService, ServiceKeeps}
use atlas_the_agent.Memory.Schemas.{MemoryOutcome}
use atlas_the_agent.Process.{
  Exc, budget_exceeded, run_cancelled, llm_error, executor_error, Env, World,
}
use atlas_the_agent.Process.Keeps.{Keeps, IsAside, BearsSessions, BearsEvents, Keeps-raise}

module _ {P : World → Type 0} (aside : IsAside P) (sessions : BearsSessions P)
    (events : BearsEvents P) (env : Env) (settings : Settings) (memory : MemoryService)
    (service : ServiceKeeps P memory) (r : ℕ) (goal : Text) where
  Keeps-check_cancel :
      (t : TaskView) (phase : String) → Keeps P (check_cancel env settings memory r goal t phase)
  unfolding check_cancel
  Keeps-check_cancel t phase = search method_rules

  pub Keeps-write_memory :
      (outcome : MemoryOutcome) (text : Text)
      → Keeps P (write_memory env settings memory r goal outcome text)
  unfolding write_memory
  Keeps-write_memory outcome text = search (method_rules, service.at_write)

  module _ (t : TaskView) (outputs : List PriorTaskOutput) where
    Keeps-deliver_partial :
        (error text : Text)
        → Keeps P (deliver_partial env settings memory r goal t outputs error text)
    unfolding deliver_partial set_answer
    Keeps-deliver_partial error text = search (method_rules, Keeps-write_memory) depth 8

    Keeps-no_partial : (e : Exc) → Keeps P (no_partial env settings memory r goal t outputs e)
    Keeps-no_partial (budget_exceeded be) = search method_rules
    Keeps-no_partial _ = Keeps-raise _

    Keeps-compose_partial : Keeps P (compose_partial env settings memory r goal t outputs)
    unfolding compose_partial
    Keeps-compose_partial = search (method_rules, Keeps-no_partial)

    Keeps-graceful_abort :
        (v : Option ReflectionResult)
        → Keeps P (graceful_abort env settings memory r goal t outputs v)
    unfolding graceful_abort
    Keeps-graceful_abort v =
        search (method_rules, Keeps-check_cancel, Keeps-compose_partial, Keeps-deliver_partial)
          depth 9

    Keeps-escalate :
        (v : Option ReflectionResult) → Keeps P (escalate env settings memory r goal t outputs v)
    unfolding escalate
    Keeps-escalate v = search (method_rules, Keeps-check_cancel, Keeps-graceful_abort) depth 8

    Keeps-on_failure :
        (message : Text) → Keeps P (on_failure env settings memory r goal t outputs message)
    unfolding on_failure
    Keeps-on_failure message = search (method_rules, Keeps-check_cancel) depth 8

    Keeps-on_exception : (e : Exc) → Keeps P (on_exception env settings memory r goal t outputs e)
    Keeps-on_exception run_cancelled = Keeps-raise _
    Keeps-on_exception (executor_error m) = Keeps-on_failure m
    Keeps-on_exception (llm_error m) = Keeps-on_failure m
    Keeps-on_exception _ = Keeps-raise _

    Keeps-execute_attempt :
        (a : Attempt.Attempt) (total : ℕ)
        → Keeps P (execute_attempt env settings memory r goal t outputs a total)
    unfolding execute_attempt
    Keeps-execute_attempt a total = search (method_rules, Keeps-on_exception)

    Keeps-judge :
        (a : Attempt.Attempt) (output : Text) (error : Option Text)
        → Keeps P (judge env settings memory r goal t outputs a output error)
    unfolding judge record_reflection emit_task_reflected
    Keeps-judge a output error = search (method_rules, Keeps-check_cancel) depth 12

    Keeps-act_by :
        (d : ReflectionDecision) (a : Attempt.Attempt) (output : Text) (v : ReflectionResult)
        → Keeps P (act_by env settings memory r goal t outputs d a output v)
    unfolding act_by mark_done mark_retrying emit_task_completed emit_task_retrying
    Keeps-act_by accept a output v = search method_rules
    Keeps-act_by retry a output v =
        search (method_rules, Keeps-check_cancel, Keeps-escalate) depth 10
    Keeps-act_by replan a output v = search (method_rules, Keeps-escalate)
    Keeps-act_by abort a output v = search (method_rules, Keeps-escalate)

    Keeps-act_on :
        (a : Attempt.Attempt) (output : Text) (v : Option ReflectionResult)
        → Keeps P (act_on env settings memory r goal t outputs a output v)
    unfolding act_on accept_task mark_done emit_task_completed
    Keeps-act_on a output none = search method_rules
    Keeps-act_on a output (some v) = Keeps-act_by v.decision a output v

    Keeps-round :
        (total : ℕ) (a : Attempt.Attempt)
        → Keeps P (round env settings memory r goal t outputs total a)
    unfolding round conclude mark_running emit_task_started
    Keeps-round total a =
        search (method_rules, Keeps-check_cancel, Keeps-execute_attempt, Keeps-judge, Keeps-act_on)
          depth 10

    Keeps-rounds :
        (fuel total : ℕ) (a : Attempt.Attempt)
        → Keeps P (rounds env settings memory r goal t outputs fuel total a)
    unfolding rounds
    Keeps-rounds zero total a = Keeps-raise _
    Keeps-rounds (suc fuel) total a = search (method_rules, Keeps-round, Keeps-rounds fuel)

    pub Keeps-run_task : (total : ℕ) → Keeps P (run_task env settings memory r goal t outputs total)
    unfolding run_task
    Keeps-run_task total = Keeps-rounds _ total _
