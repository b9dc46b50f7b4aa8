-- ===== src/Runtime/Manager/Kept/Finalizers.antt =====
-- Every finalizer keeps every aside invariant of the process.
use atlas_the_agent.Base.{ℕ, Option, none, some, List, [], ◌∷◌, Text}
use atlas_the_agent.Agent.Schemas.{TaskView}
use atlas_the_agent.Agent.Kept.{branch_rules}
use atlas_the_agent.Persistence.Runs.{set_status, set_answer, set_error}
use atlas_the_agent.Persistence.Tasks.{mark_failed, mark_cancelled, bulk_skip, set_attempt_count}
use atlas_the_agent.Persistence.Attempts
use atlas_the_agent.Runtime.Budget.{BudgetExceeded}
use atlas_the_agent.Runtime.Manager.Finalize.{
  finalize_done, finalize_failed, finalize_cancelled, InFlight, emit_task_skipped, emit_skips,
  fail_task, skip_pending, skip_pending_tasks, cancel_task, finalize_cancelled_run, record_attempt,
  fail_in_flight, exhaust, finalize_budget_exceeded,
}
use atlas_the_agent.Process.{Env, World}
use atlas_the_agent.Process.Keeps.{Keeps, IsAside, BearsSessions, BearsEvents, Keeps-bind}

module _ {P : World → Type 0} (aside : IsAside P) (sessions : BearsSessions P) (r : ℕ) where
  module _ (env : Env) where
    pub Keeps-emit_skips :
        (reason : Text) (ts : List TaskView) → Keeps P (emit_skips env.py r reason ts)
    unfolding emit_skips emit_task_skipped
    Keeps-emit_skips reason [] = search branch_rules
    Keeps-emit_skips reason (t ∷ ts) =
        Keeps-bind (emit_task_skipped env.py r reason t) _ (search branch_rules)
          (λ u. Keeps-emit_skips reason ts)

    pub Keeps-fail_task : (t : TaskView) (error : Text) → Keeps P (fail_task env.py r t error)
    unfolding fail_task mark_failed
    Keeps-fail_task t error = search branch_rules

    pub Keeps-skip_pending_tasks : (reason : Text) → Keeps P (skip_pending_tasks env.py r reason)
    unfolding skip_pending_tasks skip_pending bulk_skip
    Keeps-skip_pending_tasks reason = search (branch_rules, Keeps-emit_skips)

    pub Keeps-cancel_task : (c : Option InFlight) → Keeps P (cancel_task env.py r c)
    unfolding mark_cancelled
    Keeps-cancel_task none = search branch_rules
    Keeps-cancel_task (some (t, phase)) = search branch_rules

    pub Keeps-record_attempt :
        (t : TaskView) (attempt : ℕ) (output : Text) (error : Option Text)
        → Keeps P (record_attempt env.py r t attempt output error)
    unfolding record_attempt Attempts.create set_attempt_count
    Keeps-record_attempt t attempt output error = search branch_rules

    pub Keeps-fail_in_flight :
        (t : Option TaskView) (error : Text) → Keeps P (fail_in_flight env.py r t error)
    Keeps-fail_in_flight none error = search branch_rules
    Keeps-fail_in_flight (some t) error = Keeps-fail_task t error

module _ {P : World → Type 0} (aside : IsAside P) (sessions : BearsSessions P)
    (events : BearsEvents P) (r : ℕ) where
  pub Keeps-finalize_done : (text : Text) → Keeps P (finalize_done r text)
  unfolding finalize_done set_status set_answer
  Keeps-finalize_done text = search branch_rules

  pub Keeps-finalize_failed : (error : Text) → Keeps P (finalize_failed r error)
  unfolding finalize_failed set_status set_error
  Keeps-finalize_failed error = search branch_rules

  pub Keeps-finalize_cancelled : Keeps P (finalize_cancelled r)
  unfolding finalize_cancelled set_status
  Keeps-finalize_cancelled = search branch_rules

  module _ (env : Env) where
    pub Keeps-finalize_cancelled_run :
        (c : Option InFlight) → Keeps P (finalize_cancelled_run env.py r c)
    unfolding finalize_cancelled_run
    Keeps-finalize_cancelled_run c =
        search (branch_rules, Keeps-cancel_task, Keeps-skip_pending_tasks, Keeps-finalize_cancelled)

    pub Keeps-finalize_budget_exceeded :
        (be : BudgetExceeded) (t : Option TaskView) → Keeps P (finalize_budget_exceeded env r be t)
    unfolding finalize_budget_exceeded exhaust
    Keeps-finalize_budget_exceeded be t =
        search
          (
            branch_rules, Keeps-fail_in_flight, Keeps-skip_pending_tasks, Keeps-finalize_failed,
            Keeps-finalize_cancelled_run,
          )
          depth 8

pub ruleset finalizer_rules = (
  branch_rules, Keeps-finalize_done, Keeps-finalize_failed, Keeps-finalize_cancelled,
  Keeps-emit_skips, Keeps-fail_task, Keeps-skip_pending_tasks, Keeps-finalize_cancelled_run,
  Keeps-record_attempt, Keeps-finalize_budget_exceeded,
)
