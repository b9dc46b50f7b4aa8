-- ===== src/Runtime/Manager/Once/Finalizers.antt =====
-- The finalizers end the run once.
use atlas_the_agent.Runtime.Manager.Once.Rules.{
  HasEndings, endings-emit_to, Closes, always, closes_rules,
}
use atlas_the_agent.Base.{ℕ, ◌+◌, ◌≡◌, ap, ◌∙◌, true, Option, Text}
use atlas_the_agent.Core.Json.{Fields}
use atlas_the_agent.Events.Types.{EventType}
use atlas_the_agent.Agent.Schemas.{TaskView}
use atlas_the_agent.Api.Stream.{ends_stream}
use atlas_the_agent.Persistence.Runs.{set_status, set_answer, set_error}
use atlas_the_agent.Runtime.Budget.{BudgetExceeded}
use atlas_the_agent.Runtime.Manager.Finalize.{
  finalize_done, finalize_failed, finalize_cancelled, InFlight, finalize_cancelled_run, exhaust,
  finalize_budget_exceeded,
}
use atlas_the_agent.Runtime.Manager.Kept.Rules.{method_rules}
use atlas_the_agent.Runtime.Manager.Kept.Finalizers.{Keeps-cancel_task, Keeps-fail_in_flight}
use atlas_the_agent.Process.{emit, Env}
use atlas_the_agent.Process.Keeps.{IsAside, BearsSessions}

module _ (r : ℕ) where
  pub Closes-ending :
      (type : EventType) (payload : Fields)
      → ends_stream type ≡ true
      → Closes r always (emit r type payload)
  unfolding emit
  Closes-ending type payload e = record {
    run = record { at = λ w h. endings-emit_to r type payload w.db e ∙ ap (λ n. n + 1) h };
  }

module _ (r : ℕ) (aside : IsAside (HasEndings r 0))
    (sessions : BearsSessions (HasEndings r 0)) where
  pub Closes-finalize_done : (text : Text) → Closes r always (finalize_done r text)
  unfolding finalize_done set_status set_answer
  Closes-finalize_done text = search (closes_rules, method_rules, Closes-ending)

  pub Closes-finalize_failed : (error : Text) → Closes r always (finalize_failed r error)
  unfolding finalize_failed set_status set_error
  Closes-finalize_failed error = search (closes_rules, method_rules, Closes-ending)

  pub Closes-finalize_cancelled : Closes r always (finalize_cancelled r)
  unfolding finalize_cancelled set_status
  Closes-finalize_cancelled = search (closes_rules, method_rules, Closes-ending)

  module _ (env : Env) where
    pub Closes-finalize_cancelled_run :
        (c : Option InFlight) → Closes r always (finalize_cancelled_run env.py r c)
    unfolding finalize_cancelled_run
    Closes-finalize_cancelled_run c =
        search (closes_rules, method_rules, Keeps-cancel_task, Closes-finalize_cancelled)

    pub Closes-finalize_budget_exceeded :
        (be : BudgetExceeded) (t : Option TaskView)
        → Closes r always (finalize_budget_exceeded env r be t)
    unfolding finalize_budget_exceeded exhaust
    Closes-finalize_budget_exceeded be t =
        search
          (
            closes_rules, method_rules, Keeps-fail_in_flight, Closes-finalize_failed,
            Closes-finalize_cancelled_run,
          )
          depth 8
