-- ===== src/Runtime/Manager/Settled.antt =====
-- The finalizers of a run leave no task of it open, and end its row and its ledger.
mod Status
use atlas_the_agent.Base.{
  inr, inl, ◌⊎◌, ◌∙◌, ℕ, ◌≡◌, refl, true, Option, none, some, List, [], ◌∷◌, All, Text, codes, ◌==◌,
  arith,
}
use atlas_the_agent.Core.Python.{Python}
use atlas_the_agent.Core.Json.{Fields, str, field, end}
use atlas_the_agent.Events.Types
use atlas_the_agent.Events.Types.{EventType}
use atlas_the_agent.Agent.Schemas.{RunStatus, TaskStatus, TaskView}
use atlas_the_agent.Persistence.Ledger.{append}
use atlas_the_agent.Persistence.Runs.{set_status, set_error}
use atlas_the_agent.Persistence.Tasks.{mark_failed, mark_cancelled}
use atlas_the_agent.Persistence.Tasks.Status.{Flies, IsIdle, IsSettled, set_task-IsIdle, All-update}
use atlas_the_agent.Persistence.Tasks.Listed.{bulk_skip-listed}
use atlas_the_agent.Runtime.Budget.{BudgetExceeded}
use atlas_the_agent.Recovery.Track.{Phase, step}
use atlas_the_agent.Recovery.Track.Ledger.{ledger_phase, ledger_phase-emit_to}
use atlas_the_agent.Runtime.Manager.Finalize.{
  in_execution, finalize_failed, finalize_cancelled, InFlight, emit_skips, emit_task_skipped,
  fail_task, skip_pending, skip_pending_tasks, cancel_task, finalize_cancelled_run, fail_in_flight,
  exhaust, finalize_budget_exceeded,
}
use atlas_the_agent.Process.{Exc, Env, World, emit, emit_to, session_value, is_set, tick}
use atlas_the_agent.Process.Triple.{
  Triple, Triple-pure, Triple-bind, Triple-if, Triple-weaken, Post,
}
pub use atlas_the_agent.Runtime.Manager.Settled.Status.{
  HasRowStatus, HasStatus, HasEnded, everywhere, set_status-HasRowStatus, ended-HasStatus,
}

-- The tasks of a run that may be finalized: none is in flight but the one that is given.
abbrev pub HasInFlight : ℕ → Option TaskView → List TaskView → Type 0
HasInFlight r none ts = IsIdle r ts
HasInFlight r (some t) ts = Flies r t.id ts

-- The task of a cancellation.
abbrev pub task_of : Option InFlight → Option TaskView
task_of none = none
task_of (some (t, phase)) = some t

-- How a run whose budget is exceeded ends.
abbrev pub HasStopped : ℕ → World → Type 0
HasStopped r w = HasEnded r RunStatus.cancelled w ⊎ HasEnded r RunStatus.failed w

module _ {E : Exc → World → Type 0} (r : ℕ) where
  module _ (T : List TaskView → Type 0) where
    pub finalize_failed-Triple :
        (error : Text)
        → Triple
            (λ w. T w.db.tasks)
            (finalize_failed r error)
            (λ u w. HasStatus r RunStatus.failed w × T w.db.tasks)
            E
    unfolding finalize_failed emit emit_to append set_status set_error step
    finalize_failed-Triple error = record {
      at = λ w h. (
        ended-HasStatus r RunStatus.failed Types.run_failed (field "error" (str error) end)
            (record w { db = set_error r error w.db }) (λ p. refl),
        h,
      );
    }

    pub finalize_cancelled-Triple :
        Triple
          (λ w. T w.db.tasks)
          (finalize_cancelled r)
          (λ u w. HasStatus r RunStatus.cancelled w × T w.db.tasks)
          E
    unfolding finalize_cancelled emit emit_to append set_status step
    finalize_cancelled-Triple = record {
      at = λ w h. (ended-HasStatus r RunStatus.cancelled Types.run_cancelled end w (λ p. refl), h);
    }

    emit_skips-Triple :
        (py : Python) (reason : Text) (ts : List TaskView)
        → Triple (λ w. T w.db.tasks) (emit_skips py r reason ts) (λ u w. T w.db.tasks) E
    unfolding emit_skips emit_task_skipped emit emit_to append
    emit_skips-Triple py reason [] = Triple-pure tt (λ w h. h)
    emit_skips-Triple py reason (t ∷ ts) =
        Triple-bind (emit_task_skipped py r reason t) _ (record { at = λ w h. h })
          (λ u. emit_skips-Triple py reason ts)

  pub skip_pending_tasks-Triple :
      (py : Python) (reason : Text)
      → Triple
          (λ w. IsIdle r w.db.tasks)
          (skip_pending_tasks py r reason)
          (λ u w. IsSettled r w.db.tasks)
          E
  unfolding skip_pending_tasks skip_pending
  skip_pending_tasks-Triple py reason =
      Triple-bind (session_value (skip_pending py r)) _
        (record { at = λ w h. bulk_skip-listed r w.db h })
        (λ ts. emit_skips-Triple (IsSettled r) py reason ts)

  -- The task in flight fails, or is cancelled.
  pub fail_task-Triple :
      (py : Python) (t : TaskView) (error : Text)
      → Triple
          (λ w. Flies r t.id w.db.tasks)
          (fail_task py r t error)
          (λ u w. IsIdle r w.db.tasks)
          E
  unfolding fail_task emit emit_to append mark_failed
  fail_task-Triple py t error = record {
    at = λ w h. set_task-IsIdle r t.id w.db TaskStatus.failed none (some error) refl h;
  }

  cancel_task-Triple :
      (py : Python) (c : Option InFlight)
      → Triple
          (λ w. HasInFlight r (task_of c) w.db.tasks)
          (cancel_task py r c)
          (λ u w. IsIdle r w.db.tasks)
          E
  unfolding emit emit_to append mark_cancelled
  cancel_task-Triple py none = Triple-pure tt (λ w h. h)
  cancel_task-Triple py (some (t, phase)) = record {
    at = λ w h. set_task-IsIdle r t.id w.db TaskStatus.cancelled none none refl h;
  }

  pub finalize_cancelled_run-Triple :
      (py : Python) (c : Option InFlight)
      → Triple
          (λ w. HasInFlight r (task_of c) w.db.tasks)
          (finalize_cancelled_run py r c)
          (λ u w. HasEnded r RunStatus.cancelled w)
          E
  unfolding finalize_cancelled_run
  finalize_cancelled_run-Triple py c =
      Triple-bind (cancel_task py r c) _ (cancel_task-Triple py c) (λ u.
        Triple-bind (skip_pending_tasks py r (codes "run cancelled")) _
          (skip_pending_tasks-Triple py (codes "run cancelled"))
          (λ v. finalize_cancelled-Triple (IsSettled r)))

  -- The cancellation that `_finalize_budget_exceeded` sees.
  cancelled-Triple :
      (env : Env) (t : Option TaskView)
      → Triple
          (λ w. HasInFlight r t w.db.tasks)
          (finalize_cancelled_run env.py r (in_execution t))
          (λ u w. HasEnded r RunStatus.cancelled w)
          E
  cancelled-Triple env none = finalize_cancelled_run-Triple env.py none
  cancelled-Triple env (some t) = finalize_cancelled_run-Triple env.py (some (t, "execution"))

  fail_in_flight-Triple :
      (py : Python) (t : Option TaskView) (error : Text)
      → Triple
          (λ w. HasInFlight r t w.db.tasks)
          (fail_in_flight py r t error)
          (λ u w. IsIdle r w.db.tasks)
          E
  fail_in_flight-Triple py none error = Triple-pure tt (λ w h. h)
  fail_in_flight-Triple py (some t) error = fail_task-Triple py t error

  emit-Triple :
      (T : List TaskView → Type 0) (type : EventType) (payload : Fields)
      → Triple (λ w. T w.db.tasks) (emit r type payload) (λ u w. T w.db.tasks) E
  unfolding emit emit_to append
  emit-Triple T type payload = record { at = λ w h. h }

  exhaust-Triple :
      (env : Env) (be : BudgetExceeded) (t : Option TaskView)
      → Triple
          (λ w. HasInFlight r t w.db.tasks)
          (exhaust env r be t)
          (λ u w. HasEnded r RunStatus.failed w)
          E
  unfolding exhaust
  exhaust-Triple env be t =
      Triple-bind (emit r Types.budget_exceeded _) _ (emit-Triple (HasInFlight r t) _ _) λ u.
        Triple-bind (fail_in_flight env.py r t _) _ (fail_in_flight-Triple env.py t _) λ v.
          Triple-bind (skip_pending_tasks env.py r _) _ (skip_pending_tasks-Triple env.py _)
            λ x. finalize_failed-Triple (IsSettled r) _

  is_set-Triple :
      (env : Env) (T : List TaskView → Type 0)
      → Triple (λ w. T w.db.tasks) (is_set env) (λ b w. T w.db.tasks) E
  unfolding is_set tick
  is_set-Triple env T = record { at = λ w h. h }

  pub finalize_budget_exceeded-Triple :
      (env : Env) (be : BudgetExceeded) (t : Option TaskView)
      → Triple
          (λ w. HasInFlight r t w.db.tasks)
          (finalize_budget_exceeded env r be t)
          (λ u w. HasStopped r w)
          E
  unfolding finalize_budget_exceeded
  finalize_budget_exceeded-Triple env be t =
      Triple-bind (is_set env) _ (is_set-Triple env (HasInFlight r t)) λ stop.
        Triple-if stop _ _ (Triple-weaken (λ u w h. inl h) (cancelled-Triple env t))
          (Triple-weaken (λ u w h. inr h) (exhaust-Triple env be t))

-- A cancelled run: whatever its tasks were, `_finalize_cancelled_run` returns, ends the row of the
-- run and its ledger as cancelled, and leaves no task of the run pending, running or retrying, provided that no
-- task of the run but the one that it is given was running or retrying.
pub finalize_cancelled_run-HasEnded :
    (py : Python) (r : ℕ) (c : Option InFlight) (w : World)
    → HasInFlight r (task_of c) w.db.tasks
    → Post (λ u. HasEnded r RunStatus.cancelled) (λ e v. ⊥) (finalize_cancelled_run py r c w)
finalize_cancelled_run-HasEnded py r c w h = (finalize_cancelled_run-Triple r py c).at w h

-- A run out of budget: `_finalize_budget_exceeded` returns, ends the row of the run and its ledger
-- as cancelled or as failed, both the same, and leaves no task of the run pending, running or retrying, provided that no task of the
-- run but the one that it is given was running or retrying.
pub finalize_budget_exceeded-HasStopped :
    (env : Env) (r : ℕ) (be : BudgetExceeded) (t : Option TaskView) (w : World)
    → HasInFlight r t w.db.tasks
    → Post (λ u. HasStopped r) (λ e v. ⊥) (finalize_budget_exceeded env r be t w)
finalize_budget_exceeded-HasStopped env r be t w h =
    (finalize_budget_exceeded-Triple r env be t).at w h
