-- ===== src/Runtime/Manager/Outcome/Attempts.antt =====
-- The turn of one task: `_run_task`, `_escalate` and `_graceful_abort`.
use atlas_the_agent.Runtime.Manager.Outcome.Told.{Stays-task_reflected}
use atlas_the_agent.Runtime.Manager.Outcome.Stages.{InStock, InStock-aside, IsClosed, FromTurn}
use atlas_the_agent.Base.{ℕ, refl, inr, String, Option, none, some, List, Text}
use atlas_the_agent.Core.Settings.{Settings}
use atlas_the_agent.Agent.Schemas.{TaskStatus, TaskId, TaskView, PriorTaskOutput}
use atlas_the_agent.Agent.Raises.{FromExecutor, FromReflector, Stays-reflect, Stays-run}
use atlas_the_agent.Persistence.Tasks.{mark_running, mark_retrying, set_attempt_count}
use atlas_the_agent.Persistence.Attempts
use atlas_the_agent.Persistence.Attempts.{record_reflection}
use atlas_the_agent.Persistence.Tasks.Status.{
  IsIdle, InTurn, set_task-busy, set_attempt_count-InTurn,
}
use atlas_the_agent.Runtime.Manager.Attempt
use atlas_the_agent.Runtime.Manager.Attempt.{
  Round, finished, again, on_round, charging_retry, check_cancel, write_memory, deliver_partial,
  no_partial, compose_partial, graceful_abort, escalate, on_failure, on_exception, execute_attempt,
  judge, accept_task, retry_task, give_up, act_by, act_on, conclude, round, rounds, run_task,
  asks_replan,
}
use atlas_the_agent.Runtime.Manager.Finalize.{
  emit_task_reflected, finalize_failed, fail_task, record_attempt,
}
use atlas_the_agent.Runtime.Manager.Settled.{finalize_failed-Triple, fail_task-Triple}
use atlas_the_agent.Memory.{MemoryService, IsBestEffort}
use atlas_the_agent.Memory.Schemas.{MemoryOutcome}
use atlas_the_agent.Process.{
  Exc, cancelled, run_cancelled, budget_exceeded, planner_error, llm_error, executor_error,
  unexpected, out_of_fuel, Env, World, is_set, session,
}
use atlas_the_agent.Process.Keeps.{IsAside}
use atlas_the_agent.Process.Triple.{
  Triple, Triple-pure, Triple-raise, Triple-if, Triple-bind, Triple-catch, Triple-from,
  Triple-session, Triple-session_value,
}
use atlas_the_agent.Process.Stays.{
  Stays, Stays-pure, Stays-if, Stays-is_set, Triple-quiet, Triple-stays,
}

module _ (env : Env) (settings : Settings) (memory : MemoryService) (best : IsBestEffort memory)
    (r : ℕ) (goal : Text) where
  pub write_memory-Stays :
      (P : World → Type 0)
      → IsAside P
      → (outcome : MemoryOutcome) (text : Text)
      → Stays P (λ e. ⊥) (write_memory env settings memory r goal outcome text)
  unfolding write_memory
  write_memory-Stays P aside outcome text =
      Stays-if settings.memory_enabled _ _ (best.at_write P aside r goal outcome text)
        (Stays-pure tt)

  module _ (t : TaskView) (outputs : List PriorTaskOutput) (rest : List TaskId) (R f : ℕ) where
    -- The task is in its turn, with fewer than `k` retries left.
    abbrev pub Busy : ℕ → World → Type 0
    Busy k = InStock (λ rs ts. InTurn r t.id rest ts) R f t.id k

    Busy-aside : (k : ℕ) → IsAside (Busy k)
    Busy-aside k = InStock-aside (λ rs ts. InTurn r t.id rest ts) R f t.id k

    abbrev pub Escapes : Exc → World → Type 0
    Escapes = FromTurn r R f t.id rest

    pub check_cancel-Triple :
        (k : ℕ) (phase : String)
        → Triple (Busy k) (check_cancel env settings memory r goal t phase) (λ u. Busy k) Escapes
    unfolding check_cancel
    check_cancel-Triple k phase =
        Triple-bind (is_set env) _ (Triple-quiet (Stays-is_set (Busy-aside k) env))
          λ stop. Triple-if stop _ _ (Triple-raise _ (λ w h. h.0.0)) (Triple-pure tt (λ w h. h))

    -- What an attempt leaves: its output, or a closed run.
    abbrev pub Executed : ℕ → Option (Text × Option Text) → World → Type 0
    Executed k none = IsClosed r
    Executed k (some o) = Busy k

    on_failure-Triple :
        (k : ℕ) (message : Text)
        → Triple
            (Busy k)
            (on_failure env settings memory r goal t outputs message)
            (Executed k)
            Escapes
    unfolding on_failure
    on_failure-Triple k message =
        Triple-bind (check_cancel env settings memory r goal t _) _ (check_cancel-Triple k _) λ u.
          Triple-if settings.agent_enable_reflection _ _ (Triple-pure _ (λ w h. h)) (
            Triple-bind (fail_task env.py r t message) _
              (Triple-from (λ w h. h.0.0) (fail_task-Triple r env.py t message))
              λ v.
                Triple-bind (finalize_failed r _) _ (finalize_failed-Triple r (IsIdle r) _)
                  λ x. Triple-pure none (λ w h. inr h))

    on_exception-Triple :
        (k : ℕ) (e : Exc)
        → Triple
            (λ w. FromExecutor e × Busy k w)
            (on_exception env settings memory r goal t outputs e)
            (Executed k)
            Escapes
    on_exception-Triple k run_cancelled = Triple-raise _ (λ w h. h.1.0.0)
    on_exception-Triple k (executor_error m) = Triple-from (λ w h. h.1) (on_failure-Triple k m)
    on_exception-Triple k (llm_error m) = Triple-from (λ w h. h.1) (on_failure-Triple k m)
    on_exception-Triple k (budget_exceeded be) = Triple-raise _ (λ w h. h.1.0.0)
    on_exception-Triple k (unexpected m) = Triple-raise _ (λ w h. tt)
    on_exception-Triple k (cancelled u p) = Triple-raise _ (λ w h. absurd h.0)
    on_exception-Triple k (Exc.replan u v) = Triple-raise _ (λ w h. absurd h.0)
    on_exception-Triple k (planner_error m) = Triple-raise _ (λ w h. absurd h.0)
    on_exception-Triple k out_of_fuel = Triple-raise _ (λ w h. absurd h.0)

    pub execute_attempt-Triple :
        (k : ℕ) (a : Attempt.Attempt) (total : ℕ)
        → Triple
            (Busy k)
            (execute_attempt env settings memory r goal t outputs a total)
            (Executed k)
            Escapes
    unfolding execute_attempt
    execute_attempt-Triple k a total =
        Triple-catch _ _
          (Triple-bind _ _
            (Triple-stays _ (Stays-run (Busy-aside k) env settings _ _) (λ o w h. h)
              (λ e w s h. (s, h)))
            (λ o. Triple-pure _ (λ w h. h)))
          (on_exception-Triple k)

    -- A write to the row of the task that leaves it busy.
    pub mark_running-Triple :
        {E : Exc → World → Type 0} (k : ℕ)
        → Triple (Busy k) (session (mark_running t.id)) (λ u. Busy k) E
    unfolding mark_running
    mark_running-Triple k =
        Triple-session _
          (λ w h. (set_task-busy r t.id rest w.db TaskStatus.running none none refl h.0, h.1, h.2))

    pub mark_retrying-Triple :
        {E : Exc → World → Type 0} (k : ℕ)
        → Triple (Busy k) (session (mark_retrying t.id)) (λ u. Busy k) E
    unfolding mark_retrying
    mark_retrying-Triple k =
        Triple-session _
          (λ w h. (set_task-busy r t.id rest w.db TaskStatus.retrying none none refl h.0, h.1, h.2))

    record_attempt-Triple :
        {E : Exc → World → Type 0} (k n : ℕ) (output : Text) (error : Option Text)
        → Triple (Busy k) (record_attempt env.py r t n output error) (λ i. Busy k) E
    unfolding record_attempt Attempts.create
    record_attempt-Triple k n output error =
        Triple-bind {Q = λ v. Busy k} _ _
          (Triple-session_value (Attempts.create t.id r n (some output) error) (λ w h. h))
          λ v.
            Triple-bind (session (set_attempt_count t.id n)) _
              (Triple-session (set_attempt_count t.id n)
                (λ w h. (set_attempt_count-InTurn r t.id rest w.db n h.0, h.1, h.2)))
              λ u. Triple-pure v.attempt_id (λ w h. h)

    from_reflector : (k : ℕ) (e : Exc) (w : World) → FromReflector e → Busy k w → Escapes e w
    from_reflector k (budget_exceeded be) w s h = h.0.0
    from_reflector k (unexpected m) w s h = tt
    from_reflector k (llm_error m) w s h = absurd s
    from_reflector k (executor_error m) w s h = absurd s
    from_reflector k run_cancelled w s h = absurd s
    from_reflector k (cancelled u p) w s h = absurd s
    from_reflector k (Exc.replan u v) w s h = absurd s
    from_reflector k (planner_error m) w s h = absurd s
    from_reflector k out_of_fuel w s h = absurd s

    pub judge-Triple :
        (k : ℕ) (a : Attempt.Attempt) (output : Text) (error : Option Text)
        → Triple
            (Busy k)
            (judge env settings memory r goal t outputs a output error)
            (λ v. Busy k)
            Escapes
    unfolding judge record_reflection
    judge-Triple k a output error =
        Triple-bind (record_attempt env.py r t a.attempt output error) _
          (record_attempt-Triple k a.attempt output error)
          λ i.
            Triple-bind (check_cancel env settings memory r goal t "execution") _
              (check_cancel-Triple k "execution")
              λ u.
                Triple-if settings.agent_enable_reflection _ _
                  (Triple-bind _ _
                    (Triple-stays _ (Stays-reflect (Busy-aside k) env settings _ _ _ _ _)
                      (λ v w h. h) (from_reflector k))
                    λ v.
                      Triple-bind (session (record_reflection i v)) _
                        (Triple-session (record_reflection i v) (λ w h. h))
                        λ x.
                          Triple-bind (emit_task_reflected env.py r t a.attempt v) _
                            (Triple-quiet
                              (Stays-task_reflected (Busy-aside k) r env.py t a.attempt v))
                            λ y.
                              Triple-bind (check_cancel env settings memory r goal t "reflection") _
                                (check_cancel-Triple k "reflection")
                                λ z. Triple-pure (some v) (λ w h. h))
                  (Triple-pure none (λ w h. h))
