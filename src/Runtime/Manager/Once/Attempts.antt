-- ===== src/Runtime/Manager/Once/Attempts.antt =====
-- The attempts on a task end the run at most once.
use atlas_the_agent.Runtime.Manager.Once.Finalizers.{
  Closes-finalize_failed, Closes-finalize_budget_exceeded,
}
use atlas_the_agent.Runtime.Manager.Once.Rules.{
  HasEndings, HasEndings-aside, After, Closes, always, option_closes, Closes-raise, Closes-bind,
  Closes-both, Closes-if, closes_rules,
}
use atlas_the_agent.Base.{
  ℕ, zero, suc, refl, Bool, true, false, String, Option, none, some, List, Text, on_option,
  is_empty, ◌==◌,
}
use atlas_the_agent.Core.Json.{str, field, end}
use atlas_the_agent.Core.Settings.{Settings}
use atlas_the_agent.Events.Types
use atlas_the_agent.Events.Types.{EventType}
use atlas_the_agent.Agent.Schemas.{
  TaskView, PriorTaskOutput, ReflectionDecision, accept, retry, replan, abort, ReflectionResult,
}
use atlas_the_agent.Agent.Prompts.{build_partial_answer}
use atlas_the_agent.Persistence.Runs.{set_answer}
use atlas_the_agent.Persistence.Tasks.{mark_running, mark_done, mark_retrying}
use atlas_the_agent.Persistence.Attempts.{record_reflection}
use atlas_the_agent.Runtime.Manager.Finalize.{
  emit_task_started, emit_task_completed, emit_task_reflected, emit_task_retrying,
}
use atlas_the_agent.Runtime.Manager.Attempt
use atlas_the_agent.Runtime.Manager.Attempt.{
  Round, finished, again, on_round, check_cancel, write_memory, deliver_partial, no_partial,
  compose_partial, graceful_abort, escalate, on_failure, on_exception, execute_attempt, judge,
  accept_task, retry_task, give_up, act_by, act_on, conclude, round, rounds, run_task,
}
use atlas_the_agent.Runtime.Manager.Kept.Rules.{method_rules}
use atlas_the_agent.Runtime.Manager.Kept.Finalizers.{Keeps-fail_task, Keeps-skip_pending_tasks}
use atlas_the_agent.Memory.{MemoryService, IsBestEffort}
use atlas_the_agent.Memory.Schemas.{MemoryOutcome, partial}
use atlas_the_agent.Process.{
  Exc, budget_exceeded, run_cancelled, llm_error, executor_error, Env, World, Action, pure, when,
}
use atlas_the_agent.Process.Keeps.{Keeps, IsAside, BearsSessions, Keeps-session, Keeps-emit}
use atlas_the_agent.Process.Triple.{Triple, Triple-pure, Triple-if}
use atlas_the_agent.Process.Stays.{Triple-quiet}

-- A round that closes the run.
abbrev pub round_closes : Round → Bool
round_closes (finished none) = true
round_closes (finished (some output)) = false
round_closes (again output reason) = false

module _ (r : ℕ) (aside : IsAside (HasEndings r 0)) (sessions : BearsSessions (HasEndings r 0))
    (env : Env) (settings : Settings) (memory : MemoryService) (best : IsBestEffort memory)
    (goal : Text) where
  Keeps-check_cancel :
      (t : TaskView) (phase : String)
      → Keeps (HasEndings r 0) (check_cancel env settings memory r goal t phase)
  unfolding check_cancel
  Keeps-check_cancel t phase = search method_rules

  -- Behind the end of the run a memory is written.
  pub write_memory-Triple :
      {E : Exc → World → Type 0} (outcome : MemoryOutcome) (text : Text)
      → Triple
          (HasEndings r 1)
          (write_memory env settings memory r goal outcome text)
          (λ u. HasEndings r 1)
          E
  unfolding write_memory
  write_memory-Triple outcome text =
      Triple-if settings.memory_enabled _ _
        (Triple-quiet (best.at_write (HasEndings r 1) (HasEndings-aside r 1) r goal outcome text))
        (Triple-pure tt (λ w h. h))

  module _ (t : TaskView) (outputs : List PriorTaskOutput) where
    Closes-deliver_partial :
        (error text : Text)
        → Closes r always (deliver_partial env settings memory r goal t outputs error text)
    unfolding deliver_partial set_answer
    Closes-deliver_partial error text =
        Closes-bind r _ _
          (Keeps-session sessions (set_answer r (build_partial_answer text)) (λ d. refl))
          λ u.
            Closes-bind r _ _
              (Keeps-emit aside r Types.answer_completed
                (field "text" (str (build_partial_answer text)) end) refl)
              λ v.
                Closes-both r _ _ (Closes-finalize_failed r aside sessions error)
                  (λ x. write_memory-Triple partial (build_partial_answer text))

    Closes-no_partial :
        (e : Exc) → Closes r option_closes (no_partial env settings memory r goal t outputs e)
    Closes-no_partial (budget_exceeded be) = search (closes_rules, Closes-finalize_budget_exceeded)
    Closes-no_partial _ = Closes-raise r _

    Closes-compose_partial :
        Closes r option_closes (compose_partial env settings memory r goal t outputs)
    unfolding compose_partial
    Closes-compose_partial = search (closes_rules, method_rules, Closes-no_partial)

    delivered-Triple :
        (error : Text) (o : Option Text)
        → Triple
            (After r (option_closes o))
            (on_option (pure tt) (deliver_partial env settings memory r goal t outputs error) o)
            (λ u. HasEndings r 1)
            (λ e. HasEndings r 0)
    delivered-Triple error none = Triple-pure tt (λ w h. h)
    delivered-Triple error (some text) = (Closes-deliver_partial error text).run

    Closes-graceful_abort :
        (v : Option ReflectionResult)
        → Closes r always (graceful_abort env settings memory r goal t outputs v)
    unfolding graceful_abort
    Closes-graceful_abort v = Closes-bind r _ _ (Keeps-check_cancel t _) λ u.
        Closes-bind r _ _ (Keeps-fail_task aside sessions r env t _) λ x.
          Closes-bind r _ _ (Keeps-skip_pending_tasks aside sessions r env _) λ y.
            Closes-if r (is_empty outputs) _ _ (Closes-finalize_failed r aside sessions _)
              (Closes-both r _ _ Closes-compose_partial (delivered-Triple _))

    Closes-escalate :
        (v : Option ReflectionResult)
        → Closes r always (escalate env settings memory r goal t outputs v)
    unfolding escalate
    Closes-escalate v =
        search (closes_rules, method_rules, Keeps-check_cancel, Closes-graceful_abort) depth 8

    Closes-on_failure :
        (message : Text)
        → Closes r option_closes (on_failure env settings memory r goal t outputs message)
    unfolding on_failure
    Closes-on_failure message =
        search (closes_rules, method_rules, Keeps-check_cancel, Closes-finalize_failed) depth 8

    Closes-on_exception :
        (e : Exc) → Closes r option_closes (on_exception env settings memory r goal t outputs e)
    Closes-on_exception run_cancelled = Closes-raise r _
    Closes-on_exception (executor_error m) = Closes-on_failure m
    Closes-on_exception (llm_error m) = Closes-on_failure m
    Closes-on_exception _ = Closes-raise r _

    Closes-execute_attempt :
        (a : Attempt.Attempt) (total : ℕ)
        → Closes r option_closes (execute_attempt env settings memory r goal t outputs a total)
    unfolding execute_attempt
    Closes-execute_attempt a total = search (closes_rules, method_rules, Closes-on_exception)

    Keeps-judge :
        (a : Attempt.Attempt) (output : Text) (error : Option Text)
        → Keeps (HasEndings r 0) (judge env settings memory r goal t outputs a output error)
    unfolding judge record_reflection emit_task_reflected
    Keeps-judge a output error = search (method_rules, Keeps-check_cancel) depth 12

    Closes-give_up :
        (v : Option ReflectionResult)
        → Closes r round_closes (give_up env settings memory r goal t outputs v)
    unfolding give_up
    Closes-give_up v = search (closes_rules, Closes-escalate)

    Closes-act_by :
        (d : ReflectionDecision) (a : Attempt.Attempt) (output : Text) (v : ReflectionResult)
        → Closes r round_closes (act_by env settings memory r goal t outputs d a output v)
    unfolding act_by accept_task retry_task mark_done mark_retrying emit_task_completed
        emit_task_retrying
    Closes-act_by accept a output v = search (closes_rules, method_rules)
    Closes-act_by retry a output v =
        search (closes_rules, method_rules, Keeps-check_cancel, Closes-give_up) depth 10
    Closes-act_by replan a output v = Closes-give_up (some v)
    Closes-act_by abort a output v = Closes-give_up (some v)

    Closes-act_on :
        (a : Attempt.Attempt) (output : Text) (v : Option ReflectionResult)
        → Closes r round_closes (act_on env settings memory r goal t outputs a output v)
    unfolding act_on accept_task mark_done emit_task_completed
    Closes-act_on a output none = search (closes_rules, method_rules)
    Closes-act_on a output (some v) = Closes-act_by v.decision a output v

    executed-Triple :
        (a : Attempt.Attempt) (o : Option (Text × Option Text))
        → Triple
            (After r (option_closes o))
            (on_option (pure (finished none)) (conclude env settings memory r goal t outputs a) o)
            (λ x. After r (round_closes x))
            (λ e. HasEndings r 0)
    unfolding conclude
    executed-Triple a none = Triple-pure _ (λ w h. h)
    executed-Triple a (some (output, error)) =
        (Closes-bind r (judge env settings memory r goal t outputs a output error) _
          (Keeps-judge a output error) (Closes-act_on a output)).run

    Closes-round :
        (total : ℕ) (a : Attempt.Attempt)
        → Closes r round_closes (round env settings memory r goal t outputs total a)
    unfolding round mark_running emit_task_started
    Closes-round total a = Closes-bind r _ _ (Keeps-check_cancel t _) λ u.
        Closes-bind r _ _ (Keeps-session sessions (mark_running t.id) (λ d. refl)) λ v.
          Closes-bind r (when (a.attempt == 1) (emit_task_started env.py r t)) _
            (search method_rules)
            λ x. Closes-both r _ _ (Closes-execute_attempt a total) (executed-Triple a)

    next-Triple :
        (next : Text → Text → Action (Option PriorTaskOutput)) (x : Round)
        → ((a b : Text) → Closes r option_closes (next a b))
        → Triple
            (After r (round_closes x))
            (on_round next x)
            (λ o. After r (option_closes o))
            (λ e. HasEndings r 0)
    next-Triple next (finished none) k = Triple-pure _ (λ w h. h)
    next-Triple next (finished (some output)) k = Triple-pure _ (λ w h. h)
    next-Triple next (again a b) k = (k a b).run

    Closes-rounds :
        (fuel total : ℕ) (a : Attempt.Attempt)
        → Closes r option_closes (rounds env settings memory r goal t outputs fuel total a)
    unfolding rounds
    Closes-rounds zero total a = Closes-raise r _
    Closes-rounds (suc fuel) total a =
        Closes-both r _ _ (Closes-round total a)
          (λ x. next-Triple _ x (λ output reason. Closes-rounds fuel total _))

    pub Closes-run_task :
        (total : ℕ) → Closes r option_closes (run_task env settings memory r goal t outputs total)
    unfolding run_task
    Closes-run_task total = Closes-rounds _ total _
