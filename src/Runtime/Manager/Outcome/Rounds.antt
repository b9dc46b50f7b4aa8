-- ===== src/Runtime/Manager/Outcome/Rounds.antt =====
-- The attempt loop: `_run_task`.
use atlas_the_agent.Runtime.Manager.Outcome.Stages.{
  OnTables-aside, InStock, InStock-aside, OnTables, IsClosed, FromTurn, charge_retry-InStock,
}
use atlas_the_agent.Runtime.Manager.Outcome.Told.{
  Stays-task_completed, Stays-task_retrying, Stays-task_started,
}
use atlas_the_agent.Runtime.Manager.Outcome.Attempts.{
  check_cancel-Triple, execute_attempt-Triple, mark_running-Triple, mark_retrying-Triple,
  judge-Triple, Executed,
}
use atlas_the_agent.Runtime.Manager.Outcome.Ladder.{escalate-Triple}
use atlas_the_agent.Base.{
  ℕ, zero, suc, ◌+◌, ◌≤◌, ◌<◌, ◌≡◌, refl, true, Option, none, some, List, Text, on_option, arith,
  ltb, ◌==◌,
}
use atlas_the_agent.Core.Settings.{Settings}
use atlas_the_agent.Agent.Schemas.{
  TaskStatus, TaskId, TaskView, PriorTaskOutput, ReflectionDecision, accept, retry, replan, abort,
  ReflectionResult,
}
use atlas_the_agent.Persistence.Tasks.{mark_done, mark_retrying, mark_running}
use atlas_the_agent.Persistence.Tasks.Status.{IsReady, InTurn, set_task-over}
use atlas_the_agent.Runtime.Budget.{RunBudget, retries_left}
use atlas_the_agent.Runtime.Manager.Attempt
use atlas_the_agent.Runtime.Manager.Attempt.{
  Round, finished, again, on_round, charging_retry, check_cancel, execute_attempt, judge,
  accept_task, retry_task, give_up, act_by, act_on, conclude, round, rounds, run_task, escalate,
  next_attempt, first_attempt,
}
use atlas_the_agent.Runtime.Manager.Finalize.{
  emit_task_completed, emit_task_retrying, emit_task_started,
}
use atlas_the_agent.Memory.{MemoryService, IsBestEffort}
use atlas_the_agent.Process.{Exc, Env, World, Action, pure, reads, session, when}
use atlas_the_agent.Process.Keeps.{IsAside}
use atlas_the_agent.Process.Triple.{
  Triple, Triple-pure, Triple-raise, Triple-if_known, Triple-bind, Triple-given, Triple-from,
  Triple-session, Triple-reads,
}
use atlas_the_agent.Process.Stays.{Stays-if, Stays-pure, Triple-quiet}

module _ (env : Env) (settings : Settings) (memory : MemoryService) (best : IsBestEffort memory)
    (r : ℕ) (goal : Text) (t : TaskView) (outputs : List PriorTaskOutput) (rest : List TaskId)
    (R f : ℕ) where
  abbrev Busy : ℕ → World → Type 0
  Busy k = InStock (λ rs ts. InTurn r t.id rest ts) R f t.id k

  Busy-aside : (k : ℕ) → IsAside (Busy k)
  Busy-aside k = InStock-aside (λ rs ts. InTurn r t.id rest ts) R f t.id k

  abbrev Escapes : Exc → World → Type 0
  Escapes = FromTurn r R f t.id rest

  abbrev Free : World → Type 0
  Free = OnTables (λ rs ts. IsReady r rest ts) R f

  -- How `_run_task` returns: with the output of a task that is done, or with the run closed.
  abbrev pub Ended : Option PriorTaskOutput → World → Type 0
  Ended none = IsClosed r
  Ended (some output) = Free

  abbrev Concluded : ℕ → Round → World → Type 0
  Concluded k (finished result) = Ended result
  Concluded k (again output reason) = Busy k

  accept_task-Triple :
      (j k : ℕ) (a : Attempt.Attempt) (output : Text)
      → Triple
          (Busy j)
          (accept_task env settings memory r goal t outputs a output)
          (Concluded k)
          Escapes
  unfolding accept_task mark_done
  accept_task-Triple j k a output =
      Triple-bind {Q = λ u. Free} (session (mark_done t.id output)) _
        (Triple-session (mark_done t.id output) (λ w h.
          (set_task-over r t.id rest w.db TaskStatus.done (some output) none refl h.0, h.1)))
        λ u.
          Triple-bind (emit_task_completed env.py r t a.attempt output) _
            (Triple-quiet (
              Stays-task_completed (OnTables-aside (λ rs ts. IsReady r rest ts) R f) r env.py t
                a.attempt output))
            λ v.
              Triple-pure
                (finished
                  (some (record { index = t.index; description = t.description; output = output })))
                (λ w h. h)

  charging_retry-Triple :
      (k : ℕ) → 0 < k → Triple (Busy (suc k)) (charging_retry t) (λ u. Busy k) Escapes
  charging_retry-Triple k pos = record {
    at = λ w h. charge_retry-InStock (λ rs ts. InTurn r t.id rest ts) R f t.id k w pos h;
  }

  retry_task-Triple :
      (k : ℕ) (a : Attempt.Attempt) (output reason : Text)
      → 0 < k
      → Triple
          (Busy (suc k))
          (retry_task env settings memory r goal t outputs a output reason)
          (Concluded k)
          Escapes
  unfolding retry_task
  retry_task-Triple k a output reason pos =
      Triple-bind (check_cancel env settings memory r goal t "execution") _
        (check_cancel-Triple env settings memory best r goal t outputs rest R f (suc k) "execution")
        λ u. Triple-bind (charging_retry t) _ (charging_retry-Triple k pos) λ v.
          Triple-bind (session (mark_retrying t.id)) _
            (mark_retrying-Triple env settings memory best r goal t outputs rest R f k)
            λ x.
              Triple-bind (emit_task_retrying env.py r t (a.attempt + 1) reason) _
                (Triple-quiet
                  (Stays-task_retrying (Busy-aside k) r env.py t (a.attempt + 1) reason))
                λ y. Triple-pure (again output reason) (λ w h. h)

  give_up-Triple :
      (j k : ℕ) (v : Option ReflectionResult)
      → Triple (Busy j) (give_up env settings memory r goal t outputs v) (Concluded k) Escapes
  unfolding give_up
  give_up-Triple j k v =
      Triple-bind (escalate env settings memory r goal t outputs v) _
        (escalate-Triple env settings memory best r goal t outputs rest R f j v)
        λ u. Triple-pure (finished none) (λ w h. h)

  -- A retry that is left is below the bound.
  left_below : (n k : ℕ) → ltb 0 n ≡ true → n < suc k → 0 < k
  left_below n k e h = ground arith

  act_by-Triple :
      (d : ReflectionDecision) (k : ℕ) (a : Attempt.Attempt) (output : Text) (v : ReflectionResult)
      → Triple
          (Busy (suc k))
          (act_by env settings memory r goal t outputs d a output v)
          (Concluded k)
          Escapes
  unfolding act_by
  act_by-Triple accept k a output v = accept_task-Triple (suc k) k a output
  act_by-Triple replan k a output v = give_up-Triple (suc k) k (some v)
  act_by-Triple abort k a output v = give_up-Triple (suc k) k (some v)
  act_by-Triple retry k a output v =
      Triple-bind {Q = λ n w. Busy (suc k) w × (n < suc k)}
        (reads (λ w. retries_left t.id w.budget)) _
        (Triple-reads (λ w. retries_left t.id w.budget) (λ w h. (h, h.2)))
        λ n.
          Triple-if_known (ltb 0 n) _ _
            (λ e.
              Triple-given _ (λ w h. left_below n k e h.1)
                λ pos. Triple-from (λ w h. h.0) (retry_task-Triple k a output v.reason pos))
            (λ e. Triple-from (λ w h. h.0) (give_up-Triple (suc k) k (some v)))

  act_on-Triple :
      (k : ℕ) (a : Attempt.Attempt) (output : Text) (v : Option ReflectionResult)
      → Triple
          (Busy (suc k))
          (act_on env settings memory r goal t outputs a output v)
          (Concluded k)
          Escapes
  unfolding act_on
  act_on-Triple k a output none = accept_task-Triple (suc k) k a output
  act_on-Triple k a output (some v) = act_by-Triple v.decision k a output v

  -- What follows an execution.
  conclude-Triple :
      (k : ℕ) (a : Attempt.Attempt) (o : Option (Text × Option Text))
      → Triple
          (Executed env settings memory best r goal t outputs rest R f (suc k) o)
          (on_option (pure (finished none)) (conclude env settings memory r goal t outputs a) o)
          (Concluded k)
          Escapes
  unfolding conclude
  conclude-Triple k a none = Triple-pure (finished none) (λ w h. h)
  conclude-Triple k a (some (output, error)) =
      Triple-bind (judge env settings memory r goal t outputs a output error) _
        (judge-Triple env settings memory best r goal t outputs rest R f (suc k) a output error)
        (λ v. act_on-Triple k a output v)

  round-Triple :
      (k total : ℕ) (a : Attempt.Attempt)
      → Triple
          (Busy (suc k))
          (round env settings memory r goal t outputs total a)
          (Concluded k)
          Escapes
  unfolding round
  round-Triple k total a =
      Triple-bind (check_cancel env settings memory r goal t "execution") _
        (check_cancel-Triple env settings memory best r goal t outputs rest R f (suc k) "execution")
        λ u.
          Triple-bind (session (mark_running t.id)) _
            (mark_running-Triple env settings memory best r goal t outputs rest R f (suc k))
            λ v.
              Triple-bind (when (a.attempt == 1) (emit_task_started env.py r t)) _
                (Triple-quiet (
                  Stays-if (a.attempt == 1) _ _ (Stays-task_started (Busy-aside (suc k)) r env.py t)
                    (Stays-pure tt)))
                λ x.
                  Triple-bind (execute_attempt env settings memory r goal t outputs a total) _
                    (execute_attempt-Triple env settings memory best r goal t outputs rest R f
                      (suc k) a total)
                    (conclude-Triple k a)

  on_round-Triple :
      (k : ℕ) (go : Text → Text → Action (Option PriorTaskOutput)) (next : Round)
      → ((output reason : Text) → Triple (Busy k) (go output reason) Ended Escapes)
      → Triple (Concluded k next) (on_round go next) Ended Escapes
  on_round-Triple k go (finished result) h = Triple-pure result (λ w c. c)
  on_round-Triple k go (again output reason) h = h output reason

  rounds-Triple :
      (k total : ℕ) (a : Attempt.Attempt)
      → Triple (Busy k) (rounds env settings memory r goal t outputs k total a) Ended Escapes
  unfolding rounds
  rounds-Triple zero total a = Triple-raise _ (λ w h. ground (arith, h.2))
  rounds-Triple (suc k) total a =
      Triple-bind (round env settings memory r goal t outputs total a) _ (round-Triple k total a)
        (λ next.
          on_round-Triple k _ next
            (λ output reason. rounds-Triple k total (next_attempt output reason a)))

-- The turn of a task, from its start.
module _ (env : Env) (settings : Settings) (memory : MemoryService) (best : IsBestEffort memory)
    (r : ℕ) (goal : Text) (t : TaskView) (outputs : List PriorTaskOutput) (rest : List TaskId)
    (f : ℕ) where
  in_reserve :
      (b : RunBudget)
      → b.max_retries ≤ settings.agent_max_retries
      → retries_left t.id b < settings.agent_max_retries + 1
  unfolding retries_left
  in_reserve b h = omega arith

  pub run_task-Triple :
      (total : ℕ)
      → Triple
          (OnTables (λ rs ts. InTurn r t.id rest ts) settings.agent_max_retries f)
          (run_task env settings memory r goal t outputs total)
          (Ended env settings memory best r goal t outputs rest settings.agent_max_retries f)
          (FromTurn r settings.agent_max_retries f t.id rest)
  unfolding run_task
  run_task-Triple total =
      Triple-from (λ w h. (h.0, h.1, in_reserve w.budget h.1.retries_capped))
        (rounds-Triple env settings memory best r goal t outputs rest settings.agent_max_retries f
          (settings.agent_max_retries + 1) total first_attempt)
