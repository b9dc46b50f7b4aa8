-- ===== src/Runtime/Manager/Outcome/Ladder.antt =====
-- The recovery ladder: `_escalate` and `_graceful_abort`.
use atlas_the_agent.Runtime.Manager.Outcome.Stages.{
  phase_aside, tables_aside, InStock, InStock-aside, IsClosed, HasStopped→IsClosed, FromTurn,
}
use atlas_the_agent.Runtime.Manager.Outcome.Attempts.{write_memory-Stays, check_cancel-Triple}
use atlas_the_agent.Base.{
  subst, All, ℕ, ◌<◌, ◌≡◌, refl, ◌&&◌, inr, Bool, true, Option, none, some, List, Text, is_empty,
  on_option, arith, ltb, ◌==◌,
}
use atlas_the_agent.Core.Settings.{Settings}
use atlas_the_agent.Events.Types
use atlas_the_agent.Agent.Schemas.{RunStatus, TaskId, TaskView, PriorTaskOutput, ReflectionResult}
use atlas_the_agent.Agent.Prompts.{build_partial_answer}
use atlas_the_agent.Core.Json.{str, end, field}
use atlas_the_agent.Agent.Raises.{FromModel, Stays-answer}
use atlas_the_agent.Persistence.Runs.{set_answer}
use atlas_the_agent.Persistence.Tasks.Status.{IsSettled, InTurn}
use atlas_the_agent.Runtime.Budget.{replans_left}
use atlas_the_agent.Runtime.Manager.Attempt.{
  check_cancel, deliver_partial, no_partial, compose_partial, graceful_abort, escalate, asks_replan,
}
use atlas_the_agent.Runtime.Manager.Finalize.{finalize_failed, fail_task, skip_pending_tasks}
use atlas_the_agent.Runtime.Manager.Settled.{
  HasStatus, finalize_failed-Triple, fail_task-Triple, skip_pending_tasks-Triple,
  finalize_budget_exceeded-Triple,
}
use atlas_the_agent.Memory.{MemoryService, IsBestEffort}
use atlas_the_agent.Memory.Schemas.{partial}
use atlas_the_agent.Process.{
  reads, Exc, cancelled, run_cancelled, budget_exceeded, planner_error, llm_error, executor_error,
  unexpected, out_of_fuel, Env, World, pure, emit, session,
}
use atlas_the_agent.Process.Keeps.{IsAside}
use atlas_the_agent.Process.Triple.{
  Triple-if_known, Triple, Triple-pure, Triple-raise, Triple-if, Triple-bind, Triple-catch,
  Triple-weaken, Triple-from, Triple-session, Triple-reads,
}
use atlas_the_agent.Process.Stays.{Stays-emit, Triple-quiet, Triple-stays}

module _ (env : Env) (settings : Settings) (memory : MemoryService) (best : IsBestEffort memory)
    (r : ℕ) (goal : Text) (t : TaskView) (outputs : List PriorTaskOutput) (rest : List TaskId)
    (R f : ℕ) where
  abbrev Busy : ℕ → World → Type 0
  Busy k = InStock (λ rs ts. InTurn r t.id rest ts) R f t.id k

  Busy-aside : (k : ℕ) → IsAside (Busy k)
  Busy-aside k = InStock-aside (λ rs ts. InTurn r t.id rest ts) R f t.id k

  abbrev Escapes : Exc → World → Type 0
  Escapes = FromTurn r R f t.id rest

  -- The run is settled, or has ended so.
  abbrev Settled : World → Type 0
  Settled w = IsSettled r w.db.tasks

  Settled-aside : IsAside Settled
  Settled-aside = tables_aside (λ rs ts. IsSettled r ts)

  failed_aside : IsAside (λ w. HasStatus r RunStatus.failed w × IsSettled r w.db.tasks)
  failed_aside = phase_aside r (λ rs ts p.
      (All (λ row. (row.id == r) ≡ true → row.status ≡ RunStatus.failed) rs
        × (p ≡ (RunStatus.failed, true)))
      × IsSettled r ts)

  deliver_partial-Triple :
      (error text : Text)
      → Triple Settled
          (deliver_partial env settings memory r goal t outputs error text)
          (λ u. IsClosed r)
          Escapes
  unfolding deliver_partial set_answer
  deliver_partial-Triple error text =
      Triple-bind (session (set_answer r (build_partial_answer text))) _
        (Triple-session (set_answer r (build_partial_answer text)) (λ w h. h))
        λ u.
          Triple-bind
            (emit r Types.answer_completed (field "text" (str (build_partial_answer text)) end)) _
            (Triple-quiet (
              Stays-emit Settled-aside r Types.answer_completed
                (field "text" (str (build_partial_answer text)) end) refl))
            λ v.
              Triple-bind (finalize_failed r error) _ (finalize_failed-Triple r (IsSettled r) error)
                λ x.
                  Triple-weaken (λ y w h. inr (h.0, h.1.0))
                    (Triple-quiet (
                      write_memory-Stays env settings memory best r goal _ failed_aside partial
                        (build_partial_answer text)))

  -- The partial answer is composed, or the budget has ended the run.
  abbrev Composed : Option Text → World → Type 0
  Composed none = IsClosed r
  Composed (some text) = Settled

  no_partial-Triple :
      (e : Exc)
      → Triple
          (λ w. FromModel e × Settled w)
          (no_partial env settings memory r goal t outputs e)
          Composed
          Escapes
  no_partial-Triple (budget_exceeded be) =
      Triple-bind _ _ (Triple-from (λ w h. h.1.0) (finalize_budget_exceeded-Triple r env be none))
        λ u. Triple-pure none (HasStopped→IsClosed r)
  no_partial-Triple (llm_error m) = Triple-raise _ (λ w h. h.1)
  no_partial-Triple (unexpected m) = Triple-raise _ (λ w h. absurd h.0)
  no_partial-Triple (executor_error m) = Triple-raise _ (λ w h. absurd h.0)
  no_partial-Triple run_cancelled = Triple-raise _ (λ w h. absurd h.0)
  no_partial-Triple (cancelled u p) = Triple-raise _ (λ w h. absurd h.0)
  no_partial-Triple (Exc.replan u v) = Triple-raise _ (λ w h. absurd h.0)
  no_partial-Triple (planner_error m) = Triple-raise _ (λ w h. absurd h.0)
  no_partial-Triple out_of_fuel = Triple-raise _ (λ w h. absurd h.0)

  compose_partial-Triple :
      Triple Settled (compose_partial env settings memory r goal t outputs) Composed Escapes
  unfolding compose_partial
  compose_partial-Triple =
      Triple-catch _ _
        (Triple-bind _ _
          (Triple-stays _ (Stays-answer Settled-aside env settings goal outputs) (λ o w h. h)
            (λ e w s h. (s, h)))
          (λ o. Triple-pure _ (λ w h. h)))
        no_partial-Triple

  Composed-Triple :
      (error : Text) (o : Option Text)
      → Triple
          (Composed o)
          (on_option (pure tt) (deliver_partial env settings memory r goal t outputs error) o)
          (λ u. IsClosed r)
          Escapes
  Composed-Triple error none = Triple-pure tt (λ w h. h)
  Composed-Triple error (some text) = deliver_partial-Triple error text

  graceful_abort-Triple :
      (k : ℕ) (v : Option ReflectionResult)
      → Triple
          (Busy k)
          (graceful_abort env settings memory r goal t outputs v)
          (λ u. IsClosed r)
          Escapes
  unfolding graceful_abort
  graceful_abort-Triple k v =
      Triple-bind (check_cancel env settings memory r goal t _) _
        (check_cancel-Triple env settings memory best r goal t outputs rest R f k _)
        λ u.
          Triple-bind (fail_task env.py r t _) _
            (Triple-from (λ w h. h.0.0) (fail_task-Triple r env.py t _))
            λ x.
              Triple-bind (skip_pending_tasks env.py r _) _ (skip_pending_tasks-Triple r env.py _)
                λ y.
                  Triple-if (is_empty outputs) _ _
                    (Triple-weaken (λ z w h. inr (h.0, h.1.0))
                      (finalize_failed-Triple r (IsSettled r) _))
                    (Triple-bind _ _ compose_partial-Triple (Composed-Triple _))

  asked : (b : Bool) (n : ℕ) → (b && ltb 0 n) ≡ true → 0 < n
  asked b n e = ground arith

  pub escalate-Triple :
      (k : ℕ) (v : Option ReflectionResult)
      → Triple (Busy k) (escalate env settings memory r goal t outputs v) (λ u. IsClosed r) Escapes
  unfolding escalate
  escalate-Triple k v =
      Triple-bind (check_cancel env settings memory r goal t _) _
        (check_cancel-Triple env settings memory best r goal t outputs rest R f k _)
        λ u.
          Triple-bind {Q = λ n w. Busy k w × (n ≡ replans_left w.budget)}
            (reads (λ w. replans_left w.budget)) _
            (Triple-reads (λ w. replans_left w.budget) (λ w h. (h, refl)))
            λ n.
              Triple-if_known (asks_replan v && ltb 0 n) _ _
                (λ e.
                  Triple-raise (Exc.replan t v) (λ w h.
                    (refl, h.0.0, h.0.1, subst (λ m. 0 < m) h.1 (asked (asks_replan v) n e))))
                (λ e. Triple-from (λ w h. h.0) (graceful_abort-Triple k v))
