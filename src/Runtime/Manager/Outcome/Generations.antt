-- ===== src/Runtime/Manager/Outcome/Generations.antt =====
-- A generation after another: the loops of `_run_tasks`.
use atlas_the_agent.Runtime.Manager.Outcome.Stages.{OnTables, OnTables-aside, IsClosed}
use atlas_the_agent.Runtime.Manager.Outcome.Rounds.{Ended, run_task-Triple}
use atlas_the_agent.Runtime.Manager.Outcome.Passes.{FromTasks, Awaits, Turned, on_signal-Triple}
use atlas_the_agent.Base.{
  ℕ, zero, suc, ◌+◌, inl, Option, none, some, List, [], ◌∷◌, ◌++◌, Text, length, arith,
}
use atlas_the_agent.Core.Settings.{Settings}
use atlas_the_agent.Agent.Schemas.{RunStatus, TaskView, PriorTaskOutput}
use atlas_the_agent.Persistence.Runs.{set_status}
use atlas_the_agent.Persistence.Tasks.Status.{IsReady, IsSettled, IsReady→InTurn}
use atlas_the_agent.Persistence.Tasks.Fresh.{ids}
use atlas_the_agent.Runtime.Manager.Attempt.{run_task}
use atlas_the_agent.Runtime.Manager.Finalize.{finalize_cancelled_run}
use atlas_the_agent.Runtime.Manager.Settled.{finalize_cancelled_run-Triple}
use atlas_the_agent.Runtime.Manager.Tasks.{
  Turn, ran, closed, swapped, Pass, completed, stopped, replanned, on_turn, on_pass, turn, pass,
  generations, run_tasks,
}
use atlas_the_agent.Memory.{MemoryService, IsBestEffort}
use atlas_the_agent.Process.{out_of_fuel, Env, World, Action, session, is_set}
use atlas_the_agent.Process.Triple.{
  Triple, Triple-pure, Triple-raise, Triple-if, Triple-bind, Triple-catch, Triple-from,
  Triple-session,
}
use atlas_the_agent.Process.Stays.{Stays-is_set, Triple-quiet}

module _ (env : Env) (settings : Settings) (memory : MemoryService) (best : IsBestEffort memory)
    (r : ℕ) (goal : Text) where
  abbrev R : ℕ
  R = settings.agent_max_retries

  abbrev Pending : ℕ → List TaskView → World → Type 0
  Pending f ts = Awaits env settings memory best r goal R f ts

  module _ (g : ℕ) where
    abbrev Ends : List TaskView → Turn → World → Type 0
    Ends ts = Turned env settings memory best r goal R g ts

    ran-Ends :
        (t : TaskView) (ts : List TaskView) (outputs : List PriorTaskOutput)
        (o : Option PriorTaskOutput) (w : World)
        → Ended env settings memory best r goal t outputs (ids ts) R (suc g) o w
        → Ends ts (ran o) w
    ran-Ends t ts outputs none w h = h
    ran-Ends t ts outputs (some output) w h = h

    turn-Triple :
        (total : ℕ) (t : TaskView) (ts : List TaskView) (outputs : List PriorTaskOutput)
        → Triple
            (Pending (suc g) (t ∷ ts))
            (turn env settings memory r goal total t (t ∷ ts) outputs)
            (Ends ts)
            (FromTasks r)
    unfolding turn
    turn-Triple total t ts outputs =
        Triple-catch _ _
          (Triple-bind (run_task env settings memory r goal t outputs total) _
            (Triple-from (λ w h. (IsReady→InTurn r t.id (ids ts) w.db.tasks h.0, h.1))
              (run_task-Triple env settings memory best r goal t outputs (ids ts) (suc g) total))
            (λ o. Triple-pure (ran o) (ran-Ends t ts outputs o)))
          (on_signal-Triple env settings memory best r goal R g t ts outputs)

    -- How the loop over one generation ends.
    abbrev Passed : Pass → World → Type 0
    Passed (completed all) = Pending (suc g) []
    Passed stopped = IsClosed r
    Passed (replanned new kept) = Pending g new

    on_turn-Triple :
        (ts : List TaskView) (outputs : List PriorTaskOutput) (next : PriorTaskOutput → Action Pass)
        (ended : Turn)
        → ((o : PriorTaskOutput) → Triple (Pending (suc g) ts) (next o) Passed (FromTasks r))
        → Triple (Ends ts ended) (on_turn outputs next ended) Passed (FromTasks r)
    on_turn-Triple ts outputs next (ran none) h = Triple-pure stopped (λ w c. c)
    on_turn-Triple ts outputs next (ran (some output)) h = h output
    on_turn-Triple ts outputs next closed h = Triple-pure stopped (λ w c. c)
    on_turn-Triple ts outputs next (swapped new) h = Triple-pure (replanned new outputs) (λ w c. c)

    pass-Triple :
        (total : ℕ) (ts : List TaskView) (outputs : List PriorTaskOutput)
        → Triple
            (Pending (suc g) ts)
            (pass env settings memory r goal total ts outputs)
            Passed
            (FromTasks r)
    unfolding pass
    pass-Triple total [] outputs = Triple-pure (completed outputs) (λ w h. h)
    pass-Triple total (t ∷ ts) outputs =
        Triple-bind (is_set env) _
          (Triple-quiet
            (Stays-is_set (OnTables-aside (λ rs us. IsReady r (ids (t ∷ ts)) us) R (suc g)) env))
          λ stop.
            Triple-if stop _ _
              (Triple-bind (finalize_cancelled_run env.py r none) _
                (Triple-from (λ w h. h.0.0) (finalize_cancelled_run-Triple r env.py none))
                (λ u. Triple-pure stopped (λ w h. inl h)))
              (Triple-bind (turn env settings memory r goal total t (t ∷ ts) outputs) _
                (turn-Triple total t ts outputs)
                (λ ended.
                  on_turn-Triple ts outputs _ ended
                    (λ output. pass-Triple total ts (outputs ++ output ∷ []))))

  -- How `_run_tasks` returns: with every task ended, or with the run closed.
  abbrev pub Finished : Option (List PriorTaskOutput) → World → Type 0
  Finished none = IsClosed r
  Finished (some outputs) = λ w. IsSettled r w.db.tasks

  on_pass-Triple :
      (g : ℕ) (next : List TaskView → List PriorTaskOutput → Action (Option (List PriorTaskOutput)))
      (ended : Pass)
      → ((new : List TaskView) (kept : List PriorTaskOutput)
          → Triple (Pending g new) (next new kept) Finished (FromTasks r))
      → Triple (Passed g ended) (on_pass next ended) Finished (FromTasks r)
  on_pass-Triple g next (completed all) h = Triple-pure (some all) (λ w c. c.0)
  on_pass-Triple g next stopped h = Triple-pure none (λ w c. c)
  on_pass-Triple g next (replanned new kept) h = h new kept

  generations-Triple :
      (fuel : ℕ) (ts : List TaskView) (outputs : List PriorTaskOutput)
      → Triple
          (Pending fuel ts)
          (generations env settings memory r goal fuel ts outputs)
          Finished
          (FromTasks r)
  unfolding generations
  generations-Triple fuel [] outputs = Triple-pure (some outputs) (λ w h. h.0)
  generations-Triple zero (t ∷ ts) outputs =
      Triple-raise out_of_fuel (λ w h. ground (arith, h.1.replans_below))
  generations-Triple (suc g) (t ∷ ts) outputs =
      Triple-bind
        (pass env settings memory r goal (length outputs + length (t ∷ ts)) (t ∷ ts) outputs) _
        (pass-Triple g (length outputs + length (t ∷ ts)) (t ∷ ts) outputs)
        (λ ended. on_pass-Triple g _ ended (λ new kept. generations-Triple g new kept))

  pub run_tasks-Triple :
      (ts : List TaskView)
      → Triple
          (OnTables (λ rs us. IsReady r (ids ts) us) R (settings.agent_max_replans + 1))
          (run_tasks env settings memory r goal ts)
          Finished
          (FromTasks r)
  unfolding run_tasks set_status
  run_tasks-Triple ts =
      Triple-bind {Q = λ u. Pending (settings.agent_max_replans + 1) ts}
        (session (set_status r RunStatus.running)) _
        (Triple-session (set_status r RunStatus.running) (λ w h. h))
        (λ u. generations-Triple (settings.agent_max_replans + 1) ts [])
