-- ===== src/Runtime/Manager/Outcome/Ends.antt =====
-- How `_execute` ends.
use atlas_the_agent.Runtime.Manager.Outcome.Stages.{Reserve, HasStopped→IsClosed}
use atlas_the_agent.Runtime.Manager.Outcome.Delivered.{Over, FromPhases}
use atlas_the_agent.Runtime.Manager.Outcome.Phases.{Opened, phases-Triple}
use atlas_the_agent.Base.{
  false, Bool, ℕ, ◌+◌, ◌≡◌, refl, true, All, inl, inr, ◌⊎◌, Option, none, some, ◌++◌, Text, codes,
  ◌==◌, arith, starts_with,
}
use atlas_the_agent.Core.Json.{str, field, end}
use atlas_the_agent.Events.Types
use atlas_the_agent.Recovery.Track.{step}
use atlas_the_agent.Core.Settings.{Settings}
use atlas_the_agent.Agent.Schemas.{RunStatus}
use atlas_the_agent.Persistence.Ledger.{append}
use atlas_the_agent.Persistence.Runs.{set_status, set_error}
use atlas_the_agent.Persistence.Tasks.Status.{IsIdle, IsSettled, All-update}
use atlas_the_agent.Runtime.Budget.{from_settings, replans_left}
use atlas_the_agent.Runtime.Manager.Finalize.{finalize_failed}
use atlas_the_agent.Runtime.Manager.Settled.{
  HasStatus, HasEnded, everywhere, ended-HasStatus, finalize_failed-Triple,
  finalize_budget_exceeded-Triple,
}
use atlas_the_agent.Runtime.Manager.Execute.{open_budget, phases, on_exception, execute}
use atlas_the_agent.Memory.{MemoryService, IsBestEffort}
use atlas_the_agent.Process.{
  Exc, cancelled, replan, run_cancelled, budget_exceeded, planner_error, llm_error, executor_error,
  unexpected, out_of_fuel, Env, World, emit, emit_to,
}
use atlas_the_agent.Process.Triple.{
  Post, Triple, Triple-raise, Triple-bind, Triple-catch, Triple-weaken,
}

-- The error of a row is that of the handler of an unexpected exception.
abbrev pub is_unexpected : Option Text → Bool
is_unexpected none = false
is_unexpected (some error) = starts_with error (codes "Unexpected error: ")

abbrev pub Broke : ℕ → World → Type 0
Broke r w = All (λ row. (row.id == r) ≡ true → is_unexpected row.error ≡ true) w.db.runs

-- A run that is over: cancelled or done with every task ended, or failed with no task in flight
-- unless an unexpected exception has ended it.
abbrev pub HasConcluded : ℕ → World → Type 0
HasConcluded r w =
    HasEnded r RunStatus.cancelled w
    ⊎ HasEnded r RunStatus.done w
    ⊎ (HasStatus r RunStatus.failed w × (IsIdle r w.db.tasks ⊎ Broke r w))

module _ (r : ℕ) where
  Broke-set_error :
      (m : Text) (w : World)
      → Broke r (record w { db = set_error r (codes "Unexpected error: " ++ m) w.db })
  unfolding set_error
  Broke-set_error m w =
      All-update (λ row. Unit) (λ row. (row.id == r) ≡ true → is_unexpected row.error ≡ true)
        (λ row. row.id == r) (λ row. record row { error = some (codes "Unexpected error: " ++ m) })
        w.db.runs (λ row e h k. refl) (λ row e h k. ground (arith, e, k)) (everywhere w.db.runs)

  Broke-set_status :
      (s : RunStatus) (w : World) → Broke r w → Broke r (record w { db = set_status r s w.db })
  unfolding set_status
  Broke-set_status s w =
      All-update (λ row. (row.id == r) ≡ true → is_unexpected row.error ≡ true)
        (λ row. (row.id == r) ≡ true → is_unexpected row.error ≡ true) _ _ w.db.runs
        (λ row e h k. h k) (λ row e h k. h k)

  -- The handler of an unexpected exception.
  unexpected-Triple :
      {P : World → Type 0} {E : Exc → World → Type 0} (m : Text)
      → Triple P (finalize_failed r (codes "Unexpected error: " ++ m)) (λ u. HasConcluded r) E
  unfolding finalize_failed emit emit_to append step
  unexpected-Triple m = record {
    at = λ w h.
        let v = record w { db = set_error r (codes "Unexpected error: " ++ m) w.db } in
        inr (
          inr (
            ended-HasStatus r RunStatus.failed Types.run_failed
                (field "error" (str (codes "Unexpected error: " ++ m)) end) v (λ p. refl),
            inr (Broke-set_status RunStatus.failed v (Broke-set_error m w)),
          ));
  }

  failed-Triple :
      {E : Exc → World → Type 0} (error : Text)
      → Triple (λ w. IsIdle r w.db.tasks) (finalize_failed r error) (λ u. HasConcluded r) E
  failed-Triple error =
      Triple-weaken (λ u w h. inr (inr (h.0, inl h.1))) (finalize_failed-Triple r (IsIdle r) error)

  from_Over : (w : World) → Over r w → HasConcluded r w
  from_Over w (inl (inl h)) = inl h
  from_Over w (inl (inr h)) = inr (inr (h.0, inl h.1))
  from_Over w (inr h) = inr (inl h)

module _ (env : Env) (settings : Settings) (memory : MemoryService) (best : IsBestEffort memory)
    (r : ℕ) (goal : Text) where
  on_exception-Triple :
      (e : Exc)
      → Triple
          (FromPhases r e)
          (on_exception env settings memory r goal e)
          (λ u. HasConcluded r)
          (λ e w. ⊥)
  unfolding on_exception
  on_exception-Triple (budget_exceeded be) =
      Triple-weaken (λ u w h. from_Over r w (inl (HasStopped→IsClosed r w h)))
        (finalize_budget_exceeded-Triple r env be none)
  on_exception-Triple (planner_error m) = failed-Triple r (codes "Planning failed: " ++ m)
  on_exception-Triple (llm_error m) = failed-Triple r (codes "LLM error: " ++ m)
  on_exception-Triple (unexpected m) = unexpected-Triple r m
  on_exception-Triple (cancelled t p) = unexpected-Triple r _
  on_exception-Triple (replan t v) = unexpected-Triple r (codes "replan requested")
  on_exception-Triple run_cancelled = record { at = λ w h. absurd h }
  on_exception-Triple (executor_error m) = record { at = λ w h. absurd h }
  on_exception-Triple out_of_fuel = Triple-raise out_of_fuel (λ w h. h)

  -- The budget of a run at its start.
  opened-Reserve :
      Reserve settings.agent_max_retries (settings.agent_max_replans + 1) (from_settings settings)
  unfolding from_settings replans_left
  opened-Reserve = record { retries_capped = omega arith; replans_below = omega arith }

  execute-Triple :
      Triple
        (λ w. IsSettled r w.db.tasks)
        (execute env settings memory r goal)
        (λ u. HasConcluded r)
        (λ e w. ⊥)
  unfolding execute
  execute-Triple =
      Triple-bind {Q = λ u. Opened env settings memory best r goal} (open_budget settings) _
        (record { at = λ w h. (h, opened-Reserve) })
        (λ u.
          Triple-catch (phases env settings memory r goal) _
            (Triple-weaken (λ v. from_Over r) (phases-Triple env settings memory best r goal))
            on_exception-Triple)

-- The end of a run: started where no task of the run is open, `_execute` returns, without an
-- exception and without running out of the fuel of its loops. The row of the run is then cancelled
-- or done and no task of the run is pending, running or retrying, or it is failed and no task of
-- the run is running or retrying unless the row's error starts with "Unexpected error: ". The
-- state machine of the replay, on the events of the run, is then final with the status of the row.
-- The memory service is asked to raise nothing and to write no row of a run, a task or an attempt.
pub execute-HasConcluded :
    (env : Env) (settings : Settings) (memory : MemoryService)
    → IsBestEffort memory
    → (r : ℕ) (goal : Text) (w : World) → IsSettled r w.db.tasks
    → Post (λ u. HasConcluded r) (λ e v. ⊥) (execute env settings memory r goal w)
execute-HasConcluded env settings memory best r goal w h =
    (execute-Triple env settings memory best r goal).at w h
