-- ===== src/Runtime/Manager/Tasks.antt =====
-- `_run_tasks` of `RunManager`: the tasks of one generation, and the generations of a run.
use atlas_the_agent.Base.{
  if◌then◌else◌, ℕ, zero, suc, ◌+◌, Option, none, some, List, [], ◌∷◌, ◌++◌, Text, length,
}
use atlas_the_agent.Core.Settings.{Settings}
use atlas_the_agent.Agent.Schemas.{RunStatus, TaskView, PriorTaskOutput}
use atlas_the_agent.Persistence.Runs.{set_status}
use atlas_the_agent.Runtime.Manager.Finalize.{finalize_cancelled_run, finalize_budget_exceeded}
use atlas_the_agent.Runtime.Manager.Attempt.{run_task}
use atlas_the_agent.Runtime.Manager.Replan.{do_replan}
use atlas_the_agent.Memory.{MemoryService}
use atlas_the_agent.Process.{
  Exc, cancelled, replan, budget_exceeded, out_of_fuel, Env, Action, pure, raise, ◌>>=◌, ◌>>◌,
  catch, session, is_set,
}

-- How the turn of one task ends: with what `_run_task` returns, with the run finalized by a
-- handler, or with a new generation.
pub data Turn : Type 0 where
  ran : Option PriorTaskOutput → Turn
  closed : Turn
  swapped : List TaskView → Turn

-- How the `for` loop over a generation ends: to its end, by `return None`, or by `break`.
pub data Pass : Type 0 where
  completed : List PriorTaskOutput → Pass
  stopped : Pass
  replanned : List TaskView → List PriorTaskOutput → Pass

abbrev pub on_turn : List PriorTaskOutput → (PriorTaskOutput → Action Pass) → Turn → Action Pass
on_turn outputs next (ran none) = pure stopped
on_turn outputs next (ran (some output)) = next output
on_turn outputs next closed = pure stopped
on_turn outputs next (swapped new_pending) = pure (replanned new_pending outputs)

abbrev pub on_pass :
    (List TaskView → List PriorTaskOutput → Action (Option (List PriorTaskOutput)))
    → Pass
    → Action (Option (List PriorTaskOutput))
on_pass next (completed all) = pure (some all)
on_pass next stopped = pure none
on_pass next (replanned new_pending kept) = next new_pending kept

abbrev pub swapped_or_closed : Option (List TaskView) → Turn
swapped_or_closed none = closed
swapped_or_closed (some ts) = swapped ts

module _ (env : Env) (settings : Settings) (memory : MemoryService) (run_id : ℕ) (goal : Text) where
  -- The `except` clauses around `_run_task`.
  unfoldable pub on_signal : TaskView → List TaskView → List PriorTaskOutput → Exc → Action Turn
  on_signal t remaining outputs (cancelled u phase) = do
    finalize_cancelled_run env.py run_id (some (u, phase))
    pure closed
  on_signal t remaining outputs (budget_exceeded be) = do
    finalize_budget_exceeded env run_id be (some t)
    pure closed
  on_signal t remaining outputs (replan u result) = do
    new_pending ← do_replan env settings run_id goal u result remaining outputs
    pure (swapped_or_closed new_pending)
  on_signal t remaining outputs e = raise e

  -- The `try` around `_run_task`; `remaining` is `pending[position:]`.
  unfoldable pub turn : ℕ → TaskView → List TaskView → List PriorTaskOutput → Action Turn
  unfolding on_signal
  turn total t remaining outputs =
      catch
        (do result ← run_task env settings memory run_id goal t outputs total; pure (ran result))
        (on_signal t remaining outputs)

  -- `for position, task in enumerate(pending)`
  unfoldable pub pass : ℕ → List TaskView → List PriorTaskOutput → Action Pass
  unfolding turn
  pass total [] outputs = pure (completed outputs)
  pass total (t ∷ ts) outputs = do
    stop ← is_set env
    if stop then (do finalize_cancelled_run env.py run_id none; pure stopped) else (do
      ended ← turn total t (t ∷ ts) outputs
      on_turn outputs (λ output. pass total ts (outputs ++ output ∷ [])) ended)

  -- `while pending`, on fuel.
  unfoldable pub generations :
      ℕ → List TaskView → List PriorTaskOutput → Action (Option (List PriorTaskOutput))
  unfolding pass
  generations fuel [] outputs = pure (some outputs)
  generations zero (t ∷ ts) outputs = raise out_of_fuel
  generations (suc fuel) (t ∷ ts) outputs = do
    ended ← pass (length outputs + length (t ∷ ts)) (t ∷ ts) outputs
    on_pass (generations fuel) ended

  -- Each generation but the last uses up a replan.
  unfoldable pub run_tasks : List TaskView → Action (Option (List PriorTaskOutput))
  unfolding generations
  run_tasks tasks = do
    session (set_status run_id RunStatus.running)
    generations (settings.agent_max_replans + 1) tasks []
