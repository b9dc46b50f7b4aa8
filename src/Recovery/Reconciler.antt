-- ===== src/Recovery/Reconciler.antt =====
-- backend/atlas/recovery/reconciler.py
use atlas_the_agent.Base.{
  Option, ℕ, Bool, true, false, none, some, List, [], ◌∷◌, map, filter, Text, codes, if◌then◌else◌,
}
use atlas_the_agent.Core.Json.{bool, str, nat, end, field}
use atlas_the_agent.Core.Python.{Python}
use atlas_the_agent.Events.Types
use atlas_the_agent.Agent.Schemas.{RunStatus, TaskStatus, pending, running, retrying, TaskView}
use atlas_the_agent.Agent.Executor.{id_text}
use atlas_the_agent.Persistence.Tables.{Database}
use atlas_the_agent.Persistence.Runs.{list_non_terminal, set_status, set_error}
use atlas_the_agent.Persistence.Tasks.{list_for_run, mark_cancelled}
use atlas_the_agent.Persistence.Ledger.{list_after}
use atlas_the_agent.Recovery.Replay.{ReplayState, unpack, fold_events}
use atlas_the_agent.Process.{
  unexpected, Action, Done, pure, raise, ◌>>=◌, ◌>>◌, catch, reads, session, session_value, emit,
}

-- `t.status in _NON_TERMINAL_TASKS`
abbrev pub is_open : TaskStatus → Bool
is_open pending = true
is_open running = true
is_open retrying = true
is_open _ = false

abbrev interrupted : Text
interrupted = codes "interrupted_by_shutdown"

abbrev pub interrupted_error : Text
interrupted_error = codes "Run interrupted by shutdown before completion"

unfoldable pub cancel_each : List TaskView → Database → Database
cancel_each [] d = d
cancel_each (t ∷ ts) d = cancel_each ts (mark_cancelled t.id d)

-- The session of `_cancel_open_tasks`.
unfoldable pub cancel_open : ℕ → Database → List TaskView × Database
unfolding cancel_each
cancel_open run_id d =
    let open_tasks = filter (λ t. is_open t.status) (list_for_run run_id d) in
    (open_tasks, cancel_each open_tasks d)

module _ (py : Python) where
  unfoldable pub emit_cancellations : ℕ → List TaskView → Action Done
  emit_cancellations run_id [] = pure tt
  emit_cancellations run_id (t ∷ ts) =
      emit run_id Types.task_cancelled (
        field "task_id" (str (id_text py t.id))
          (field "index" (nat t.index) (field "reason" (str interrupted) end)))
      >> emit_cancellations run_id ts

  unfoldable pub cancel_open_tasks : ℕ → Action Done
  unfolding cancel_open emit_cancellations
  cancel_open_tasks run_id = do
    open_tasks ← session_value (cancel_open run_id)
    emit_cancellations run_id open_tasks

  -- A run that was interrupted in the middle.
  unfoldable pub close_interrupted : ℕ → Action Bool
  unfolding cancel_open_tasks
  close_interrupted run_id = do
    cancel_open_tasks run_id
    session (λ d. set_status run_id RunStatus.failed (set_error run_id interrupted_error d))
    emit run_id Types.run_failed (
        field "error" (str interrupted_error)
          (field "reason" (str interrupted) (field "recovered" (bool true) end)))
    pure true

  -- The two branches on `state.terminal`.
  abbrev pub follow_if : Bool → ℕ → ReplayState → Action Bool
  follow_if true run_id st = do session (set_status run_id st.status); pure true
  follow_if false run_id st = close_interrupted run_id

  abbrev pub follow : ℕ → ReplayState → Action Bool
  follow run_id st = follow_if st.terminal run_id st

  -- `state = fold_events(events)`, and what follows it.
  abbrev pub resume : ℕ → Option ReplayState → Action Bool
  resume run_id none = raise (unexpected (codes "unreadable payload"))
  resume run_id (some st) = follow run_id st

  -- `_reconcile_one`
  unfoldable pub reconcile_one : ℕ → Action Bool
  unfolding close_interrupted
  reconcile_one run_id = do
    events ← reads (λ w. list_after run_id 0 w.db)
    resume run_id (fold_events py (map unpack events))

  -- The loop of `reconcile_pending`: an exception for one run does not stop the others.
  unfoldable pub reconcile_each : List ℕ → Action (List ℕ)
  unfolding reconcile_one
  reconcile_each [] = pure []
  reconcile_each (r ∷ rs) = do
    changed ← catch (reconcile_one r) (λ e. pure false)
    rest ← reconcile_each rs
    pure (if changed then r ∷ rest else rest)

  unfoldable pub reconcile_pending : Action (List ℕ)
  unfolding reconcile_each
  reconcile_pending = do
    ids ← reads (λ w. map (λ r. r.id) (list_non_terminal w.db))
    reconcile_each ids
