-- ===== src/Tests/Ends.antt =====
-- How runs end, and what is made of an interrupted one.
use atlas_the_agent.Base.{ℕ, ◌≡◌, refl, false, none, some, [], ◌∷◌, map, codes}
use atlas_the_agent.Core.Json.{pos, int, end, field}
use atlas_the_agent.Events.Types
use atlas_the_agent.Events.Types.{Event}
use atlas_the_agent.Agent.Schemas.{RunStatus, TaskStatus, TaskView}
use atlas_the_agent.Persistence.Tables.{order_by}
use atlas_the_agent.Persistence.Ledger.{list_after}
use atlas_the_agent.Runtime.Budget.{BudgetExceeded}
use atlas_the_agent.Runtime.Manager.Finalize.{finalize_cancelled_run, finalize_budget_exceeded}
use atlas_the_agent.Runtime.Manager.Settled.{
  HasEnded, HasStopped, finalize_cancelled_run-HasEnded, finalize_budget_exceeded-HasStopped,
}
use atlas_the_agent.Recovery.Replay.{ReplayState, start, unpack, fold_events, mark_task}
use atlas_the_agent.Recovery.Reconciler.{reconcile_one}
use atlas_the_agent.Recovery.Interrupted.{IsReconciled, reconcile_one-IsReconciled}
use atlas_the_agent.Recovery.Track.{phase_of, track, fold_events-tracks}
use atlas_the_agent.Process.{World}
use atlas_the_agent.Process.Triple.{Post}
use atlas_the_agent.Tests.Fixtures.{python, env, database, world}

abbrev task_at : ℕ → TaskStatus → TaskView
task_at i s = record {
  id = record { run = 7; index = i };
  run_id = 7;
  index = i;
  description = codes "add";
  success_criteria = [];
  suggested_tool = none;
  status = s;
  output = none;
  error = none;
  attempt_count = 0;
  replan_generation = 0;
  parent_generation = none;
}

abbrev busy : TaskView
busy = task_at 1 TaskStatus.running

-- One task is done, one is running, one is pending; the ledger says that the run has started.
abbrev in_flight : World
in_flight = record world {
  db = record database {
    tasks = task_at 0 TaskStatus.done ∷ busy ∷ task_at 2 TaskStatus.pending ∷ [];
    events =
        (record { run_id = 7; seq = 1; type = Types.run_started; payload = end })
        ∷ (record {
          run_id = 7;
          seq = 2;
          type = Types.task_started;
          payload = field "index" (int (pos 1)) end;
        })
        ∷ [];
  };
}

finalize_cancelled_run-HasEnded_example :
    Post
      (λ u. HasEnded 7 RunStatus.cancelled)
      (λ e v. ⊥)
      (finalize_cancelled_run python 7 (some (busy, "execution")) in_flight)
finalize_cancelled_run-HasEnded_example =
    finalize_cancelled_run-HasEnded python 7 (some (busy, "execution")) in_flight
      (refl, (refl, (refl, tt)))

abbrev too_many : BudgetExceeded
too_many = record { budget = "model_calls"; limit = 5; used = 5 }

finalize_budget_exceeded-HasStopped_example :
    Post
      (λ u. HasStopped 7)
      (λ e v. ⊥)
      (finalize_budget_exceeded env 7 too_many (some busy) in_flight)
finalize_budget_exceeded-HasStopped_example =
    finalize_budget_exceeded-HasStopped env 7 too_many (some busy) in_flight
      (refl, (refl, (refl, tt)))

abbrev replayed : ReplayState
replayed = record start {
  status = RunStatus.running;
  tasks =
      (record { index = pos 1; description = []; status = TaskStatus.running; output = none }) ∷ [];
}

folded : fold_events python (map unpack (list_after 7 0 in_flight.db)) ≡ some replayed
unfolding fold_events list_after order_by mark_task
folded = refl

reconcile_one-IsReconciled_example :
    Post (IsReconciled 7 replayed in_flight.db) (λ e v. ⊥) (reconcile_one python 7 in_flight)
reconcile_one-IsReconciled_example = reconcile_one-IsReconciled python 7 replayed in_flight folded

folded_events : fold_events python (map unpack in_flight.db.events) ≡ some replayed
unfolding fold_events mark_task
folded_events = refl

fold_events-tracks_example :
    phase_of replayed ≡ track in_flight.db.events (RunStatus.created, false)
fold_events-tracks_example = fold_events-tracks python in_flight.db.events replayed folded_events
