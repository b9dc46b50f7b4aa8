-- ===== src/Tests/Runs.antt =====
-- Whole runs of `execute`.
use atlas_the_agent.Agent.Executor.{run}
use atlas_the_agent.Runtime.Manager.Attempt.{run_task}
use atlas_the_agent.Agent.Planner.Normalize.{normalize}
use atlas_the_agent.Agent.Jsonio.{extract_json}
use atlas_the_agent.Agent.Planner.Plan.{parse_plan}
use atlas_the_agent.Runtime.Budget.{charge_model_call, from_settings}
use atlas_the_agent.Agent.Planner.{plan}
use atlas_the_agent.Persistence.Attempts.{record_reflection, create}
use atlas_the_agent.Persistence.Tasks.{
  mark_done, set_attempt_count, mark_running, bulk_create, new_tasks,
}
use atlas_the_agent.Persistence.Runs.{set_status, set_answer}
use atlas_the_agent.Agent.Synthesizer.{answer}
use atlas_the_agent.Agent.Reflector.Verdict.{parse_reflection}
use atlas_the_agent.Agent.Reflector.{reflect, precheck_output, apply_confidence_gate}
use atlas_the_agent.Runtime.Manager.Finalize.{
  record_attempt, emit_task_reflected, emit_task_completed, finalize_done, emit_task_started,
}
use atlas_the_agent.Agent.Envelope.{is_finish, parse_action}
use atlas_the_agent.Base.{◌≤◌, ◌+◌, ◌≡◌, refl, true, none, some, codes, [], ◌∷◌, map, strip}
use atlas_the_agent.Agent.Schemas.{RunStatus, TaskStatus}
use atlas_the_agent.Memory.{ServiceKeeps, IsBestEffort}
use atlas_the_agent.Process.Stays.{Stays-pure}
use atlas_the_agent.Process.Triple.{Post}
use atlas_the_agent.Runtime.Manager.Once.{execute-HasEndings}
use atlas_the_agent.Runtime.Manager.Once.Rules.{HasEndings}
use atlas_the_agent.Core.Json.{pos}
use atlas_the_agent.Runtime.Manager.Replayed.{IsReplayed, execute-IsReplayed}
use atlas_the_agent.Persistence.Tables.{order_by}
use atlas_the_agent.Process.{World, emit_to, emit, is_set, complete_as}
use atlas_the_agent.Process.Keeps.{Keeps-pure}
use atlas_the_agent.Recovery.Replay.{
  ReplayState, unpack, sequence_is_intact, fold_events, mark_task,
}
use atlas_the_agent.Persistence.Ledger.{list_after}
use atlas_the_agent.Runtime.Manager.Execute.{execute}
use atlas_the_agent.Runtime.Manager.Bounded.{IsBounded, execute-IsBounded}
use atlas_the_agent.Runtime.Manager.Sequence.{execute-intact}
use atlas_the_agent.Tests.Fixtures.{env, settings, no_memory, goal, world}

no_memory-IsBestEffort : IsBestEffort no_memory
no_memory-IsBestEffort = record {
  at_recall = λ P aside r goal. Stays-pure [];
  at_write = λ P aside r goal outcome answer. Stays-pure tt;
}

no_memory-keeps : (P : World → Type 0) → ServiceKeeps P no_memory
no_memory-keeps P = record {
  at_recall = λ r goal. Keeps-pure [];
  at_write = λ r goal outcome answer. Keeps-pure tt;
}

execute-IsBounded_example :
    let v = (execute env settings no_memory 7 goal world).1 in
    IsBounded settings world v
    × (v.model_called ≤ 0 + settings.agent_max_model_calls)
    × (v.tool_called ≤ 0 + settings.agent_max_tool_calls)
execute-IsBounded_example =
    execute-IsBounded env settings no_memory 7 goal world
      (no_memory-keeps (IsBounded settings world))

execute-intact_example :
    sequence_is_intact
      (map unpack (list_after 7 0 (execute env settings no_memory 7 goal world).1.db))
    ≡ true
execute-intact_example = execute-intact env settings no_memory 7 (no_memory-keeps _) 7 goal world tt

abbrev final : World
final = (execute env settings no_memory 7 goal world).1

-- The run ends with its row done, its only task done, and three model calls.
run_ends :
    (map (λ r. r.status) final.db.runs ≡ RunStatus.done ∷ [])
    × (map (λ t. t.status) final.db.tasks ≡ TaskStatus.done ∷ [])
    × (final.budget.model_calls ≡ 3)
unfolding execute is_finish record_attempt reflect precheck_output parse_reflection
    emit_task_reflected apply_confidence_gate emit_task_completed answer finalize_done emit_to
    set_status set_answer mark_done record_reflection set_attempt_count create mark_running emit
    is_set plan complete_as charge_model_call from_settings parse_plan extract_json bulk_create
    new_tasks normalize strip run_task emit_task_started run parse_action
run_ends = (refl, refl, refl)

-- What the replay makes of its ledger.
abbrev replayed : ReplayState
replayed = record {
  status = RunStatus.done;
  answer = some (codes "4");
  error = none;
  tasks =
      (record {
        index = pos 0;
        description = codes "add";
        status = TaskStatus.done;
        output = some (codes "4");
      })
      ∷ [];
  answer_tokens = codes "4" ∷ [];
  terminal = true;
}

folded : fold_events env.py (map unpack (list_after 7 0 final.db)) ≡ some replayed
unfolding execute is_finish record_attempt reflect precheck_output parse_reflection
    emit_task_reflected apply_confidence_gate emit_task_completed answer finalize_done emit_to
    set_status set_answer mark_done record_reflection set_attempt_count create mark_running emit
    is_set plan complete_as charge_model_call from_settings parse_plan extract_json bulk_create
    new_tasks normalize strip run_task emit_task_started run parse_action fold_events list_after
    order_by mark_task
folded = refl

execute-IsReplayed_example : IsReplayed 7 replayed final
execute-IsReplayed_example =
    execute-IsReplayed env settings no_memory no_memory-IsBestEffort 7 goal world (tt, tt) tt
      replayed folded

execute-HasEndings_example :
    Post (λ u. HasEndings 7 1) (λ e v. ⊥) (execute env settings no_memory 7 goal world)
execute-HasEndings_example =
    execute-HasEndings env settings no_memory no_memory-IsBestEffort 7 goal world (tt, tt) refl
