-- ===== src/Persistence/Attempts.antt =====
-- `TaskAttemptRepository` of backend/atlas/persistence/repositories.py.
use atlas_the_agent.Base.{ℕ, Option, none, some, [], ◌∷◌, ◌++◌, List, Text, filter}
use atlas_the_agent.Agent.Schemas.{
  TaskId, same_id, AttemptId, same_attempt, ReflectionResult, TaskAttemptView,
}
use atlas_the_agent.Persistence.Tables.{Database, order_by, update_where}

-- `create` returns the view of the row that it adds.
unfoldable pub create :
    TaskId → ℕ → ℕ → Option Text → Option Text → Database → TaskAttemptView × Database
create task_id run_id attempt_number output error db =
    let row : TaskAttemptView = record {
      attempt_id = record { task = task_id; number = attempt_number };
      task_id = task_id;
      run_id = run_id;
      attempt_number = attempt_number;
      output = output;
      error = error;
      reflection_decision = none;
      reflection_reason = none;
      reflection_confidence = none;
      reflection_source = none;
      reflection_version = none;
    } in
    (row, record db { attempts = db.attempts ++ row ∷ [] })

unfoldable pub record_reflection : AttemptId → ReflectionResult → Database → Database
record_reflection attempt_id r db = record db {
  attempts =
      update_where (λ a. same_attempt a.attempt_id attempt_id)
        (λ a. record a {
          reflection_decision = some r.decision;
          reflection_reason = some r.reason;
          reflection_confidence = some r.confidence;
          reflection_source = some r.source;
          reflection_version = some r.reflection_version;
        })
        db.attempts;
}

unfoldable pub list_for_task : TaskId → Database → List TaskAttemptView
list_for_task task_id db =
    order_by (λ a. a.attempt_number) (filter (λ a. same_id a.task_id task_id) db.attempts)
