-- ===== src/Persistence/Tasks.antt =====
-- `TaskRepository` of backend/atlas/persistence/repositories.py.
pub mod Status
pub mod Listed
pub mod Fresh
use atlas_the_agent.Base.{
  ℕ, zero, suc, ◌+◌, Bool, Option, none, some, List, [], ◌∷◌, ◌++◌, Text, filter, any, ◌==◌,
}
use atlas_the_agent.Agent.Schemas.{TaskStatus, TaskId, same_id, PlannedTask, TaskView}
use atlas_the_agent.Persistence.Tables.{Database, order_by, update_where}

-- The new rows of a plan, `PENDING`, at the indices from `start` on.
unfoldable pub new_tasks : ℕ → ℕ → ℕ → Option ℕ → List PlannedTask → List TaskView
new_tasks run_id start generation parent [] = []
new_tasks run_id start generation parent (p ∷ ps) =
    (record {
      id = record { run = run_id; index = start };
      run_id = run_id;
      index = start;
      description = p.description;
      success_criteria = p.success_criteria;
      suggested_tool = p.suggested_tool;
      status = TaskStatus.pending;
      output = none;
      error = none;
      attempt_count = 0;
      replan_generation = generation;
      parent_generation = parent;
    })
    ∷ new_tasks run_id (start + 1) generation parent ps

-- `append_generation`: the rows are stored, and their views are returned.
unfoldable pub append_generation :
    ℕ → List PlannedTask → ℕ → ℕ → Option ℕ → Database → List TaskView × Database
append_generation run_id planned start generation parent db =
    let rows = new_tasks run_id start generation parent planned in
    (rows, record db { tasks = db.tasks ++ rows })

-- `bulk_create`: generation 0, from index 0.
unfoldable pub bulk_create : ℕ → List PlannedTask → Database → List TaskView × Database
bulk_create run_id planned db =
    let rows = new_tasks run_id 0 0 none planned in (rows, record db { tasks = db.tasks ++ rows })

unfoldable pub list_for_run : ℕ → Database → List TaskView
list_for_run run_id db = order_by (λ t. t.index) (filter (λ t. t.run_id == run_id) db.tasks)

-- `output if output is not None else row.output`
abbrev pub or_keep : Option Text → Option Text → Option Text
or_keep none old = old
or_keep (some new) old = some new

-- `_set`
unfoldable pub set_task : TaskId → TaskStatus → Option Text → Option Text → Database → Database
set_task task_id s output error db = record db {
  tasks =
      update_where (λ t. same_id t.id task_id)
        (λ t. record t {
          status = s;
          output = or_keep output t.output;
          error = or_keep error t.error;
        })
        db.tasks;
}

unfoldable pub mark_running : TaskId → Database → Database
unfolding set_task
mark_running t = set_task t TaskStatus.running none none

unfoldable pub mark_done : TaskId → Text → Database → Database
unfolding set_task
mark_done t output = set_task t TaskStatus.done (some output) none

unfoldable pub mark_failed : TaskId → Text → Database → Database
unfolding set_task
mark_failed t error = set_task t TaskStatus.failed none (some error)

unfoldable pub mark_retrying : TaskId → Database → Database
unfolding set_task
mark_retrying t = set_task t TaskStatus.retrying none none

unfoldable pub mark_cancelled : TaskId → Database → Database
unfolding set_task
mark_cancelled t = set_task t TaskStatus.cancelled none none

-- `TaskRow.id.in_(task_ids)`
abbrev pub in_ids : List TaskId → TaskId → Bool
in_ids ids t = any (λ i. same_id t i) ids

unfoldable pub bulk_skip : List TaskId → Database → Database
bulk_skip ids db = record db {
  tasks =
      update_where (λ t. in_ids ids t.id) (λ t. record t { status = TaskStatus.skipped }) db.tasks;
}

unfoldable pub set_attempt_count : TaskId → ℕ → Database → Database
set_attempt_count task_id n db = record db {
  tasks = update_where (λ t. same_id t.id task_id) (λ t. record t { attempt_count = n }) db.tasks;
}
