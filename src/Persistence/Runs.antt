-- ===== src/Persistence/Runs.antt =====
-- `RunRepository` of backend/atlas/persistence/repositories.py.
use atlas_the_agent.Base.{
  false, true, Bool, ℕ, Option, none, some, List, [], ◌∷◌, ◌++◌, not, Text, filter, ◌==◌,
  if◌then◌else◌,
}
use atlas_the_agent.Agent.Schemas.{RunStatus, is_terminal}
use atlas_the_agent.Persistence.Tables.{RunRow, Database, update_where}

unfoldable pub create : ℕ → Text → Database → Database
create run_id goal db = record db {
  runs =
      db.runs
      ++ (record {
        id = run_id;
        goal = goal;
        status = RunStatus.created;
        answer = none;
        error = none;
      })
        ∷ [];
}

unfoldable pub find_run : ℕ → List RunRow → Option RunRow
find_run run_id [] = none
find_run run_id (r ∷ rs) = if r.id == run_id then some r else find_run run_id rs

-- `RunRepository.get`
unfoldable pub get_run : ℕ → Database → Option RunRow
unfolding find_run
get_run run_id db = find_run run_id db.runs

unfoldable pub list_non_terminal : Database → List RunRow
list_non_terminal db = filter (λ r. not (is_terminal r.status)) db.runs

unfoldable pub set_status : ℕ → RunStatus → Database → Database
unfolding update_where
set_status run_id s db = record db {
  runs = update_where (λ r. r.id == run_id) (λ r. record r { status = s }) db.runs;
}

unfoldable pub set_answer : ℕ → Text → Database → Database
unfolding update_where
set_answer run_id a db = record db {
  runs = update_where (λ r. r.id == run_id) (λ r. record r { answer = some a }) db.runs;
}

unfoldable pub set_error : ℕ → Text → Database → Database
unfolding update_where
set_error run_id e db = record db {
  runs = update_where (λ r. r.id == run_id) (λ r. record r { error = some e }) db.runs;
}

-- `RunView`, the times apart.
pub record RunView : Type 0 where
  pub id : ℕ
  pub goal : Text
  pub status : RunStatus
  pub answer : Option Text
  pub error : Option Text
  pub partial : Bool

-- `status is RunStatus.FAILED and row.answer is not None`
abbrev is_partial : RunStatus → Option Text → Bool
is_partial RunStatus.failed (some answer) = true
is_partial RunStatus.failed none = false
is_partial _ answer = false

-- `RunRepository.to_view`
unfoldable pub to_view : RunRow → RunView
to_view row = record {
  id = row.id;
  goal = row.goal;
  status = row.status;
  answer = row.answer;
  error = row.error;
  partial = is_partial row.status row.answer;
}
