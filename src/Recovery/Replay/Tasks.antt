-- ===== src/Recovery/Replay/Tasks.antt =====
-- The tasks of a replayed state, `_tasks_from_plan` and `_str_or_none` of
-- backend/atlas/recovery/replay.py.
use atlas_the_agent.Base.{
  Bool, true, false, Option, none, some, List, [], ◌∷◌, Text, ◌==◌, if◌then◌else◌,
}
use atlas_the_agent.Core.Json.{
  ℤ, pos, negsuc, finite, Json, null, bool, int, float, str, arr, obj, Items, nil, cons, get,
}
use atlas_the_agent.Core.Python.{Python}
use atlas_the_agent.Agent.Schemas.{TaskStatus}
use atlas_the_agent.Agent.Fields.{◌>>=◌}

pub record ReplayTask : Type 0 where
  pub index : ℤ
  pub description : Text
  pub status : TaskStatus
  pub output : Option Text

-- The dict of tasks, in the order of insertion.
abbrev pub Checklist : Type 0
Checklist = List ReplayTask

abbrev pub same_int : ℤ → ℤ → Bool
same_int (pos m) (pos n) = m == n
same_int (pos m) (negsuc n) = false
same_int (negsuc m) (pos n) = false
same_int (negsuc m) (negsuc n) = m == n

-- `state.tasks[task.index] = task`
unfoldable pub put_task : ReplayTask → Checklist → Checklist
put_task t [] = t ∷ []
put_task t (u ∷ us) = if same_int u.index t.index then t ∷ us else u ∷ put_task t us

-- `task = state.tasks.setdefault(index, ReplayTask(index))`, and the writes to it.
unfoldable pub mark_task : ℤ → TaskStatus → (Option Text → Option Text) → Checklist → Checklist
mark_task i s out [] = (record { index = i; description = []; status = s; output = out none }) ∷ []
mark_task i s out (u ∷ us) =
    if same_int u.index i
    then (record u { status = s; output = out u.output }) ∷ us
    else u ∷ mark_task i s out us

-- `_str_or_none(payload.get(key))`
abbrev pub str_or_none : Option Json → Option Text
str_or_none (some (str s)) = some s
str_or_none _ = none

abbrev text_or_empty : Python → Option Json → Text
text_or_empty py none = []
text_or_empty py (some (str s)) = s
text_or_empty py (some j) = py.str_of j

-- One round of `_tasks_from_plan`, and the store of what it yields; `none` where `int` raises.
unfoldable pub put_item : Python → Json → Checklist → Option Checklist
unfolding put_task
put_item py (obj item) tasks = elim (get item "index") [
  | none ↦ some tasks
  | some null ↦ some tasks
  | some j ↦ do
    i ← py.int_of j
    some (
        put_task
          (record {
            index = i;
            description = text_or_empty py (get item "description");
            status = TaskStatus.pending;
            output = none;
          })
          tasks)
]
put_item py _ tasks = some tasks

unfoldable pub put_items : Python → Items → Checklist → Option Checklist
unfolding put_item
put_items py nil tasks = some tasks
put_items py (cons j js) tasks = do tasks' ← put_item py j tasks; put_items py js tasks'

-- `payload.get("tasks", []) or []`: a dict and a string are iterated over strings, which are
-- skipped; a number that is not 0, and `True`, cannot be iterated.
unfoldable pub put_plan : Python → Option Json → Checklist → Option Checklist
unfolding put_items
put_plan py (some (arr items)) tasks = put_items py items tasks
put_plan py (some (bool true)) tasks = none
put_plan py (some (int z)) tasks = if same_int z (pos 0) then some tasks else none
put_plan py (some (float (finite z))) tasks = if same_int z (pos 0) then some tasks else none
put_plan py (some (float f)) tasks = none
put_plan py _ tasks = some tasks
