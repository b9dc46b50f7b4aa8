-- ===== src/Agent/Planner/Plan.antt =====
-- `_parse_plan` of backend/atlas/agent/planner.py: the model `Plan` of schemas.py read from a reply.
use atlas_the_agent.Base.{Option, none, some, List, [], ◌∷◌, ◌++◌, Text, codes}
use atlas_the_agent.Core.Json.{Json, obj, Items, nil, cons, Fields}
use atlas_the_agent.Core.Python.{Python}
use atlas_the_agent.Agent.Schemas.{PlannedTask}
use atlas_the_agent.Agent.Jsonio.{Parsed, parsed, rejected, uncaught, load_object}
use atlas_the_agent.Agent.Fields.{str_field, opt_str_field, list_field, ◌>>=◌}

unfoldable pub validate_task : Json → Option PlannedTask
validate_task (obj fs) = do
  d ← str_field "description" fs
  c ← str_field "success_criteria" fs
  t ← opt_str_field "suggested_tool" fs
  some (record { description = d; success_criteria = c; suggested_tool = t })
validate_task _ = none

unfoldable pub validate_tasks : Items → Option (List PlannedTask)
unfolding validate_task
validate_tasks nil = some []
validate_tasks (cons j js) = do t ← validate_task j; ts ← validate_tasks js; some (t ∷ ts)

-- `Plan.model_validate(data)`
unfoldable pub validate_plan : Python → Fields → Parsed (List PlannedTask)
unfolding validate_tasks
validate_plan py fs = elim (list_field "tasks" fs >>= validate_tasks) [
  | some tasks ↦ parsed tasks
  | none ↦ rejected (codes "Invalid plan shape — " ++ (py.invalid_shape "Plan" fs ++ codes "."))
]

unfoldable pub parse_plan : Python → Text → Parsed (List PlannedTask)
unfolding validate_plan load_object
parse_plan py raw =
    elim (load_object py (codes "Top-level JSON value must be an object with a 'tasks' list.")
      raw) [
        | parsed fs ↦ validate_plan py fs
        | rejected error ↦ rejected error
        | uncaught e ↦ uncaught e
      ]
