-- ===== src/Tools/Registry.antt =====
-- `ToolResult` of backend/atlas/tools/base.py and `ToolRegistry` of backend/atlas/tools/registry.py.
-- A tool is given by its name, its argument schema and what a run of it does at a given moment.
use atlas_the_agent.Base.{
  ℕ, Bool, true, false, Option, none, some, List, [], ◌∷◌, ◌++◌, map, any, Text, codes, eqb,
  is_empty, if◌then◌else◌,
}
use atlas_the_agent.Core.Json.{Fields}
use atlas_the_agent.Core.Python.{Python}

pub record ToolResult : Type 0 where
  pub ok : Bool
  pub output : Text
  pub error : Option Text

unfoldable pub success : Text → ToolResult
success output = record { ok = true; output = output; error = none }

unfoldable pub failure : Text → ToolResult
failure error = record { ok = false; output = []; error = some error }

-- `f"ERROR: {self.error}"` shows a missing error as `None`.
unfoldable pub as_observation : ToolResult → Text
as_observation r =
    if r.ok
    then r.output
    else codes "ERROR: " ++ (elim r.error [ none ↦ codes "None" | some e ↦ e ])

-- How `asyncio.wait_for(tool.run(args), …)` ends.
pub data Outcome : Type 0 where
  returned : ToolResult → Outcome
  timed_out : Outcome
  tool_error : Text → Outcome
  crashed : Text → Outcome

pub record Tool : Type 0 where
  pub name : Text
  -- `Args.model_validate`: `none` if the arguments fit, else `_summarize` of the errors
  pub invalid : Fields → Option Text
  pub run : ℕ → Fields → Outcome

-- The registry's dict, in the order of registration.
abbrev pub Registry : Type 0
Registry = List Tool

unfoldable pub find_tool : Registry → Text → Option Tool
find_tool [] name = none
find_tool (t ∷ ts) name = if eqb t.name name then some t else find_tool ts name

unfoldable pub names : Registry → List Text
names ts = map (λ t. t.name) ts

-- `none` is the `ValueError` of a name that is taken.
unfoldable pub register : Tool → Registry → Option Registry
unfolding names
register t ts = if any (λ n. eqb n t.name) (names ts) then none else some (ts ++ t ∷ [])

-- `", ".join(names)`
unfoldable pub join : Text → List Text → Text
join sep [] = []
join sep (x ∷ []) = x
join sep (x ∷ y ∷ ys) = x ++ (sep ++ join sep (y ∷ ys))

unfoldable pub execute : Python → Text → Registry → ℕ → Text → Fields → ToolResult
unfolding find_tool names join failure
execute py timeout ts now name arguments = elim (find_tool ts name) [
  | none ↦
      let listed = join (codes ", ") (names ts) in
      failure (
        codes "Unknown tool "
        ++ (py.repr name
            ++ (codes ". Available tools: "
                ++ ((if is_empty listed then codes "(none)" else listed) ++ codes "."))))
  | some t ↦ elim (t.invalid arguments) [
    | some summary ↦
        failure (codes "Invalid arguments for " ++ (py.repr name ++ (codes ": " ++ summary)))
    | none ↦ elim (t.run now arguments) [
      | returned r ↦ r
      | timed_out ↦ failure (
          codes "Tool " ++ (py.repr name ++ (codes " timed out after " ++ (timeout ++ codes "s."))))
      | tool_error e ↦ failure e
      | crashed e ↦
          failure (codes "Tool " ++ (py.repr name ++ (codes " failed unexpectedly: " ++ e)))
    ]
  ]
]
