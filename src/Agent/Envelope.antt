-- ===== src/Agent/Envelope.antt =====
-- backend/atlas/agent/envelope.py
use atlas_the_agent.Base.{
  Bool, true, false, Option, none, some, ◌++◌, Text, codes, eqb, is_empty, if◌then◌else◌,
}
use atlas_the_agent.Core.Json.{str, Fields, get}
use atlas_the_agent.Core.Python.{Python}
use atlas_the_agent.Agent.Jsonio.{Parsed, parsed, rejected, uncaught, load_object}
use atlas_the_agent.Agent.Fields.{str_field, opt_str_field, dict_field, ◌>>=◌}

pub data ActionType : Type 0 where
  tool_call finish : ActionType

pub record AgentAction : Type 0 where
  pub thought : Text
  pub action : ActionType
  pub tool : Option Text
  pub arguments : Fields
  pub answer : Option Text

-- `Literal["tool_call", "finish"]`, a required field
abbrev action_field : Fields → Option ActionType
action_field fs = elim (get fs "action") [
  | some (str s) ↦
      if eqb s (codes "tool_call")
      then some tool_call
      else if eqb s (codes "finish")
      then some finish
      else none
  | _ ↦ none
]

-- `not self.tool`
abbrev is_blank : Option Text → Bool
is_blank none = true
is_blank (some s) = is_empty s

abbrev is_none : Option Text → Bool
is_none none = true
is_none (some s) = false

-- `_check_shape`
abbrev has_shape : AgentAction → Bool
has_shape a = elim a.action [
  | tool_call ↦ if is_blank a.tool then false else true
  | finish ↦ if is_none a.answer then false else true
]

-- `AgentAction.model_validate(data)`
unfoldable pub validate_action : Fields → Option AgentAction
validate_action fs = do
  thought ← str_field "thought" fs
  action ← action_field fs
  tool ← opt_str_field "tool" fs
  arguments ← dict_field "arguments" fs
  answer ← opt_str_field "answer" fs
  let a : AgentAction = record {
    thought = thought;
    action = action;
    tool = tool;
    arguments = arguments;
    answer = answer;
  }
  if has_shape a then some a else none

unfoldable pub is_finish : AgentAction → Bool
is_finish a = elim a.action [ tool_call ↦ false | finish ↦ true ]

unfoldable pub parse_action : Python → Text → Parsed AgentAction
unfolding validate_action load_object
parse_action py raw = elim (load_object py (codes "Top-level JSON value must be an object.") raw) [
  | rejected error ↦ rejected error
  | uncaught e ↦ uncaught e
  | parsed fs ↦ elim (validate_action fs) [
    | some a ↦ parsed a
    | none ↦
        rejected
          (codes "Invalid action shape — " ++ (py.invalid_shape "AgentAction" fs ++ codes "."))
  ]
]
