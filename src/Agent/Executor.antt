-- ===== src/Agent/Executor.antt =====
-- backend/atlas/agent/executor.py

pub mod Rounds
use atlas_the_agent.Base.{
  on_option, ℕ, zero, suc, Option, none, some, List, [], ◌∷◌, ◌++◌, Text, codes, strip, is_empty,
  if◌then◌else◌,
}
use atlas_the_agent.Core.Json.{bool, str, str_or_null, obj, nat, Fields, end, field}
use atlas_the_agent.Core.Python.{Python}
use atlas_the_agent.Core.Settings.{Settings}
use atlas_the_agent.Events.Types.{thought, tool_call, tool_result}
use atlas_the_agent.Agent.Schemas.{TaskId}
use atlas_the_agent.Agent.Prompts.{text, observation_message}
use atlas_the_agent.Agent.Envelope.{AgentAction, is_finish, parse_action}
use atlas_the_agent.Agent.Turns.{repaired, on_parsed}
use atlas_the_agent.Runtime.Budget.{executor}
use atlas_the_agent.Tools.Registry.{as_observation}
use atlas_the_agent.Llm.{LlmMessage, user, assistant}
use atlas_the_agent.Process.{
  run_cancelled, executor_error, Env, Action, Done, pure, raise, ◌>>=◌, ◌>>◌, is_set, emit,
  complete_as, execute_tool,
}

-- `f"{run_id}:{index}"` as a JSON value
abbrev pub id_text : Python → TaskId → Text
id_text py t = py.hex t.run ++ (codes ":" ++ py.show t.index)

-- `x or ""`
abbrev pub or_empty : Option Text → Text
or_empty none = []
or_empty (some s) = s

-- Whose events these are: the run, and the task, attempt and generation of a task-scoped run.
pub record Tag : Type 0 where
  pub run_id : ℕ
  pub task_id : Option TaskId
  pub attempt : ℕ
  pub generation : ℕ

abbrev append_fields : Fields → Fields → Fields
append_fields end gs = gs
append_fields (field k v fs) gs = field k v (append_fields fs gs)

-- `_tag`
unfoldable pub tagged : Python → Tag → Fields → Fields
tagged py tag payload = elim tag.task_id [
  | none ↦ payload
  | some t ↦ append_fields payload (
      field "task_id" (str (id_text py t))
        (field "attempt" (nat tag.attempt) (field "generation" (nat tag.generation) end)))
]

abbrev pub or_first : Option Text → Text → Text
or_first none raw = raw
or_first (some first) raw = first

-- The messages behind a turn that called a tool.
abbrev pub with_observation : List LlmMessage → AgentAction → Text → Text → List LlmMessage
with_observation messages a raw observation =
    messages
    ++ ((record { role = assistant; content = text raw })
        ∷ (record { role = user; content = observation_message (or_empty a.tool) observation })
        ∷ [])

module _ (env : Env) (settings : Settings) where
  -- `_decide`, with the repairs that are left and the first response, once there is one.
  unfoldable pub decide_action :
      ℕ → Option Text → List LlmMessage → Action (Option AgentAction × Text)
  decide_action zero first turn = do
    raw ← complete_as env executor turn
    on_parsed (λ a. pure (some a, raw)) (λ error. pure (none, or_first first raw))
        (parse_action env.py raw)
  decide_action (suc left) first turn = do
    raw ← complete_as env executor turn
    on_parsed (λ a. pure (some a, raw))
        (λ error. decide_action left (some (or_first first raw)) (repaired turn raw error))
        (parse_action env.py raw)

  module _ (tag : Tag) where
    unfoldable pub emit_thought : Text → Action Done
    unfolding tagged
    emit_thought said =
        if is_empty said
        then pure tt
        else emit tag.run_id thought (tagged env.py tag (field "text" (str said) end))

    unfoldable pub invoke_tool : AgentAction → Action Text
    unfolding tagged
    invoke_tool a = do
      emit tag.run_id tool_call (
          tagged env.py tag
            (field "tool" (str_or_null a.tool) (field "arguments" (obj a.arguments) end)))
      result ← execute_tool env (or_empty a.tool) a.arguments
      emit tag.run_id tool_result (
          tagged env.py tag (
            field "tool" (str_or_null a.tool) (
              field "ok" (bool result.ok) (field "observation" (str (as_observation result)) end))))
      pure (as_observation result)

    -- The loop of `run`, with the iterations that are left.
    unfoldable pub iterate : ℕ → List LlmMessage → Action Text
    unfolding decide_action emit_thought invoke_tool
    iterate zero messages = raise (
        executor_error (
          codes "Agent did not finish within "
          ++ (env.py.show settings.agent_max_iterations ++ codes " iterations.")))
    iterate (suc left) messages = do
      stop ← is_set env
      if stop then raise run_cancelled else (do
        decision ← decide_action settings.agent_repair_attempts none messages
        on_option (do emit_thought (codes "(answering directly)"); pure (strip decision.1))
            (λ a. do
              emit_thought a.thought
              if is_finish a then pure (or_empty a.answer) else (do
                observation ← invoke_tool a
                iterate left (with_observation messages a decision.1 observation)))
            decision.0)

    -- `Executor.run`
    unfoldable pub run : List LlmMessage → Action Text
    unfolding iterate
    run = iterate settings.agent_max_iterations
