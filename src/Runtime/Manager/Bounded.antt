-- ===== src/Runtime/Manager/Bounded.antt =====
-- The work of a run is bounded by the caps of the settings.
use atlas_the_agent.Base.{ℕ, ◌≤◌, ◌+◌, ◌≡◌, Text, arith}
use atlas_the_agent.Core.Settings.{Settings}
use atlas_the_agent.Agent.Schemas.{TaskId}
use atlas_the_agent.Runtime.Budget.{
  BudgetCategory, planner, reflection, synthesis, memory, executor, RunBudget, charged,
  charge_model_call, charge_tool_call, charge_retry, charge_replan, from_settings,
}
use atlas_the_agent.Runtime.Manager.Execute.{execute}
use atlas_the_agent.Runtime.Manager.Kept.{execute-keeps}
use atlas_the_agent.Memory.{MemoryService, ServiceKeeps}
use atlas_the_agent.Process.{Env, World}
use atlas_the_agent.Process.Keeps.{IsAside, BearsSessions, BearsEvents}

-- Since the state `start`, each call that reached the provider or a tool was counted, the calls
-- counted are within the caps of the settings, and none is attributed twice.
pub record IsBounded (s : Settings) (start w : World) : Type 0 where
  pub model_called : w.model_called ≡ start.model_called + w.budget.model_calls
  pub tool_called : w.tool_called ≡ start.tool_called + w.budget.tool_calls
  pub model_cap : w.budget.max_model_calls ≡ s.agent_max_model_calls
  pub tool_cap : w.budget.max_tool_calls ≡ s.agent_max_tool_calls
  pub model_calls : w.budget.model_calls ≤ s.agent_max_model_calls
  pub tool_calls : w.budget.tool_calls ≤ s.agent_max_tool_calls
  pub attributed :
      w.budget.planner_calls + w.budget.reflection_calls + w.budget.synthesis_calls
        + w.budget.memory_calls
      ≤ w.budget.model_calls

module _ (s : Settings) (start : World) where
  model-IsBounded :
      (c : BudgetCategory) (b : RunBudget) (w : World)
      → charge_model_call c w.budget ≡ charged b
      → IsBounded s start w
      → IsBounded s start
          (record w { budget = b; clock = w.clock + 1; model_called = w.model_called + 1 })
  unfolding charge_model_call
  model-IsBounded planner b w e h = ground arith
  model-IsBounded reflection b w e h = ground arith
  model-IsBounded synthesis b w e h = ground arith
  model-IsBounded memory b w e h = ground arith
  model-IsBounded executor b w e h = ground arith

  tool-IsBounded :
      (b : RunBudget) (w : World)
      → charge_tool_call w.budget ≡ charged b
      → IsBounded s start w
      → IsBounded s start
          (record w { budget = b; clock = w.clock + 1; tool_called = w.tool_called + 1 })
  unfolding charge_tool_call
  tool-IsBounded b w e h = ground arith

  retry-IsBounded :
      (t : TaskId) (w : World)
      → IsBounded s start w
      → IsBounded s start (record w { budget = charge_retry t w.budget })
  unfolding charge_retry
  retry-IsBounded t w h = ground arith

  replan-IsBounded :
      (w : World)
      → IsBounded s start w
      → IsBounded s start (record w { budget = charge_replan w.budget })
  unfolding charge_replan
  replan-IsBounded w h = ground arith

  pub IsBounded-aside : IsAside (IsBounded s start)
  IsBounded-aside = record {
    at_emit = λ r type payload w e h. ground arith;
    at_model = model-IsBounded;
    at_tool = tool-IsBounded;
    at_retry = retry-IsBounded;
    at_replan = replan-IsBounded;
    at_tick = λ n w h. ground arith;
    at_memories = λ ms w h. ground arith;
    at_lessons = λ l w h. ground arith;
  }

  IsBounded-sessions : BearsSessions (IsBounded s start)
  IsBounded-sessions = record { at_session = λ d w e h. ground arith }

  IsBounded-events : BearsEvents (IsBounded s start)
  IsBounded-events = record { at_event = λ r type payload w h. ground arith }

opened-IsBounded :
    (s : Settings) (w : World) → IsBounded s w (record w { budget = from_settings s })
unfolding from_settings
opened-IsBounded s w = ground arith

within : (a b c d : ℕ) → a ≡ b + c → c ≤ d → a ≤ b + d
within a b c d e h = omega arith

-- However a run ends, at most `agent_max_model_calls` of its calls have reached the provider, and at
-- most `agent_max_tool_calls` have reached the tools: the budget has counted each of them, exactly
-- once, and the counts are within these caps. The calls attributed to the planner, the
-- reflector, the synthesizer and the memory are together at most the model calls. The memory service
-- is asked only to keep these bounds.
pub execute-IsBounded :
    (env : Env) (s : Settings) (m : MemoryService) (r : ℕ) (goal : Text) (w : World)
    → ServiceKeeps (IsBounded s w) m
    → let v = (execute env s m r goal w).1 in
      IsBounded s w v
      × (v.model_called ≤ w.model_called + s.agent_max_model_calls)
      × (v.tool_called ≤ w.tool_called + s.agent_max_tool_calls)
execute-IsBounded env s m r goal w service =
    let h =
      execute-keeps (IsBounded-aside s w) (IsBounded-sessions s w) (IsBounded-events s w) env s m
        service r goal w (opened-IsBounded s w) in
    (h, within _ _ _ _ h.model_called h.model_calls, within _ _ _ _ h.tool_called h.tool_calls)
