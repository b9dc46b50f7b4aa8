-- ===== src/Process/Effects.antt =====
-- `EventEmitter.emit` (backend/atlas/events/emit.py), the cancellation flag, and the wrappers
-- `BudgetedGateway` and `BudgetedToolRegistry` (backend/atlas/runtime/budget.py).
use atlas_the_agent.Base.{ℕ, ◌+◌, Bool, List, Text}
use atlas_the_agent.Core.Json.{Fields}
use atlas_the_agent.Events.Types.{EventType, Event}
use atlas_the_agent.Persistence.Tables.{Database}
use atlas_the_agent.Persistence.Ledger.{next_seq, append}
use atlas_the_agent.Runtime.Budget.{
  BudgetCategory, RunBudget, Charge, charged, exceeded, charge_model_call, charge_tool_call,
}
use atlas_the_agent.Tools.Registry.{ToolResult, execute}
use atlas_the_agent.Llm.{LlmMessage, text, Reply}
use atlas_the_agent.Process.Monad.{
  budget_exceeded, llm_error, Env, ok, err, Action, Done, pure, raise, ◌>>=◌, ◌>>◌, session_value,
}

-- The locked section of `emit`: the sequence number and the row.
unfoldable pub emit_to : ℕ → EventType → Fields → Database → Event × Database
unfolding next_seq append
emit_to run_id type payload db = append run_id (next_seq run_id db) type payload db

unfoldable pub emit : ℕ → EventType → Fields → Action Done
emit run_id type payload = session_value (emit_to run_id type payload) >> pure tt

-- Time passes at each call that leaves the process.
unfoldable pub tick : Action ℕ
tick w = (ok w.clock, record w { clock = w.clock + 1 })

-- A call reaches the provider, or a tool.
unfoldable pub call_model : Action ℕ
call_model w = (ok w.clock, record w { clock = w.clock + 1; model_called = w.model_called + 1 })

unfoldable pub call_tool : Action ℕ
call_tool w = (ok w.clock, record w { clock = w.clock + 1; tool_called = w.tool_called + 1 })

-- `self._budget.charge_model_call(...)` and `self._budget.charge_tool_call()` on the run's budget.
abbrev pub settle : Charge → Action Done
settle (charged b) w = (ok tt, record w { budget = b })
settle (exceeded e) w = (err (budget_exceeded e), w)

abbrev pub charging : (RunBudget → Charge) → Action Done
charging f w = settle (f w.budget) w

-- How a call of the provider ends.
abbrev pub reply_of : Reply → Action Text
reply_of (text s) = pure s
reply_of (Reply.llm_error e) = raise (llm_error e)

module _ (env : Env) where
  -- `cancel.is_set()`
  unfoldable pub is_set : Action Bool
  unfolding tick
  is_set = do now ← tick; pure (env.is_cancelled now)

  -- `BudgetedGateway.complete`: charge, then delegate.
  unfoldable pub complete_as : BudgetCategory → List LlmMessage → Action Text
  unfolding call_model
  complete_as category messages = do
    charging (charge_model_call category)
    now ← call_model
    reply_of (env.complete now messages)

  -- `BudgetedToolRegistry.execute`: the charge stands outside the trap of the inner registry.
  unfoldable pub execute_tool : Text → Fields → Action ToolResult
  unfolding call_tool
  execute_tool name arguments = do
    charging charge_tool_call
    now ← call_tool
    pure (execute env.py env.tool_timeout env.tools now name arguments)
