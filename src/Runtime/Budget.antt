-- ===== src/Runtime/Budget.antt =====
-- `RunBudget` of backend/atlas/runtime/budget.py. A charge returns the new budget or the exception
-- `BudgetExceeded`; the exception is raised before anything is written.
pub mod Caps
pub mod Counts
use text.Mathlib.Text.{◌==◌ as str_eq}
use atlas_the_agent.Base.{
  ℕ, ◌+◌, ◌-◌, Bool, String, Option, none, some, List, [], ◌∷◌, leb, ◌==◌, if◌then◌else◌,
}
use atlas_the_agent.Core.Settings.{Settings}
use atlas_the_agent.Agent.Schemas.{TaskId, same_id}

pub data BudgetCategory : Type 0 where
  planner reflection synthesis memory executor : BudgetCategory

pub record BudgetExceeded : Type 0 where
  pub budget : String
  pub limit : ℕ
  pub used : ℕ

-- The dict `_retries`.
abbrev pub Retries : Type 0
Retries = List (TaskId × ℕ)

-- `_retries.get(task_id, 0)`
unfoldable pub used_by : TaskId → Retries → ℕ
used_by t [] = 0
used_by t ((u, n) ∷ r) = if same_id u t then n else used_by t r

-- `_retries[task_id] = n`
unfoldable pub set_used : TaskId → ℕ → Retries → Retries
set_used t n [] = (t, n) ∷ []
set_used t n ((u, m) ∷ r) = if same_id u t then (u, n) ∷ r else (u, m) ∷ set_used t n r

pub record RunBudget : Type 0 where
  pub max_model_calls : ℕ
  pub max_tool_calls : ℕ
  pub max_retries : ℕ
  pub max_replans : ℕ
  pub model_calls : ℕ
  pub tool_calls : ℕ
  pub planner_calls : ℕ
  pub reflection_calls : ℕ
  pub synthesis_calls : ℕ
  pub memory_calls : ℕ
  pub replans_used : ℕ
  pub retries : Retries

unfoldable pub from_settings : Settings → RunBudget
from_settings s = record {
  max_model_calls = s.agent_max_model_calls;
  max_tool_calls = s.agent_max_tool_calls;
  max_retries = s.agent_max_retries;
  max_replans = s.agent_max_replans;
  model_calls = 0;
  tool_calls = 0;
  planner_calls = 0;
  reflection_calls = 0;
  synthesis_calls = 0;
  memory_calls = 0;
  replans_used = 0;
  retries = [];
}

pub data Charge : Type 0 where
  charged : RunBudget → Charge
  exceeded : BudgetExceeded → Charge

-- `_CATEGORY_FIELD` with the `setattr` that uses it: `executor` has no counter of its own.
unfoldable pub count_category : BudgetCategory → RunBudget → RunBudget
count_category planner b = record b { planner_calls = b.planner_calls + 1 }
count_category reflection b = record b { reflection_calls = b.reflection_calls + 1 }
count_category synthesis b = record b { synthesis_calls = b.synthesis_calls + 1 }
count_category memory b = record b { memory_calls = b.memory_calls + 1 }
count_category executor b = b

unfoldable pub charge_model_call : BudgetCategory → RunBudget → Charge
unfolding count_category
charge_model_call category b =
    if leb b.max_model_calls b.model_calls
    then exceeded
        (record { budget = "model_calls"; limit = b.max_model_calls; used = b.model_calls })
    else charged (count_category category (record b { model_calls = b.model_calls + 1 }))

unfoldable pub charge_tool_call : RunBudget → Charge
charge_tool_call b =
    if leb b.max_tool_calls b.tool_calls
    then exceeded (record { budget = "tool_calls"; limit = b.max_tool_calls; used = b.tool_calls })
    else charged (record b { tool_calls = b.tool_calls + 1 })

unfoldable pub charge_retry : TaskId → RunBudget → RunBudget
charge_retry t b = record b { retries = set_used t (used_by t b.retries + 1) b.retries }

unfoldable pub charge_replan : RunBudget → RunBudget
charge_replan b = record b { replans_used = b.replans_used + 1 }

-- `max(0, limit - used)` is the truncated difference.
unfoldable pub retries_left : TaskId → RunBudget → ℕ
retries_left t b = b.max_retries - used_by t b.retries

unfoldable pub replans_left : RunBudget → ℕ
replans_left b = b.max_replans - b.replans_used

-- `none` is the `ValueError` of an unknown kind.
unfoldable pub remaining : String → RunBudget → Option ℕ
remaining kind b =
    if str_eq kind "model_calls"
    then some (b.max_model_calls - b.model_calls)
    else if str_eq kind "tool_calls"
    then some (b.max_tool_calls - b.tool_calls)
    else none

unfoldable pub would_exceed : String → RunBudget → Option Bool
unfolding remaining
would_exceed kind b = elim (remaining kind b) [ none ↦ none | some n ↦ some (n == 0) ]

-- A field of `BudgetSnapshot` for each of the counters and the caps.
pub record BudgetSnapshot : Type 0 where
  pub model_calls : ℕ
  pub tool_calls : ℕ
  pub planner_calls : ℕ
  pub reflection_calls : ℕ
  pub synthesis_calls : ℕ
  pub memory_calls : ℕ
  pub replans_used : ℕ
  pub retries_used : Retries
  pub max_model_calls : ℕ
  pub max_tool_calls : ℕ
  pub max_retries : ℕ
  pub max_replans : ℕ

unfoldable pub snapshot : RunBudget → BudgetSnapshot
snapshot b = record {
  model_calls = b.model_calls;
  tool_calls = b.tool_calls;
  planner_calls = b.planner_calls;
  reflection_calls = b.reflection_calls;
  synthesis_calls = b.synthesis_calls;
  memory_calls = b.memory_calls;
  replans_used = b.replans_used;
  retries_used = b.retries;
  max_model_calls = b.max_model_calls;
  max_tool_calls = b.max_tool_calls;
  max_retries = b.max_retries;
  max_replans = b.max_replans;
}
