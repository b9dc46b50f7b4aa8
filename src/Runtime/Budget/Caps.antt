-- ===== src/Runtime/Budget/Caps.antt =====
-- The hard caps of a budget, and when a charge is refused.
use atlas_the_agent.Base.{ℕ, suc, ◌+◌, ◌-◌, ◌≡◌, ◌↔◌, true, some, List, [], ◌∷◌, length, min, arith}
use atlas_the_agent.Runtime.Budget.{
  BudgetCategory, planner, reflection, synthesis, memory, executor, BudgetExceeded, RunBudget,
  charged, exceeded, charge_model_call, charge_tool_call, would_exceed,
}

-- A run of model calls, stopped by the first refusal: how many were made.
pub calls_made : List BudgetCategory → RunBudget → ℕ
calls_made [] b = 0
calls_made (c ∷ cs) b = elim (charge_model_call c b) [
  | charged b' ↦ suc (calls_made cs b')
  | exceeded e ↦ 0
]

-- However the calls are divided among the categories, exactly as many are made as the cap leaves
-- room for, and the rest are refused.
pub calls_made-eq-min :
    (cs : List BudgetCategory) (b : RunBudget)
    → calls_made cs b ≡ min (length cs) (b.max_model_calls - b.model_calls)
unfolding calls_made charge_model_call
calls_made-eq-min [] b = omega arith
calls_made-eq-min (planner ∷ cs) b = ground (
  arith,
  calls_made-eq-min cs
      (record b { model_calls = b.model_calls + 1; planner_calls = b.planner_calls + 1 }),
)
calls_made-eq-min (reflection ∷ cs) b = ground (
  arith,
  calls_made-eq-min cs
      (record b { model_calls = b.model_calls + 1; reflection_calls = b.reflection_calls + 1 }),
)
calls_made-eq-min (synthesis ∷ cs) b = ground (
  arith,
  calls_made-eq-min cs
      (record b { model_calls = b.model_calls + 1; synthesis_calls = b.synthesis_calls + 1 }),
)
calls_made-eq-min (memory ∷ cs) b = ground (
  arith,
  calls_made-eq-min cs
      (record b { model_calls = b.model_calls + 1; memory_calls = b.memory_calls + 1 }),
)
calls_made-eq-min (executor ∷ cs) b =
    ground (arith, calls_made-eq-min cs (record b { model_calls = b.model_calls + 1 }))

-- `would_exceed` predicts the charge: it says `true` exactly where the next model call of any
-- category, or the next tool call, raises.
pub would_exceed_iff :
    (c : BudgetCategory) (b : RunBudget)
    → ((would_exceed "model_calls" b ≡ some true)
        ↔ ((e : BudgetExceeded) × (charge_model_call c b ≡ exceeded e)))
      × ((would_exceed "tool_calls" b ≡ some true)
          ↔ ((e : BudgetExceeded) × (charge_tool_call b ≡ exceeded e)))
unfolding would_exceed charge_model_call charge_tool_call
would_exceed_iff c b = (
  (
    λ h. (
      record { budget = "model_calls"; limit = b.max_model_calls; used = b.model_calls },
      ground arith,
    ),
    λ h. ground arith,
  ),
  (
    λ h. (
      record { budget = "tool_calls"; limit = b.max_tool_calls; used = b.tool_calls },
      ground arith,
    ),
    λ h. ground arith,
  ),
)
