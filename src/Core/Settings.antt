-- ===== src/Core/Settings.antt =====
-- The fields of `Settings` that the runtime branches on (backend/atlas/core/config.py).
use atlas_the_agent.Base.{ℕ, Bool, List, String}
use atlas_the_agent.Core.Json.{Float}

pub record Settings : Type 0 where
  pub agent_max_iterations : ℕ
  pub agent_repair_attempts : ℕ
  pub agent_max_tasks : ℕ
  pub context_prior_output_chars : ℕ
  pub agent_force_synthesis : Bool
  pub agent_enable_reflection : Bool
  pub agent_max_retries : ℕ
  pub agent_max_replans : ℕ
  pub agent_max_model_calls : ℕ
  pub agent_max_tool_calls : ℕ
  pub agent_reflection_min_confidence : Float
  pub memory_enabled : Bool
  pub memory_recall_k : ℕ
  pub memory_recall_char_budget : ℕ
  pub memory_recall_min_score : Float
  pub memory_max_records : ℕ
  pub memory_expiry_days : ℕ
  pub memory_distill_with_llm : Bool
  pub memory_min_tasks : ℕ
  pub memory_write_outcomes : List String
