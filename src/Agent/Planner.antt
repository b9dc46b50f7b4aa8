-- ===== src/Agent/Planner.antt =====
-- backend/atlas/agent/planner.py
pub mod Plan
pub mod Normalize
use atlas_the_agent.Base.{ℕ, zero, suc, ◌+◌, Option, none, some, List, [], ◌∷◌, ◌++◌, Text, codes}
use atlas_the_agent.Core.Settings.{Settings}
use atlas_the_agent.Agent.Schemas.{PlannedTask, PriorTaskOutput}
use atlas_the_agent.Agent.Prompts.{
  text, planner_prompt, replan_prompt, replan_input, repair_instruction,
}
use atlas_the_agent.Agent.Jsonio.{Parsed, parsed, rejected, uncaught}
use atlas_the_agent.Agent.Turns.{repaired, on_parsed}
use atlas_the_agent.Agent.Planner.Plan.{parse_plan}
use atlas_the_agent.Agent.Planner.Normalize.{normalize}
use atlas_the_agent.Runtime.Budget.{planner}
use atlas_the_agent.Tools.Registry.{names}
use atlas_the_agent.Llm.{LlmMessage, system, user, assistant}
use atlas_the_agent.Process.{
  planner_error, unexpected, Env, Action, pure, raise, ◌>>=◌, complete_as,
}

module _ (env : Env) (settings : Settings) where
  -- `_decide`, with the repairs that are left.
  unfoldable pub decide_plan : ℕ → List LlmMessage → Action (List PlannedTask)
  decide_plan zero turn = do
    raw ← complete_as env planner turn
    on_parsed pure (λ error. raise (planner_error (codes "Invalid plan after repair — " ++ error)))
        (parse_plan env.py raw)
  decide_plan (suc left) turn = do
    raw ← complete_as env planner turn
    on_parsed pure (λ error. decide_plan left (repaired turn raw error)) (parse_plan env.py raw)

  unfoldable pub plan : Text → Option Text → Action (List PlannedTask)
  unfolding decide_plan
  plan goal lessons = do
    tasks ← decide_plan settings.agent_repair_attempts (
        (record {
          role = system;
          content = planner_prompt (names env.tools) settings.agent_max_tasks lessons;
        })
        ∷ (record { role = user; content = text (codes "Goal: " ++ goal) })
        ∷ [])
    pure (normalize (names env.tools) settings.agent_max_tasks goal tasks)

  -- `Planner.replan`
  unfoldable pub plan_again :
      Text → List PriorTaskOutput → Text → Option Text → Action (List PlannedTask)
  unfolding decide_plan
  plan_again goal completed reason lessons = do
    tasks ← decide_plan settings.agent_repair_attempts (
        (record {
          role = system;
          content = replan_prompt (names env.tools) settings.agent_max_tasks lessons;
        })
        ∷ (record {
          role = user;
          content = replan_input goal completed reason settings.context_prior_output_chars;
        })
        ∷ [])
    pure (normalize (names env.tools) settings.agent_max_tasks goal tasks)
