-- ===== src/Agent/Synthesizer.antt =====
-- backend/atlas/agent/synthesizer.py
use atlas_the_agent.Base.{List, [], ◌∷◌, Text, strip, if◌then◌else◌}
use atlas_the_agent.Core.Settings.{Settings}
use atlas_the_agent.Agent.Schemas.{PriorTaskOutput}
use atlas_the_agent.Agent.Prompts.{synthesis_prompt, synthesis_input}
use atlas_the_agent.Runtime.Budget.{synthesis}
use atlas_the_agent.Llm.{system, user}
use atlas_the_agent.Process.{Env, Action, pure, ◌>>=◌, complete_as}

module _ (env : Env) (settings : Settings) where
  unfoldable pub compose : Text → List PriorTaskOutput → Action Text
  compose goal outputs = do
    raw ← complete_as env synthesis (
        (record { role = system; content = synthesis_prompt })
        ∷ (record { role = user; content = synthesis_input goal outputs })
        ∷ [])
    pure (strip raw)

  -- `Synthesizer.answer`
  unfoldable pub answer : Text → List PriorTaskOutput → Action Text
  unfolding compose
  answer goal [] = pure []
  answer goal (o ∷ []) =
      if settings.agent_force_synthesis then compose goal (o ∷ []) else pure o.output
  answer goal (o ∷ p ∷ os) = compose goal (o ∷ p ∷ os)
