-- ===== src/Agent/Reflector.antt =====
-- backend/atlas/agent/reflector.py
pub mod Verdict
pub mod Gate
use atlas_the_agent.Base.{
  on_option, ℕ, zero, suc, ◌+◌, Bool, true, false, ◌&&◌, ◌||◌, Option, none, some, List, [], ◌∷◌,
  Text, codes, strip, starts_with, is_empty, if◌then◌else◌,
}
use atlas_the_agent.Core.Json.{Float, finite, pos, ltb_float}
use atlas_the_agent.Core.Settings.{Settings}
use atlas_the_agent.Agent.Schemas.{
  TaskView, ReflectionDecision, accept, retry, replan, precheck, degraded, ReflectionResult,
}
use atlas_the_agent.Agent.Prompts.{reflection_prompt, reflection_input, reflection_prompt_version}
use atlas_the_agent.Agent.Jsonio.{parsed, rejected, uncaught}
use atlas_the_agent.Agent.Turns.{repaired, on_parsed}
use atlas_the_agent.Agent.Reflector.Verdict.{parse_reflection, nine_tenths, zero_float}
use atlas_the_agent.Runtime.Budget.{reflection}
use atlas_the_agent.Llm.{LlmMessage, system, user}
use atlas_the_agent.Process.{
  Exc, llm_error, unexpected, Env, Action, pure, raise, ◌>>=◌, catch, complete_as,
}

-- `_precheck`
unfoldable pub precheck_output : Text → Option ReflectionResult
precheck_output output =
    let stripped = strip output in
    if is_empty stripped || starts_with stripped (codes "ERROR:")
    then some (record {
      decision = retry;
      reason = codes "empty or error output; retry";
      confidence = nine_tenths;
      source = precheck;
      reflection_version = reflection_prompt_version;
    })
    else none

-- `_degraded`
unfoldable pub degraded_verdict : Text → ReflectionResult
degraded_verdict reason = record {
  decision = accept;
  reason = reason;
  confidence = zero_float;
  source = degraded;
  reflection_version = reflection_prompt_version;
}

-- `decision in _DEGRADABLE`
abbrev pub is_degradable : ReflectionDecision → Bool
is_degradable retry = true
is_degradable replan = true
is_degradable _ = false

-- `_apply_confidence_gate`
unfoldable pub apply_confidence_gate : Float → ReflectionResult → ReflectionResult
apply_confidence_gate floor r =
    if ltb_float zero_float floor && (is_degradable r.decision && ltb_float r.confidence floor)
    then record r { decision = accept; reason = codes "low confidence; accepting to avoid churn" }
    else r

module _ (env : Env) (settings : Settings) where
  -- `_llm_verdict`, with the repairs that are left: `none` if no reply could be parsed.
  unfoldable pub llm_verdict : ℕ → List LlmMessage → Action (Option ReflectionResult)
  llm_verdict zero turn = do
    raw ← complete_as env reflection turn
    on_parsed (λ r. pure (some r)) (λ error. pure none) (parse_reflection env.py raw)
  llm_verdict (suc left) turn = do
    raw ← complete_as env reflection turn
    on_parsed (λ r. pure (some r)) (λ error. llm_verdict left (repaired turn raw error))
        (parse_reflection env.py raw)

  -- What follows the model's verdict, if there is one.
  abbrev pub gate : Option ReflectionResult → ReflectionResult
  gate none = degraded_verdict (codes "reflection unparseable; accepting (bias)")
  gate (some r) = apply_confidence_gate settings.agent_reflection_min_confidence r

  abbrev pub accept_without_model : Exc → Action ReflectionResult
  accept_without_model (llm_error e) =
      pure (degraded_verdict (codes "reflection unavailable; accepting (bias)"))
  accept_without_model e = raise e

  abbrev pub ask_model : Text → TaskView → Text → ℕ → List Text → Action ReflectionResult
  ask_model goal task output attempt previous_reasons =
      catch
        (do
          verdict ← llm_verdict settings.agent_repair_attempts (
              (record { role = system; content = reflection_prompt })
              ∷ (record {
                role = user;
                content =
                    reflection_input goal task output attempt previous_reasons
                      settings.context_prior_output_chars;
              })
              ∷ [])
          pure (gate verdict))
        accept_without_model

  unfoldable pub reflect : Text → TaskView → Text → ℕ → List Text → Action ReflectionResult
  unfolding llm_verdict
  reflect goal task output attempt previous_reasons =
      on_option (ask_model goal task output attempt previous_reasons) pure (precheck_output output)
