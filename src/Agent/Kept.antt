-- ===== src/Agent/Kept.antt =====
-- Every component of the agent keeps every stable invariant of the process.
use atlas_the_agent.Base.{ℕ, zero, suc, Option, none, some, List, [], ◌∷◌, Text, on_option}
use atlas_the_agent.Core.Settings.{Settings}
use atlas_the_agent.Agent.Schemas.{TaskView, PriorTaskOutput}
use atlas_the_agent.Agent.Jsonio.{Parsed, parsed, rejected, uncaught}
use atlas_the_agent.Agent.Turns.{on_parsed}
use atlas_the_agent.Agent.Envelope.{AgentAction}
use atlas_the_agent.Agent.Planner.{decide_plan, plan, plan_again}
use atlas_the_agent.Agent.Reflector.{llm_verdict, reflect, accept_without_model}
use atlas_the_agent.Agent.Executor
use atlas_the_agent.Agent.Executor.{Tag, decide_action, emit_thought, invoke_tool, iterate}
use atlas_the_agent.Agent.Synthesizer.{answer}
use atlas_the_agent.Llm.{LlmMessage}
use atlas_the_agent.Process.{Exc, World, Env, Action}
use atlas_the_agent.Process.Keeps.{
  Keeps, IsAside, Keeps-pure, Keeps-raise, Keeps-bind, Keeps-complete_as, keeps_rules,
}

module _ {A B : Type 0} {P : World → Type 0} where
  pub Keeps-on_parsed :
      (good : A → Action B) (bad : Text → Action B) (x : Parsed A)
      → ((a : A) → Keeps P (good a))
      → ((e : Text) → Keeps P (bad e))
      → Keeps P (on_parsed good bad x)
  Keeps-on_parsed good bad (parsed a) kg kb = kg a
  Keeps-on_parsed good bad (rejected e) kg kb = kb e
  Keeps-on_parsed good bad (uncaught e) kg kb = Keeps-raise _

  pub Keeps-on_option :
      (n : Action B) (s : A → Action B) (o : Option A)
      → Keeps P n
      → ((a : A) → Keeps P (s a))
      → Keeps P (on_option n s o)
  Keeps-on_option n s none kn ks = kn
  Keeps-on_option n s (some a) kn ks = ks a

pub ruleset branch_rules = (keeps_rules, Keeps-on_parsed, Keeps-on_option)

module _ {P : World → Type 0} (aside : IsAside P) (env : Env) (settings : Settings) where
  Keeps-decide_plan :
      (left : ℕ) (turn : List LlmMessage) → Keeps P (decide_plan env settings left turn)
  unfolding decide_plan
  Keeps-decide_plan zero turn = search branch_rules
  Keeps-decide_plan (suc left) turn = search (branch_rules, Keeps-decide_plan left)

  pub Keeps-plan : (goal : Text) (lessons : Option Text) → Keeps P (plan env settings goal lessons)
  unfolding plan
  Keeps-plan goal lessons = search (branch_rules, Keeps-decide_plan)

  pub Keeps-plan_again :
      (goal : Text) (outputs : List PriorTaskOutput) (reason : Text) (lessons : Option Text)
      → Keeps P (plan_again env settings goal outputs reason lessons)
  unfolding plan_again
  Keeps-plan_again goal outputs reason lessons = search (branch_rules, Keeps-decide_plan)

  Keeps-llm_verdict :
      (left : ℕ) (turn : List LlmMessage) → Keeps P (llm_verdict env settings left turn)
  unfolding llm_verdict
  Keeps-llm_verdict zero turn = search branch_rules
  Keeps-llm_verdict (suc left) turn = search (branch_rules, Keeps-llm_verdict left)

  Keeps-accept_without_model : (e : Exc) → Keeps P (accept_without_model env settings e)
  Keeps-accept_without_model (Exc.llm_error e) = Keeps-pure _
  Keeps-accept_without_model _ = Keeps-raise _

  pub Keeps-reflect :
      (goal : Text) (t : TaskView) (output : Text) (attempt : ℕ) (reasons : List Text)
      → Keeps P (reflect env settings goal t output attempt reasons)
  unfolding reflect
  Keeps-reflect goal t output attempt reasons =
      search (branch_rules, Keeps-llm_verdict, Keeps-accept_without_model)

  pub Keeps-answer :
      (goal : Text) (outputs : List PriorTaskOutput) → Keeps P (answer env settings goal outputs)
  unfolding answer
  Keeps-answer goal [] = search branch_rules
  Keeps-answer goal (o ∷ []) = search branch_rules
  Keeps-answer goal (o ∷ p ∷ os) = search branch_rules

  Keeps-decide_action :
      (left : ℕ) (first : Option Text) (turn : List LlmMessage)
      → Keeps P (decide_action env settings left first turn)
  unfolding decide_action
  Keeps-decide_action zero first turn = search branch_rules
  Keeps-decide_action (suc left) first turn = search (branch_rules, Keeps-decide_action left)

  module _ (tag : Tag) where
    Keeps-emit_thought : (said : Text) → Keeps P (emit_thought env settings tag said)
    unfolding emit_thought
    Keeps-emit_thought said = search branch_rules

    Keeps-invoke_tool : (a : AgentAction) → Keeps P (invoke_tool env settings tag a)
    unfolding invoke_tool
    Keeps-invoke_tool a = search branch_rules depth 8

    Keeps-iterate :
        (left : ℕ) (messages : List LlmMessage) → Keeps P (iterate env settings tag left messages)
    unfolding iterate
    Keeps-iterate zero messages = search branch_rules
    Keeps-iterate (suc left) messages =
        search
          (
            branch_rules,
            Keeps-decide_action,
            Keeps-emit_thought,
            Keeps-invoke_tool,
            Keeps-iterate left,
          )
          depth 9

    pub Keeps-run : (messages : List LlmMessage) → Keeps P (Executor.run env settings tag messages)
    unfolding Executor.run
    Keeps-run messages = Keeps-iterate settings.agent_max_iterations messages
