-- ===== src/Agent/Raises.antt =====
-- What the components of the agent raise, while they keep every aside invariant of the process.
use atlas_the_agent.Base.{ℕ, zero, suc, Option, none, some, List, [], ◌∷◌, Text, on_option}
use atlas_the_agent.Core.Settings.{Settings}
use atlas_the_agent.Agent.Schemas.{TaskView, PriorTaskOutput}
use atlas_the_agent.Agent.Jsonio.{Parsed, parsed, rejected, uncaught}
use atlas_the_agent.Agent.Turns.{on_parsed}
use atlas_the_agent.Agent.Envelope.{AgentAction}
use atlas_the_agent.Agent.Planner.{decide_plan, plan, plan_again}
use atlas_the_agent.Agent.Reflector.{llm_verdict, reflect, accept_without_model}
use atlas_the_agent.Agent.Executor
use atlas_the_agent.Agent.Executor.{Tag, decide_action, emit_thought, invoke_tool, iterate}
use atlas_the_agent.Agent.Synthesizer.{answer}
use atlas_the_agent.Runtime.Budget.{BudgetExceeded}
use atlas_the_agent.Llm.{LlmMessage}
use atlas_the_agent.Process.{
  Exc, cancelled, replan, run_cancelled, budget_exceeded, planner_error, llm_error, executor_error,
  unexpected, out_of_fuel, World, Env, Action,
}
use atlas_the_agent.Process.Keeps.{IsAside}
use atlas_the_agent.Process.Stays.{
  Stays, Stays-pure, Stays-raise, Stays-catch, Stays-bind, stays_rules,
}

-- The synthesizer fails with the model.
abbrev pub FromModel : Exc → Type 0
FromModel (budget_exceeded be) = Unit
FromModel (llm_error m) = Unit
FromModel (cancelled t p) = ⊥
FromModel (replan t v) = ⊥
FromModel run_cancelled = ⊥
FromModel (planner_error m) = ⊥
FromModel (executor_error m) = ⊥
FromModel (unexpected m) = ⊥
FromModel out_of_fuel = ⊥

-- So does the planner, or with a plan that cannot be read.
abbrev pub FromPlanner : Exc → Type 0
FromPlanner (planner_error m) = Unit
FromPlanner (unexpected m) = Unit
FromPlanner (budget_exceeded be) = Unit
FromPlanner (llm_error m) = Unit
FromPlanner (cancelled t p) = ⊥
FromPlanner (replan t v) = ⊥
FromPlanner run_cancelled = ⊥
FromPlanner (executor_error m) = ⊥
FromPlanner out_of_fuel = ⊥

-- The executor also sees the cancellation, and may use up its iterations.
abbrev pub FromExecutor : Exc → Type 0
FromExecutor (executor_error m) = Unit
FromExecutor run_cancelled = Unit
FromExecutor (unexpected m) = Unit
FromExecutor (budget_exceeded be) = Unit
FromExecutor (llm_error m) = Unit
FromExecutor (cancelled t p) = ⊥
FromExecutor (replan t v) = ⊥
FromExecutor (planner_error m) = ⊥
FromExecutor out_of_fuel = ⊥

-- The reflector catches a failure of the model.
abbrev pub FromReflector : Exc → Type 0
FromReflector (unexpected m) = Unit
FromReflector (budget_exceeded be) = Unit
FromReflector (llm_error m) = ⊥
FromReflector (executor_error m) = ⊥
FromReflector run_cancelled = ⊥
FromReflector (cancelled t p) = ⊥
FromReflector (replan t v) = ⊥
FromReflector (planner_error m) = ⊥
FromReflector out_of_fuel = ⊥

-- What the reflector's turns raise before it catches.
abbrev FromVerdict : Exc → Type 0
FromVerdict (llm_error m) = Unit
FromVerdict e = FromReflector e

module _ {A B : Type 0} {P : World → Type 0} {S : Exc → Type 0} where
  Stays-on_parsed :
      (good : A → Action B) (bad : Text → Action B) (x : Parsed A)
      → ((m : Text) → S (unexpected m))
      → ((a : A) → Stays P S (good a))
      → ((e : Text) → Stays P S (bad e))
      → Stays P S (on_parsed good bad x)
  Stays-on_parsed good bad (parsed a) u kg kb = kg a
  Stays-on_parsed good bad (rejected e) u kg kb = kb e
  Stays-on_parsed good bad (uncaught e) u kg kb = Stays-raise _ (u e)

  pub Stays-on_option :
      (n : Action B) (s : A → Action B) (o : Option A)
      → Stays P S n
      → ((a : A) → Stays P S (s a))
      → Stays P S (on_option n s o)
  Stays-on_option n s none kn ks = kn
  Stays-on_option n s (some a) kn ks = ks a

ruleset rules = (stays_rules, Stays-on_parsed, Stays-on_option)

module _ {P : World → Type 0} (aside : IsAside P) (env : Env) (settings : Settings) where
  module _ (S : Exc → Type 0) (broke : (be : BudgetExceeded) → S (budget_exceeded be))
      (failed : (m : Text) → S (llm_error m)) where
    Stays-answer_in :
        (goal : Text) (outputs : List PriorTaskOutput)
        → Stays P S (answer env settings goal outputs)
    unfolding answer
    Stays-answer_in goal [] = search rules
    Stays-answer_in goal (o ∷ []) = search rules
    Stays-answer_in goal (o ∷ p ∷ os) = search rules

    module _ (unread : (m : Text) → S (unexpected m)) where
      Stays-llm_verdict :
          (left : ℕ) (turn : List LlmMessage) → Stays P S (llm_verdict env settings left turn)
      unfolding llm_verdict
      Stays-llm_verdict zero turn = search rules
      Stays-llm_verdict (suc left) turn = search (rules, Stays-llm_verdict left)

      Stays-decide_plan :
          (refused : (m : Text) → S (planner_error m)) (left : ℕ) (turn : List LlmMessage)
          → Stays P S (decide_plan env settings left turn)
      unfolding decide_plan
      Stays-decide_plan refused zero turn = search rules
      Stays-decide_plan refused (suc left) turn = search (rules, Stays-decide_plan refused left)

      Stays-decide_action :
          (left : ℕ) (first : Option Text) (turn : List LlmMessage)
          → Stays P S (decide_action env settings left first turn)
      unfolding decide_action
      Stays-decide_action zero first turn = search rules
      Stays-decide_action (suc left) first turn = search (rules, Stays-decide_action left)

      module _ (tag : Tag) where
        Stays-emit_thought : (said : Text) → Stays P S (emit_thought env settings tag said)
        unfolding emit_thought
        Stays-emit_thought said = search rules

        Stays-invoke_tool : (a : AgentAction) → Stays P S (invoke_tool env settings tag a)
        unfolding invoke_tool
        Stays-invoke_tool a = search rules depth 8

        Stays-iterate :
            (stopped : S run_cancelled) (tired : (m : Text) → S (executor_error m)) (left : ℕ)
            (messages : List LlmMessage)
            → Stays P S (iterate env settings tag left messages)
        unfolding iterate
        Stays-iterate stopped tired zero messages = search rules
        Stays-iterate stopped tired (suc left) messages =
            search
              (
                rules,
                Stays-decide_action,
                Stays-emit_thought,
                Stays-invoke_tool,
                Stays-iterate stopped tired left,
              )
              depth 9

  pub Stays-answer :
      (goal : Text) (outputs : List PriorTaskOutput)
      → Stays P FromModel (answer env settings goal outputs)
  Stays-answer = Stays-answer_in FromModel (λ be. tt) (λ m. tt)

  pub Stays-plan :
      (goal : Text) (lessons : Option Text) → Stays P FromPlanner (plan env settings goal lessons)
  unfolding plan
  Stays-plan goal lessons =
      Stays-bind _ _ (Stays-decide_plan FromPlanner (λ be. tt) (λ m. tt) (λ m. tt) (λ m. tt) _ _)
        (λ ts. Stays-pure _)

  pub Stays-plan_again :
      (goal : Text) (outputs : List PriorTaskOutput) (reason : Text) (lessons : Option Text)
      → Stays P FromPlanner (plan_again env settings goal outputs reason lessons)
  unfolding plan_again
  Stays-plan_again goal outputs reason lessons =
      Stays-bind _ _ (Stays-decide_plan FromPlanner (λ be. tt) (λ m. tt) (λ m. tt) (λ m. tt) _ _)
        (λ ts. Stays-pure _)

  Stays-accept_without_model :
      (e : Exc) → FromVerdict e → Stays P FromReflector (accept_without_model env settings e)
  Stays-accept_without_model (llm_error m) f = Stays-pure _
  Stays-accept_without_model (budget_exceeded be) f = Stays-raise _ f
  Stays-accept_without_model (unexpected m) f = Stays-raise _ f
  Stays-accept_without_model (executor_error m) f = Stays-raise _ f
  Stays-accept_without_model run_cancelled f = Stays-raise _ f
  Stays-accept_without_model (cancelled t p) f = Stays-raise _ f
  Stays-accept_without_model (replan t v) f = Stays-raise _ f
  Stays-accept_without_model (planner_error m) f = Stays-raise _ f
  Stays-accept_without_model out_of_fuel f = Stays-raise _ f

  pub Stays-reflect :
      (goal : Text) (t : TaskView) (output : Text) (attempt : ℕ) (reasons : List Text)
      → Stays P FromReflector (reflect env settings goal t output attempt reasons)
  unfolding reflect
  Stays-reflect goal t output attempt reasons =
      Stays-on_option _ _ _
        (Stays-catch _ _
          (Stays-bind _ _ (Stays-llm_verdict FromVerdict (λ be. tt) (λ m. tt) (λ m. tt) _ _)
            (λ v. Stays-pure _))
          Stays-accept_without_model)
        (λ v. Stays-pure _)

  pub Stays-run :
      (tag : Tag) (messages : List LlmMessage)
      → Stays P FromExecutor (Executor.run env settings tag messages)
  unfolding Executor.run
  Stays-run tag messages =
      Stays-iterate FromExecutor (λ be. tt) (λ m. tt) (λ m. tt) tag tt (λ m. tt) _ _
