-- ===== src/Agent/Executor/Rounds.antt =====
-- How much one run of the executor may cost.
use atlas_the_agent.Base.{
  codes, strip, ℕ, zero, suc, ◌+◌, ◌*◌, Option, none, some, List, Text, on_option, arith,
}
use atlas_the_agent.Core.Settings.{Settings}
use atlas_the_agent.Agent.Envelope.{AgentAction, is_finish, parse_action}
use atlas_the_agent.Agent.Executor.{
  Tag, decide_action, emit_thought, invoke_tool, iterate, run, or_empty, with_observation,
}
use atlas_the_agent.Agent.Jsonio.{Parsed, parsed, rejected, uncaught}
use atlas_the_agent.Agent.Turns.{on_parsed}
use atlas_the_agent.Llm.{LlmMessage}
use atlas_the_agent.Process.{Env, World, Action}
use atlas_the_agent.Process.Spends.{
  MakesAtMost, Spends, Spends-pure, Spends-raise, Spends-if, Spends-bind, Spends-behind,
  Spends-emit, Spends-is_set, Spends-complete_as, Spends-execute_tool,
}

module _ {A B : Type 0} (i j : ℕ) where
  Spends-on_parsed :
      (good : A → Action B) (bad : Text → Action B) (x : Parsed A)
      → ((a : A) → Spends i j (good a))
      → ((e : Text) → Spends i j (bad e))
      → Spends i j (on_parsed good bad x)
  Spends-on_parsed good bad (parsed a) kg kb = kg a
  Spends-on_parsed good bad (rejected e) kg kb = kb e
  Spends-on_parsed good bad (uncaught e) kg kb = Spends-raise i j _

  Spends-on_option :
      (n : Action B) (s : A → Action B) (o : Option A)
      → Spends i j n
      → ((a : A) → Spends i j (s a))
      → Spends i j (on_option n s o)
  Spends-on_option n s none kn ks = kn
  Spends-on_option n s (some a) kn ks = ks a

module _ (env : Env) (settings : Settings) where
  -- One turn and its repairs.
  Spends-decide_action :
      (left : ℕ) (first : Option Text) (turn : List LlmMessage)
      → Spends (1 + left) 0 (decide_action env settings left first turn)
  unfolding decide_action
  Spends-decide_action zero first turn =
      Spends-bind 1 0 0 0 (1 + zero) 0 (omega arith) (omega arith) _ _
        (Spends-complete_as env _ turn)
        λ raw.
          Spends-on_parsed 0 0 _ _ (parse_action env.py raw) (λ a. Spends-pure 0 0 _)
            (λ e. Spends-pure 0 0 _)
  Spends-decide_action (suc left) first turn =
      Spends-bind 1 0 (1 + left) 0 (1 + suc left) 0 (omega arith) (omega arith) _ _
        (Spends-complete_as env _ turn)
        λ raw.
          Spends-on_parsed (1 + left) 0 _ _ (parse_action env.py raw) (λ a. Spends-pure _ _ _)
            (λ e. Spends-decide_action left _ _)

  module _ (tag : Tag) where
    Spends-emit_thought : (said : Text) → Spends 0 0 (emit_thought env settings tag said)
    unfolding emit_thought
    Spends-emit_thought said = Spends-if 0 0 _ _ _ (Spends-pure 0 0 tt) (Spends-emit _ _ _)

    Spends-invoke_tool : (a : AgentAction) → Spends 0 1 (invoke_tool env settings tag a)
    unfolding invoke_tool
    Spends-invoke_tool a = Spends-behind 0 1 _ _ (Spends-emit _ _ _) λ _.
        Spends-bind 0 1 0 0 0 1 (omega arith) (omega arith) _ _ (Spends-execute_tool env _ _)
          λ result. Spends-behind 0 0 _ _ (Spends-emit _ _ _) (λ _. Spends-pure 0 0 _)

    -- What each iteration costs at most.
    abbrev turn_cost : ℕ
    turn_cost = 1 + settings.agent_repair_attempts

    Spends-iterate :
        (left : ℕ) (messages : List LlmMessage)
        → Spends (left * turn_cost) left (iterate env settings tag left messages)
    unfolding iterate
    Spends-iterate zero messages = Spends-raise _ _ _
    Spends-iterate (suc left) messages = Spends-behind _ _ _ _ (Spends-is_set env) λ stop.
        Spends-if _ _ stop _ _ (Spends-raise _ _ _) (
          Spends-bind turn_cost 0 (left * turn_cost) (suc left) (suc left * turn_cost) (suc left)
            (omega arith) (omega arith) _ _
            (Spends-decide_action settings.agent_repair_attempts none messages)
            λ decision.
              Spends-on_option _ _ _ _ decision.0
                (Spends-behind _ _ _ _ (Spends-emit_thought (codes "(answering directly)"))
                  (λ _. Spends-pure _ _ (strip decision.1)))
                λ a. Spends-behind _ _ _ _ (Spends-emit_thought a.thought) λ _.
                  Spends-if _ _ (is_finish a) _ _ (Spends-pure _ _ (or_empty a.answer)) (
                    Spends-bind 0 1 (left * turn_cost) left (left * turn_cost) (suc left)
                      (omega arith) (omega arith) _ _ (Spends-invoke_tool a)
                      (λ observation.
                        Spends-iterate left (with_observation messages a decision.1 observation))))

  -- One run of the executor, however it ends, makes at most `agent_max_iterations` tool calls, and at
  -- most `1 + agent_repair_attempts` calls of the model for each of its iterations, whatever the model,
  -- the tools and the budget answer.
  pub run-MakesAtMost :
      (tag : Tag) (messages : List LlmMessage) (w : World)
      → MakesAtMost
          (settings.agent_max_iterations * (1 + settings.agent_repair_attempts))
          settings.agent_max_iterations
          w
          (run env settings tag messages w).1
  unfolding run
  run-MakesAtMost tag messages = (Spends-iterate tag settings.agent_max_iterations messages).at
