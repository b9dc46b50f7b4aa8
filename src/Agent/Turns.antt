-- ===== src/Agent/Turns.antt =====
-- The repair loops of the planner, the executor and the reflector: how they go on from a parse.
use atlas_the_agent.Base.{List, [], ◌∷◌, ◌++◌, Text}
use atlas_the_agent.Agent.Prompts.{text, repair_instruction}
use atlas_the_agent.Agent.Jsonio.{Parsed, parsed, rejected, uncaught}
use atlas_the_agent.Llm.{LlmMessage, user, assistant}
use atlas_the_agent.Process.{unexpected, Action, raise}

-- `[*turn, assistant raw, user repair_instruction(error)]`
abbrev pub repaired : List LlmMessage → Text → Text → List LlmMessage
repaired turn raw error =
    turn
    ++ ((record { role = assistant; content = text raw })
        ∷ (record { role = user; content = repair_instruction error })
        ∷ [])

-- The branches on a value and on an error; what the parser does not catch is raised.
abbrev pub on_parsed : {A B : Type 0} → (A → Action B) → (Text → Action B) → Parsed A → Action B
on_parsed good bad (parsed a) = good a
on_parsed good bad (rejected error) = bad error
on_parsed good bad (uncaught e) = raise (unexpected e)
