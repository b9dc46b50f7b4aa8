-- ===== src/Tests/Executions.antt =====
-- One run of the executor.
use atlas_the_agent.Base.{◌*◌, ◌+◌, ◌≡◌, refl, none, [], codes}
use atlas_the_agent.Core.Settings.{Settings}
use atlas_the_agent.Agent.Executor
use atlas_the_agent.Agent.Executor.{Tag}
use atlas_the_agent.Agent.Executor.Rounds.{run-MakesAtMost}
use atlas_the_agent.Agent.Envelope.{parse_action}
use atlas_the_agent.Agent.Jsonio.{extract_json}
use atlas_the_agent.Runtime.Budget.{charge_model_call, from_settings}
use atlas_the_agent.Llm.{Reply}
use atlas_the_agent.Process.{Env, is_set, emit, complete_as}
use atlas_the_agent.Process.Spends.{MakesAtMost}
use atlas_the_agent.Tests.Fixtures.{env, settings, world}

abbrev untagged : Tag
untagged = record { run_id = 7; task_id = none; attempt = 1; generation = 0 }

-- A model that never writes JSON.
abbrev mumbling : Env
mumbling = record env { complete = λ n messages. Reply.text (codes "hm") }

abbrev once : Settings
once = record settings { agent_max_iterations = 1 }

run-MakesAtMost_example :
    MakesAtMost (1 * (1 + 1)) 1 world (Executor.run mumbling once untagged [] world).1
run-MakesAtMost_example = run-MakesAtMost mumbling once untagged [] world

-- Its one turn and the one repair reach the bound.
mumbling_calls : (Executor.run mumbling once untagged [] world).1.model_called ≡ 2
unfolding Executor.run is_set complete_as charge_model_call from_settings parse_action extract_json
    emit
mumbling_calls = refl
