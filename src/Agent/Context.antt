-- ===== src/Agent/Context.antt =====
-- backend/atlas/agent/context.py
pub mod Truncated
use atlas_the_agent.Base.{
  ℕ, ◌-◌, ◌&&◌, not, Option, none, some, List, [], ◌∷◌, ◌++◌, map, Text, length, take, rstrip,
  is_empty, leb, ltb, ellipsis, if◌then◌else◌,
}
use atlas_the_agent.Core.Settings.{Settings}
use atlas_the_agent.Agent.Schemas.{PriorTaskOutput, TaskContext}
use atlas_the_agent.Agent.Prompts.{Content, system_prompt, task_prompt, with_critique}
use atlas_the_agent.Tools.Registry.{Registry, names}
use atlas_the_agent.Llm.{LlmMessage, system, user}

-- `_truncate`; `text[: max_chars - 1]` with a positive `max_chars` (the settings ask for 100).
unfoldable pub truncate : Text → ℕ → Text
truncate s max_chars =
    if leb (length s) max_chars then s else rstrip (take (max_chars - 1) s) ++ ellipsis

abbrev or_empty : Option Text → Text
or_empty none = []
or_empty (some s) = s

abbrev shown : ℕ → PriorTaskOutput → PriorTaskOutput
shown max_chars p = record p { output = truncate p.output max_chars }

-- `ContextBuilder.build`: the system message and the task-framing turn.
unfoldable pub build : Registry → Settings → TaskContext → List LlmMessage
unfolding truncate
build tools settings c =
    let priors = map (shown settings.context_prior_output_chars) c.prior_outputs in
    let framed : Content = task_prompt c.goal c.task priors c.total_tasks in
    let reason = or_empty c.critique_reason in
    (record { role = system; content = system_prompt (names tools) })
    ∷ (record {
      role = user;
      content =
          if ltb 1 c.attempt && not (is_empty reason)
          then with_critique framed
              (truncate (or_empty c.previous_output) settings.context_prior_output_chars) reason
          else framed;
    })
    ∷ []
