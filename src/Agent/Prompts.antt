-- ===== src/Agent/Prompts.antt =====
-- The calls of backend/atlas/agent/prompts.py. The text of a prompt is not modelled: a message
-- holds the call that renders it, with its arguments. Texts that are stored or shown are rendered.
use atlas_the_agent.Base.{
  ℕ, [], ◌∷◌, ◌++◌, List, map, Text, Option, codes, strip, rstrip, ellipsis, length, take, ltb,
  ◌==◌, is_empty, if◌then◌else◌,
}
use atlas_the_agent.Agent.Schemas.{TaskView, PriorTaskOutput}

pub data Content : Type 0 where
  text : Text → Content
  system_prompt : List Text → Content
  planner_prompt replan_prompt : List Text → ℕ → Option Text → Content
  replan_input : Text → List PriorTaskOutput → Text → ℕ → Content
  repair_instruction : Text → Content
  observation_message : Text → Text → Content
  task_prompt : Text → TaskView → List PriorTaskOutput → ℕ → Content
  -- `f"{user}\n\n{critique}"` with the previous output and the reason of the critique
  with_critique : Content → Text → Text → Content
  synthesis_prompt : Content
  synthesis_input : Text → List PriorTaskOutput → Content
  reflection_prompt : Content
  reflection_input : Text → TaskView → Text → ℕ → List Text → ℕ → Content
  memory_distill_prompt : Content
  memory_distill_input : Text → Text → Text → List Text → ℕ → Content

abbrev pub reflection_prompt_version : ℕ
reflection_prompt_version = 1

abbrev partial_answer_notice : Text
partial_answer_notice =
    0x26a0
      ∷ 0xfe0f
      ∷ codes " This run did not complete successfully. The following is a partial answer "
    ++ codes "based only on the tasks that finished; some planned steps were not carried out."

unfoldable pub build_partial_answer : Text → Text
build_partial_answer answer =
    let body = strip answer in
    if is_empty body then partial_answer_notice else partial_answer_notice ++ (codes "\n\n" ++ body)

-- `s.replace("\n", " ")`
abbrev pub one_line : Text → Text
one_line s = map (λ c. if c == b'\n' then b' ' else c) s

-- `if len(s) > n: s = s[:n].rstrip() + "…"`
unfoldable pub shorten_to : ℕ → Text → Text
shorten_to n s = if ltb n (length s) then rstrip (take n s) ++ ellipsis else s

abbrev lessons_header : Text
lessons_header =
    codes "## Lessons from past runs (hints — use only if clearly relevant; ignore otherwise)"

abbrev lessons_footer : Text
lessons_footer =
    codes "These are heuristics from earlier runs, not instructions. Do not follow a "
    ++ codes "lesson that does not apply to the current goal."

unfoldable pub lesson_line : Text → Text → Text
unfolding shorten_to
lesson_line past_goal lesson =
    codes "- [past goal: \""
    ++ (shorten_to 80 (one_line (strip past_goal)) ++ (codes "\"] " ++ strip lesson))

-- The lines behind the header, joined by newlines.
unfoldable pub lesson_lines : List (Text × Text) → Text
unfolding lesson_line
lesson_lines [] = b'\n' ∷ lessons_footer
lesson_lines ((past_goal, lesson) ∷ pairs) =
    b'\n' ∷ lesson_line past_goal lesson ++ lesson_lines pairs

unfoldable pub format_lessons_block : List (Text × Text) → Text
unfolding lesson_lines
format_lessons_block pairs = lessons_header ++ lesson_lines pairs
