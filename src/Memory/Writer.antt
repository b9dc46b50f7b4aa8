-- ===== src/Memory/Writer.antt =====
-- `MemoryWriter` of backend/atlas/memory/writer.py.
use atlas_the_agent.Base.{
  ℕ, Option, none, some, List, [], ◌∷◌, ◌++◌, Text, codes, strip, take, if◌then◌else◌, on_option,
}
use atlas_the_agent.Core.Json.{Json, get, obj}
use atlas_the_agent.Core.Python.{Python, value, malformed, raised, Loaded}
use atlas_the_agent.Core.Settings.{Settings}
use atlas_the_agent.Agent.Jsonio.{extract_json}
use atlas_the_agent.Agent.Prompts.{Content, one_line, shorten_to}
use atlas_the_agent.Llm.{system, user}
use atlas_the_agent.Memory.Schemas.{
  MemoryOutcome, outcome_value, MemorySource, synthesized, heuristic, MemoryRecord,
}
use atlas_the_agent.Runtime.Budget.{BudgetCategory}
use atlas_the_agent.Process.{unexpected, Env, Action, pure, raise, ◌>>=◌, catch, complete_as}

-- `' then '.join(tools)`
unfoldable pub joined_by_then : List Text → Text
joined_by_then [] = []
joined_by_then (t ∷ []) = t
joined_by_then (t ∷ u ∷ ts) = let rest = joined_by_then (u ∷ ts) in t ++ (codes " then " ++ rest)

abbrev approach : List Text → Text
approach [] = []
approach (t ∷ ts) = codes "Approach: use " ++ (joined_by_then (t ∷ ts) ++ codes ".")

-- `_heuristic`
unfoldable pub heuristic_of : Text → MemoryOutcome → List Text → Text × Text
unfolding joined_by_then shorten_to
heuristic_of goal outcome tools = (
  codes "Attempted '"
      ++ (shorten_to 160 (one_line (strip goal))
          ++ (codes "' — outcome: " ++ (codes (outcome_value outcome) ++ codes "."))),
  approach tools,
)

-- `str(data.get(key, "")).strip()`
abbrev stripped_of : Python → Option Json → Text
stripped_of py none = []
stripped_of py (some j) = strip (py.str_of j)

-- What the distillation reads of the loaded JSON.
abbrev pub on_object : Python → Json → Action (Text × Text)
on_object py (obj fs) = pure (stripped_of py (get fs "summary"), stripped_of py (get fs "lessons"))
on_object py _ = raise (unexpected (codes "distillation response is not a JSON object"))

abbrev pub on_loaded : Python → Loaded → Action (Text × Text)
on_loaded py (value j) = on_object py j
on_loaded py (malformed e) = raise (unexpected e)
on_loaded py (raised e) = raise (unexpected e)

module _ (env : Env) (settings : Settings) (goal : Text) (outcome : MemoryOutcome) where
  -- `_llm_distill`
  unfoldable pub llm_distill : Text → List Text → Action (Text × Text)
  llm_distill answer descriptions = do
    raw ← complete_as env BudgetCategory.memory (
        (record { role = system; content = Content.memory_distill_prompt })
        ∷ (record {
          role = user;
          content =
              Content.memory_distill_input goal (codes (outcome_value outcome)) answer descriptions
                settings.context_prior_output_chars;
        })
        ∷ [])
    on_option (raise (unexpected (codes "no JSON object in distillation response")))
        (λ blob. on_loaded env.py (env.py.loads blob)) (extract_json raw)

  -- The summary, the lessons and their source.
  unfoldable pub distill_text : Text → List Text → List Text → Action ((Text × Text) × MemorySource)
  unfolding llm_distill heuristic_of
  distill_text answer descriptions tools =
      let plain : (Text × Text) × MemorySource = (heuristic_of goal outcome tools, heuristic) in
      if settings.memory_distill_with_llm
      then catch (do texts ← llm_distill answer descriptions; pure (texts, synthesized))
          (λ e. pure plain)
      else pure plain

  abbrev pub as_record : Option ℕ → List Text → ℕ → (Text × Text) × MemorySource → MemoryRecord
  as_record run_id tools n ((summary, lessons), source) = record {
    run_id = run_id;
    goal = goal;
    outcome = outcome;
    summary = take 400 summary;
    lessons = take 600 lessons;
    tools_used = tools;
    task_count = n;
    source = source;
  }

  -- `distill`
  unfoldable pub distill : Text → List Text → List Text → ℕ → Option ℕ → Action MemoryRecord
  unfolding distill_text
  distill answer descriptions tools task_count run_id = do
    texts ← distill_text answer descriptions tools
    pure (as_record run_id tools task_count texts)
