-- ===== src/Tests/Fixtures.antt =====
-- A small world: a scripted model that plans one task, finishes it and accepts it.
use atlas_the_agent.Base.{
  ℕ, ◌+◌, ◌-◌, ◌*◌, ◌/◌, String, true, false, Option, none, some, List, [], ◌∷◌, Text, codes, eqb,
  ◌==◌, if◌then◌else◌,
}
use atlas_the_agent.Core.Json.{
  Float, ℤ, pos, finite, Json, int, str, arr, obj, nil, cons, end, field,
}
use atlas_the_agent.Core.Python.{Loaded, value, malformed, Python}
use atlas_the_agent.Core.Settings.{Settings}
use atlas_the_agent.Agent.Schemas.{RunStatus}
use atlas_the_agent.Persistence.Tables.{Database}
use atlas_the_agent.Runtime.Budget.{from_settings}
use atlas_the_agent.Llm.{LlmMessage, Reply}
use atlas_the_agent.Memory.{MemoryService}
use atlas_the_agent.Core.Arithmetic.{Arithmetic}
use atlas_the_agent.Memory.Schemas.{done, heuristic, active, MemoryView}
use atlas_the_agent.Memory.Ranking.{ScoredMemory}
use atlas_the_agent.Memory.Service.{Clock}
use atlas_the_agent.Persistence.Memories.{Sqlite}
use atlas_the_agent.Process.{Env, World, pure}
use text.Mathlib.Text.{◌==◌ as str_eq}

abbrev plan_reply : Text
plan_reply = codes "{plan}"

abbrev finish_reply : Text
finish_reply = codes "{finish}"

abbrev accept_reply : Text
accept_reply = codes "{accept}"

-- What `json.loads` returns of the replies of the script.
abbrev scripted_loads : Text → Loaded
scripted_loads s =
    if eqb s plan_reply
    then value (
        obj
          (field "tasks" (arr (cons (obj (field "description" (str (codes "add")) end)) nil)) end))
    else if eqb s finish_reply
    then value (obj (field "action" (str (codes "finish")) (field "answer" (str (codes "4")) end)))
    else if eqb s accept_reply
    then value (obj (field "decision" (str (codes "accept")) end))
    else malformed (codes "Expecting value")

abbrev pub digit : ℕ → Text
digit n = n ∷ []

abbrev int_of_int : Json → Option ℤ
int_of_int (int z) = some z
int_of_int _ = none

abbrev pub python : Python
python = record {
  loads = scripted_loads;
  repr = λ s. s;
  lower = λ s. s;
  show = digit;
  hex = digit;
  str_of = λ j. [];
  int_of = int_of_int;
  float_of_text = λ s. none;
  invalid_shape = λ name fs. [];
  float_of_int = λ z. some (finite z);
}

abbrev script : ℕ → List LlmMessage → Reply
script n messages =
    if n == 1
    then Reply.text plan_reply
    else if n == 6
    then Reply.text finish_reply
    else if n == 8
    then Reply.text accept_reply
    else Reply.llm_error (codes "no reply")

-- Nobody cancels the run, and there is no tool.
abbrev pub env : Env
env = record {
  py = python;
  complete = script;
  is_cancelled = λ n. false;
  tools = [];
  tool_timeout = codes "5";
}

abbrev pub settings : Settings
settings = record {
  agent_max_iterations = 2;
  agent_repair_attempts = 1;
  agent_max_tasks = 3;
  context_prior_output_chars = 10;
  agent_force_synthesis = false;
  agent_enable_reflection = true;
  agent_max_retries = 1;
  agent_max_replans = 1;
  agent_max_model_calls = 5;
  agent_max_tool_calls = 2;
  agent_reflection_min_confidence = finite (pos 0);
  memory_enabled = true;
  memory_recall_k = 2;
  memory_recall_char_budget = 200;
  memory_recall_min_score = finite (pos 0);
  memory_max_records = 2;
  memory_expiry_days = 1;
  memory_distill_with_llm = false;
  memory_min_tasks = 1;
  memory_write_outcomes = "done" ∷ "partial" ∷ [];
}

-- A memory that remembers nothing.
abbrev pub no_memory : MemoryService
no_memory = record { recall = λ r goal. pure []; write = λ r goal outcome answer. pure tt }

abbrev pub goal : Text
goal = codes "2+2"

abbrev pub database : Database
database = record {
  runs =
      (record { id = 7; goal = goal; status = RunStatus.created; answer = none; error = none })
      ∷ [];
  tasks = [];
  attempts = [];
  events = [];
  memories = [];
}

abbrev pub world : World
world = record {
  db = database;
  budget = from_settings settings;
  clock = 0;
  model_called = 0;
  tool_called = 0;
  lessons = none;
}

-- A build of SQLite without FTS5, where every column matches.
abbrev pub sqlite : Sqlite
sqlite = record { match = λ ms q n. none; is_like = λ column term. true }

abbrev natural : Float → ℕ
natural (finite (pos n)) = n
natural _ = 0

abbrev of_natural : ℕ → Float
of_natural n = finite (pos n)

-- Hundredths, cut off.
abbrev hundredths : String → ℕ
hundredths s =
    if str_eq s "0.60"
    then 60
    else if str_eq s "0.15"
    then 15
    else if str_eq s "0.8"
    then 80
    else if str_eq s "0.0"
    then 0
    else 100

abbrev pub arithmetic : Arithmetic
arithmetic = record {
  literal = λ s. of_natural (hundredths s);
  ratio = λ m n. of_natural (m * 100 / n);
  timestamp = λ t. of_natural t;
  plus = λ a b. of_natural (natural a + natural b);
  minus = λ a b. of_natural (natural a - natural b);
  times = λ a b. of_natural (natural a * natural b / 100);
  over = λ a b. of_natural (natural a * 100 / natural b);
  repr = λ x. codes "x";
}

abbrev pub clock : Clock
clock = record { now = λ n. 1000 + n; new_id = λ n. n; fails = λ n. none }

-- A database that does not answer any more.
abbrev pub broken_clock : Clock
broken_clock = record clock { fails = λ n. some (codes "database is locked") }

-- A memory of the run `run`, with a lesson.
abbrev pub remembered : ℕ → ℕ → Text → MemoryView
remembered id run lesson = record {
  id = id;
  run_id = some run;
  goal = codes "2+3";
  outcome = done;
  success = true;
  summary = codes "Added.";
  lessons = lesson;
  tools_used = [];
  task_count = 1;
  source = heuristic;
  salience = finite (pos 100);
  use_count = 0;
  last_recalled_at = none;
  pinned = false;
  status = active;
  created_at = id;
  updated_at = id;
}

abbrev pub scored_memory : ℕ → Text → ScoredMemory
scored_memory id lesson = record {
  memory = remembered id id lesson;
  relevance = finite (pos 50);
  total = finite (pos 50);
}
