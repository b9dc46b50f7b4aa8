-- ===== src/Memory/Service.antt =====
-- `MemoryService` (backend/atlas/memory/service.py) over `RecallService` (memory/recall.py) and
-- `EpisodicStore` (memory/store.py).

pub mod Quiet
use atlas_the_agent.Base.{
  ℕ, ◌*◌, Bool, true, false, not, ◌&&◌, ◌||◌, Option, none, some, List, [], ◌∷◌, ◌++◌, map, Text,
  String, any, filter, length, codes, is_empty, eqb, ltb, ◌==◌, if◌then◌else◌,
}
use atlas_the_agent.Core.Json.{Json, Fields, Items, get, str, nat, arr, nil, cons, end, field}
use atlas_the_agent.Core.Arithmetic.{Arithmetic}
use atlas_the_agent.Core.Settings.{Settings}
use atlas_the_agent.Core.Python.{Python}
use atlas_the_agent.Events.Types
use atlas_the_agent.Events.Types.{EventType, Event}
use atlas_the_agent.Agent.Schemas.{TaskStatus, TaskView}
use atlas_the_agent.Agent.Prompts.{format_lessons_block}
use atlas_the_agent.Memory.{MemoryService}
use atlas_the_agent.Memory.Schemas.{
  MemoryOutcome, outcome_value, source_value, MemoryRecord, MemoryView, RecalledMemory,
}
use atlas_the_agent.Memory.Ranking.{score_candidates, select_within_budget}
use atlas_the_agent.Memory.Writer.{distill}
use atlas_the_agent.Persistence.Tables.{Database}
use atlas_the_agent.Persistence.Tasks.{list_for_run}
use atlas_the_agent.Persistence.Ledger.{list_after}
use atlas_the_agent.Persistence.Memories.{Sqlite, search, touch_memories, create_memory}
use atlas_the_agent.Persistence.Memories.Retention.{prune}
use atlas_the_agent.Process.{
  Exc, unexpected, World, Env, Action, Done, pure, raise, ◌>>=◌, ◌>>◌, catch, reads, session,
  session_value, emit, tick,
}
use text.Mathlib.Text.{◌==◌ as str_eq}

-- What the service finds at a point of time: the time of day, a new uuid, and what SQLAlchemy raises
-- instead of a session, where it does.
pub record Clock : Type 0 where
  pub now : ℕ → ℕ
  pub new_id : ℕ → ℕ
  pub fails : ℕ → Option Text

abbrev pub fail_with : Option Text → Action Done
fail_with none = pure tt
fail_with (some e) = raise (unexpected e)

-- A unit of work on the database is done as a whole, or raises before it has changed anything.
unfoldable pub reach_database : Clock → Action Done
unfolding tick
reach_database clock = do now ← tick; fail_with (clock.fails now)

abbrev pub memory_id_text : Python → ℕ → Text
memory_id_text py i = codes "mem_" ++ py.hex i

unfoldable pub memory_id_items : Python → List ℕ → Items
memory_id_items py [] = nil
memory_id_items py (i ∷ is) = cons (str (memory_id_text py i)) (memory_id_items py is)

abbrev is_skipped : TaskStatus → Bool
is_skipped TaskStatus.skipped = true
is_skipped _ = false

abbrev is_tool_call : EventType → Bool
is_tool_call Types.tool_call = true
is_tool_call _ = false

-- `event.payload.get("tool")`, where the payload of a tool call has a string.
abbrev tool_name : Option Json → Text
tool_name (some (str s)) = s
tool_name _ = []

-- The loop of `_gather` over the events.
unfoldable pub tools_called : List Text → List Event → List Text
tools_called tools [] = tools
tools_called tools (e ∷ es) =
    let name = tool_name (get e.payload "tool") in
    tools_called
      (if is_tool_call e.type && not (is_empty name || any (λ t. eqb t name) tools)
        then tools ++ name ∷ []
        else tools)
      es

-- `_gather`: the tasks that ran, and the tools that were called.
unfoldable pub gather : ℕ → Database → List TaskView × List Text
unfolding tools_called
gather run_id db = (
  filter (λ t. not (is_skipped t.status)) (list_for_run run_id db),
  tools_called [] (list_after run_id 0 db),
)

module _ (sql : Sqlite) (ar : Arithmetic) (clock : Clock) (env : Env) (settings : Settings) where
  -- `EpisodicStore.recall`
  unfoldable pub store_recall : Text → Database → List RecalledMemory
  unfolding search score_candidates select_within_budget
  store_recall goal db =
      let k = settings.memory_recall_k in
      if k == 0
      then []
      else select_within_budget env.py ar k settings.memory_recall_char_budget
          settings.memory_recall_min_score
          (score_candidates env.py ar goal (search sql env.py goal (k * 3) db))

  -- The rendered block of `RecallService.recall` for what was selected.
  abbrev rendered_of : List RecalledMemory → Text
  rendered_of [] = []
  rendered_of (m ∷ ms) = format_lessons_block (map (λ n. (n.memory.goal, n.lesson)) (m ∷ ms))

  -- The part of `recall` behind the selection.
  unfoldable pub record_recall : ℕ → Text → List RecalledMemory → Action Text
  unfolding memory_id_items reach_database
  record_recall run_id goal selected = do
    let ids = map (λ m. m.memory.id) selected
    now ← tick
    reach_database clock
    session (touch_memories ar ids (clock.now now))
    reach_database clock
    emit run_id Types.memory_recalled (
        field "query" (str goal) (
          field "count" (nat (length selected)) (
            field "memory_ids" (arr (memory_id_items env.py ids))
              (field "rendered" (str (rendered_of selected)) end))))
    pure (rendered_of selected)

  -- The body of the `try` of `recall`.
  unfoldable pub try_recall : ℕ → Text → Action Text
  unfolding store_recall record_recall reach_database
  try_recall run_id goal = do
    reach_database clock
    selected ← reads (λ w. store_recall goal w.db)
    if is_empty selected then pure [] else record_recall run_id goal selected

  -- `recall`
  unfoldable pub service_recall : ℕ → Text → Action Text
  unfolding try_recall
  service_recall run_id goal = catch (try_recall run_id goal) (λ e. pure [])

  -- The part of `write` behind the gathering.
  unfoldable pub write_memory_of :
      ℕ → Text → MemoryOutcome → Text → List TaskView → List Text → Action Done
  unfolding distill reach_database
  write_memory_of run_id goal outcome answer tasks tools = do
    r ←
        distill env settings goal outcome answer (map (λ t. t.description) tasks) tools
          (length tasks) (some run_id)
    now ← tick
    reach_database clock
    view ← session_value (create_memory ar (clock.new_id now) (clock.now now) r)
    later ← tick
    reach_database clock
    pruned ←
        session_value
          (prune ar settings.memory_max_records settings.memory_expiry_days (clock.now later))
    reach_database clock
    emit run_id Types.memory_written (
        field "memory_id" (str (memory_id_text env.py view.id)) (
          field "run_id" (str (env.py.hex run_id)) (
            field "outcome" (str (codes (outcome_value outcome))) (
              field "source" (str (codes (source_value r.source)))
                (field "pruned" (arr (memory_id_items env.py pruned)) end)))))

  -- The body of the `try` of `write`.
  unfoldable pub try_write : ℕ → Text → MemoryOutcome → Text → Action Done
  unfolding gather write_memory_of reach_database
  try_write run_id goal outcome answer =
      if any (λ o. str_eq o (outcome_value outcome)) settings.memory_write_outcomes
      then (do
        reach_database clock
        gathered ← reads (λ w. gather run_id w.db)
        if ltb (length gathered.0) settings.memory_min_tasks
            then pure tt
            else write_memory_of run_id goal outcome answer gathered.0 gathered.1)
      else pure tt

  -- `write`
  unfoldable pub service_write : ℕ → Text → MemoryOutcome → Text → Action Done
  unfolding try_write
  service_write run_id goal outcome answer =
      catch (try_write run_id goal outcome answer) (λ e. pure tt)

  -- The service that the runtime holds.
  abbrev pub memory_service : MemoryService
  memory_service = record { recall = service_recall; write = service_write }
