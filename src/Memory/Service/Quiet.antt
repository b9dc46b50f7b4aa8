-- ===== src/Memory/Service/Quiet.antt =====
-- No operation of the memory service can affect a run.
use atlas_the_agent.Base.{ℕ, ◌≡◌, refl, sym, subst, Option, none, some, List, [], Text}
use atlas_the_agent.Core.Json.{Json, obj}
use atlas_the_agent.Core.Arithmetic.{Arithmetic}
use atlas_the_agent.Core.Python.{Loaded, value, malformed, raised}
use atlas_the_agent.Core.Settings.{Settings}
use atlas_the_agent.Agent.Schemas.{TaskView}
use atlas_the_agent.Agent.Jsonio.{extract_json}
use atlas_the_agent.Agent.Raises.{Stays-on_option}
use atlas_the_agent.Memory.{IsBestEffort}
use atlas_the_agent.Memory.Schemas.{MemoryOutcome, MemoryRecord, MemoryView, RecalledMemory}
use atlas_the_agent.Memory.Writer.{on_loaded, on_object, llm_distill, distill_text, distill}
use atlas_the_agent.Memory.Service.{
  Clock, fail_with, reach_database, record_recall, service_recall, try_recall, write_memory_of,
  try_write, service_write, memory_service,
}
use atlas_the_agent.Persistence.Tables.{Database}
use atlas_the_agent.Persistence.Memories.{
  Sqlite, touch_memories, create_memory, create_for, upsert, find_memory, from_run,
}
use atlas_the_agent.Persistence.Memories.Retention.{prune}
use atlas_the_agent.Process.{Exc, Env, World, Action, pure, session, session_value, catch}
use atlas_the_agent.Process.Keeps.{IsAside}
use atlas_the_agent.Process.Stays.{
  Stays, Stays-bind, Stays-pure, Stays-raise, Stays-if, Stays-catch, Stays-tick, Stays-complete_as,
  stays_rules,
}

module _ (ar : Arithmetic) (id now : ℕ) (r : MemoryRecord) (db : Database) where
  -- A write of a memory touches no other table.
  upsert-memories :
      (run : ℕ) (found : Option MemoryView)
      → (upsert ar id now r run found db).1
        ≡ record db { memories = (upsert ar id now r run found db).1.memories }
  unfolding upsert
  upsert-memories run none = refl
  upsert-memories run (some m) = refl

  create_for-memories :
      (o : Option ℕ)
      → (create_for ar id now r db o).1
        ≡ record db { memories = (create_for ar id now r db o).1.memories }
  unfolding create_for
  create_for-memories none = refl
  create_for-memories (some run) = upsert-memories run (find_memory (from_run run) db.memories)

module _ {P : World → Type 0} {S : Exc → Type 0} (aside : IsAside P) (ar : Arithmetic) where
  Stays-create :
      (id now : ℕ) (r : MemoryRecord) → Stays P S (session_value (create_memory ar id now r))
  unfolding create_memory
  Stays-create id now r = record {
    at = λ w h.
        subst (λ d. P (record w { db = d })) (sym (create_for-memories ar id now r w.db r.run_id))
          (aside.at_memories (create_memory ar id now r w.db).1.memories w h);
  }

  Stays-prune :
      (max_records expiry_days now : ℕ)
      → Stays P S (session_value (prune ar max_records expiry_days now))
  unfolding prune
  Stays-prune max_records expiry_days now = record {
    at = λ w h. aside.at_memories (prune ar max_records expiry_days now w.db).1.memories w h;
  }

  Stays-touch : (ids : List ℕ) (now : ℕ) → Stays P S (session (touch_memories ar ids now))
  unfolding touch_memories
  Stays-touch ids now = record {
    at = λ w h. aside.at_memories (touch_memories ar ids now w.db).memories w h;
  }

-- Whatever is raised inside is caught.
abbrev Caught : Exc → Type 0
Caught e = Unit

module _ {P : World → Type 0} (aside : IsAside P) (env : Env) (settings : Settings) where
  Stays-on_object : (j : Json) → Stays P Caught (on_object env.py j)
  Stays-on_object (obj fs) = Stays-pure _
  Stays-on_object Json.null = Stays-raise _ tt
  Stays-on_object (Json.bool b) = Stays-raise _ tt
  Stays-on_object (Json.int n) = Stays-raise _ tt
  Stays-on_object (Json.float x) = Stays-raise _ tt
  Stays-on_object (Json.str s) = Stays-raise _ tt
  Stays-on_object (Json.arr js) = Stays-raise _ tt

  Stays-on_loaded : (l : Loaded) → Stays P Caught (on_loaded env.py l)
  Stays-on_loaded (value j) = Stays-on_object j
  Stays-on_loaded (malformed e) = Stays-raise _ tt
  Stays-on_loaded (raised e) = Stays-raise _ tt

  module _ (goal : Text) (outcome : MemoryOutcome) where
    Stays-llm_distill :
        (answer : Text) (descriptions : List Text)
        → Stays P Caught (llm_distill env settings goal outcome answer descriptions)
    unfolding llm_distill
    Stays-llm_distill answer descriptions =
        Stays-bind _ _ (Stays-complete_as Caught aside (λ be. tt) (λ m. tt) env _ _) λ raw.
          Stays-on_option _ _ (extract_json raw) (Stays-raise _ tt)
            (λ blob. Stays-on_loaded (env.py.loads blob))

    -- Distillation never raises.
    Stays-distill :
        {S : Exc → Type 0} (answer : Text) (descriptions tools : List Text) (n : ℕ)
        (run_id : Option ℕ)
        → Stays P S (distill env settings goal outcome answer descriptions tools n run_id)
    unfolding distill distill_text
    Stays-distill answer descriptions tools n run_id =
        Stays-bind _ _
          (Stays-if settings.memory_distill_with_llm _ _
            (Stays-catch {F = Caught} _ _
              (Stays-bind _ _ (Stays-llm_distill answer descriptions) (λ texts. Stays-pure _))
              (λ e c. Stays-pure _))
            (Stays-pure _))
          (λ texts. Stays-pure _)

-- The database may fail at any moment, and what it raises is caught.
Stays-reach_database :
    {P : World → Type 0} → IsAside P → (clock : Clock) → Stays P Caught (reach_database clock)
unfolding reach_database
Stays-reach_database {P = P} aside clock =
    Stays-bind _ _ (Stays-tick aside) (λ now. from_failure (clock.fails now))
  where
    from_failure : (o : Option Text) → Stays P Caught (fail_with o)
    from_failure none = Stays-pure tt
    from_failure (some e) = Stays-raise _ tt

module _ (sql : Sqlite) (ar : Arithmetic) (clock : Clock) (env : Env) (settings : Settings) where
  module _ {P : World → Type 0} (aside : IsAside P) where
    Stays-record_recall :
        (r : ℕ) (goal : Text) (selected : List RecalledMemory)
        → Stays P Caught (record_recall sql ar clock env settings r goal selected)
    unfolding record_recall
    Stays-record_recall r goal selected =
        search (stays_rules, Stays-tick, Stays-reach_database, Stays-touch) depth 12

    Stays-write_memory_of :
        (r : ℕ) (goal : Text) (outcome : MemoryOutcome) (answer : Text) (tasks : List TaskView)
        (tools : List Text)
        → Stays P Caught
            (write_memory_of sql ar clock env settings r goal outcome answer tasks tools)
    unfolding write_memory_of
    Stays-write_memory_of r goal outcome answer tasks tools =
        search
          (stays_rules, Stays-tick, Stays-reach_database, Stays-distill, Stays-create, Stays-prune)
          depth 16

    -- `except Exception`: what is raised inside is caught.
    Stays-trap :
        {A : Type 0} {S : Exc → Type 0} (m : Action A) (a : A)
        → Stays P Caught m
        → Stays P S (catch m (λ e. pure a))
    Stays-trap m a k = Stays-catch m (λ e. pure a) k (λ e c. Stays-pure a)

    Stays-try_recall :
        (r : ℕ) (goal : Text) → Stays P Caught (try_recall sql ar clock env settings r goal)
    unfolding try_recall
    Stays-try_recall r goal =
        search (stays_rules, Stays-reach_database, Stays-record_recall) depth 8

    Stays-try_write :
        (r : ℕ) (goal : Text) (outcome : MemoryOutcome) (answer : Text)
        → Stays P Caught (try_write sql ar clock env settings r goal outcome answer)
    unfolding try_write
    Stays-try_write r goal outcome answer =
        search (stays_rules, Stays-reach_database, Stays-write_memory_of) depth 10

  -- The memory service is best-effort: recall and write raise nothing, whatever the model does and
  -- at whichever of their sessions and events the database fails, and they leave the rows of
  -- runs, tasks and attempts as they are, that is, they keep every property of the process that
  -- events, calls, charges, time, lessons and memories do not touch.
  pub memory_service-IsBestEffort : IsBestEffort (memory_service sql ar clock env settings)
  unfolding service_recall service_write
  memory_service-IsBestEffort = record {
    at_recall = λ P aside r goal. Stays-trap aside _ [] (Stays-try_recall aside r goal);
    at_write = λ P aside r goal outcome answer.
        Stays-trap aside _ tt (Stays-try_write aside r goal outcome answer);
  }
