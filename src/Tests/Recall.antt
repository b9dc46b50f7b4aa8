-- ===== src/Tests/Recall.antt =====
-- Memories: recall, writing, and whole runs that remember.
use atlas_the_agent.Base.{
  ℕ, ◌+◌, ◌≤◌, ◌<◌, ◌≡◌, refl, max, ◌/◌, ◌||◌, true, some, List, [], ◌∷◌, All, Text, codes, filter,
  length, map, strip, arith,
}
use atlas_the_agent.Core.Json.{end, finite, pos, leb_float}
use atlas_the_agent.Memory.{IsBestEffort}
use atlas_the_agent.Memory.Schemas.{MemoryRecord, done, heuristic}
use atlas_the_agent.Memory.Ranking.{ScoredMemory, select_within_budget}
use atlas_the_agent.Memory.Ranking.Limits.{total_chars, select_within_budget-IsWithin}
use atlas_the_agent.Memory.Ranking.Varied.{IsVaried, select_within_budget-IsVaried}
use atlas_the_agent.Memory.Ranking.Gated.{select_within_budget-filter}
use atlas_the_agent.Memory.Service.{memory_service, service_recall, try_recall, reach_database}
use atlas_the_agent.Memory.Service.Quiet.{memory_service-IsBestEffort}
use atlas_the_agent.Persistence.Tables.{Database}
use atlas_the_agent.Persistence.Ledger.{list_after}
use atlas_the_agent.Persistence.Memories.{create_memory}
use atlas_the_agent.Persistence.Memories.Owners.{memories_of, IsOwned, create_memory-IsOwned}
use atlas_the_agent.Process.Triple.{Post}
use atlas_the_agent.Process.Stays.{Stays-pure}
use atlas_the_agent.Recovery.Replay.{unpack, sequence_is_intact}
use atlas_the_agent.Runtime.Manager.Bounded.{IsBounded}
use atlas_the_agent.Runtime.Manager.Execute.{execute}
use atlas_the_agent.Runtime.Manager.Outcome.Ends.{HasConcluded, execute-HasConcluded}
use atlas_the_agent.Runtime.Manager.Appended.{Extends, execute-Extends}
use atlas_the_agent.Events.Types.{run_created}
use atlas_the_agent.Process.{World, ok, err, unexpected, tick, emit_to}
use atlas_the_agent.Runtime.Manager.Streamed.{Streams, stream_answer-Streams}
use atlas_the_agent.Runtime.Manager.Execute.{stream_answer}
use atlas_the_agent.Runtime.Manager.Remembering.{execute-remembering}
use atlas_the_agent.Tests.Fixtures.{
  python, env, settings, no_memory, goal, world, database, sqlite, arithmetic, clock, broken_clock,
  remembered, scored_memory,
}

no_memory-IsBestEffort : IsBestEffort no_memory
no_memory-IsBestEffort = record {
  at_recall = λ P aside r goal. Stays-pure [];
  at_write = λ P aside r goal outcome answer. Stays-pure tt;
}

execute-HasConcluded_example :
    Post (λ u. HasConcluded 7) (λ e v. ⊥) (execute env settings no_memory 7 goal world)
execute-HasConcluded_example =
    execute-HasConcluded env settings no_memory no_memory-IsBestEffort 7 goal world (tt, tt)

execute-remembering_example :
    Post
      (λ u v.
        HasConcluded 7 v
        × (IsBounded settings world v
            × (sequence_is_intact (map unpack (list_after 7 0 v.db)) ≡ true)))
      (λ e v. ⊥)
      (execute env settings (memory_service sqlite arithmetic clock env settings) 7 goal world)
execute-remembering_example =
    execute-remembering sqlite arithmetic clock env settings 7 goal world (tt, tt) tt

memory_service-IsBestEffort_example :
    IsBestEffort (memory_service sqlite arithmetic broken_clock env settings)
memory_service-IsBestEffort_example =
    memory_service-IsBestEffort sqlite arithmetic broken_clock env settings

-- Where the database fails, the lessons are empty, and the recall itself raises.
recall_broken :
    ((service_recall sqlite arithmetic broken_clock env settings 7 goal world).0 ≡ ok [])
    × ((try_recall sqlite arithmetic broken_clock env settings 7 goal world).0
        ≡ err (unexpected (codes "database is locked")))
unfolding service_recall try_recall reach_database tick
recall_broken = (refl, refl)

abbrev repeated : ℕ → ℕ → Text
repeated ℕ.zero c = []
repeated (ℕ.suc n) c = c ∷ repeated n c

abbrev two_lessons : List ScoredMemory
two_lessons = scored_memory 1 (repeated 200 b'a') ∷ scored_memory 2 (repeated 200 b'b') ∷ []

-- The second lesson has room for one character, and gets two.
one_too_many :
    total_chars (select_within_budget python arithmetic 2 161 (finite (pos 0)) two_lessons) ≡ 162
unfolding select_within_budget strip
one_too_many = refl

select_within_budget-IsWithin_example :
    let out = select_within_budget python arithmetic 2 161 (finite (pos 0)) two_lessons in
    (length out ≤ 2)
    × (total_chars out ≤ 161 + 1)
    × All (λ m. (0 < length m.lesson) × (length m.lesson ≤ max (161 / 2) 160)) out
select_within_budget-IsWithin_example =
    select_within_budget-IsWithin python arithmetic 2 161 (finite (pos 0)) two_lessons

select_within_budget-IsVaried_example :
    IsVaried python arithmetic
      (select_within_budget python arithmetic 2 161 (finite (pos 0)) two_lessons)
select_within_budget-IsVaried_example =
    select_within_budget-IsVaried python arithmetic 2 161 (finite (pos 0)) two_lessons

select_within_budget-filter_example :
    select_within_budget python arithmetic 2 161 (finite (pos 60)) two_lessons
    ≡ select_within_budget python arithmetic 2 161
        (finite (pos 60))
        (filter (λ c. c.memory.pinned || leb_float (finite (pos 60)) c.relevance) two_lessons)
select_within_budget-filter_example =
    select_within_budget-filter python arithmetic 2 161 (finite (pos 60)) two_lessons

abbrev one_memory : Database
one_memory = record database { memories = remembered 1 7 (codes "Add.") ∷ [] }

abbrev new_memory : MemoryRecord
new_memory = record {
  run_id = some 7;
  goal = goal;
  outcome = done;
  summary = codes "Added again.";
  lessons = codes "Add twice.";
  tools_used = [];
  task_count = 1;
  source = heuristic;
}

one_memory-IsOwned : IsOwned one_memory
one_memory-IsOwned r = ground arith

create_memory-IsOwned_example :
    IsOwned (create_memory arithmetic 2 50 new_memory one_memory).1
    × ((o : ℕ)
        → some 7 ≡ some o
        → memories_of o (create_memory arithmetic 2 50 new_memory one_memory).1.memories ≡ 1)
create_memory-IsOwned_example =
    create_memory-IsOwned arithmetic 2 50 new_memory one_memory one_memory-IsOwned

-- The run as `create_run` leaves it.
abbrev begun : World
begun = record world { db = (emit_to 7 run_created end world.db).1 }

execute-Extends_example :
    Extends begun.db.events
      (execute env settings (memory_service sqlite arithmetic clock env settings) 7 goal begun).1
execute-Extends_example =
    execute-Extends env settings (memory_service sqlite arithmetic clock env settings)
      (memory_service-IsBestEffort sqlite arithmetic clock env settings) 7 goal begun

stream_answer-Streams_example :
    Streams 7
      (codes "a  b")
      begun
      (stream_answer env settings no_memory 7 goal (codes "a  b") begun)
stream_answer-Streams_example =
    stream_answer-Streams env settings no_memory 7 goal (codes "a  b") begun
