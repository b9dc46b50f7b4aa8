-- ===== src/Tests/Routed.antt =====
-- The routes of memories on a small database.
use atlas_the_agent.Base.{◌≡◌, refl, true, if◌then◌else◌, ◌==◌, [], ◌∷◌, codes}
use atlas_the_agent.Memory.Schemas.{MemoryView}
use atlas_the_agent.Persistence.Tables.{Database}
use atlas_the_agent.Persistence.Memories.{pin_row, set_pinned, find_memory}
use atlas_the_agent.Persistence.Memories.Retention.{prune}
use atlas_the_agent.Persistence.Memories
use atlas_the_agent.Api.Routes.{
  body, memory_not_found, if_found, get_memory, pin_memory, delete_memory,
}
use atlas_the_agent.Api.Routes.Kept.{get_memory-prune, get_memory-delete_memory}
use atlas_the_agent.Tests.Fixtures.{arithmetic, database, remembered}

abbrev two : Database
two = record database {
  memories = (remembered 1 1 (codes "a")) ∷ (remembered 2 2 (codes "b")) ∷ [];
}

abbrev kept : MemoryView
kept = pin_row true 5 (remembered 2 2 (codes "b"))

get_memory-prune_example :
    get_memory 2 (prune arithmetic 0 1 9 (pin_memory 2 true 5 two).1).1 ≡ body kept
unfolding pin_memory set_pinned find_memory
get_memory-prune_example =
    get_memory-prune arithmetic 2 5 two ((refl, tt), (tt, tt)) 0 1 9 kept refl refl

get_memory-delete_memory_example :
    let left = (delete_memory 1 two).1 in
    ((delete_memory 1 two).0 ≡ if_found memory_not_found (λ m. tt) (Memories.get_memory 1 two))
    × ((delete_memory 1 left).0 ≡ memory_not_found)
    × (get_memory 2 left ≡ (if 2 == 1 then memory_not_found else get_memory 2 two))
get_memory-delete_memory_example = get_memory-delete_memory 1 two 2
