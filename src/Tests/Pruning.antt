-- ===== src/Tests/Pruning.antt =====
-- Pruning three memories, one of them pinned, to one.
use atlas_the_agent.Base.{◌≡◌, ◌≤◌, refl, max, true, [], ◌∷◌, codes, filter, length}
use atlas_the_agent.Persistence.Tables.{update_where, Database}
use atlas_the_agent.Persistence.Memories.{is_active}
use atlas_the_agent.Persistence.Memories.Retention.{
  retention_key, count_active, insert_retained, by_retention, evicted, prune,
}
use atlas_the_agent.Persistence.Memories.Pruned.{is_pinned, prune-IsBounded, filter-pinned-prune}
use atlas_the_agent.Tests.Fixtures.{arithmetic, database, remembered}

abbrev full : Database
full = record database {
  memories =
      (remembered 1 1 (codes "a"))
      ∷ (record (remembered 2 2 (codes "b")) { pinned = true })
      ∷ (remembered 3 3 (codes "c"))
      ∷ [];
}

prune-IsBounded_example :
    length (filter is_active (prune arithmetic 1 1 5 full).1.memories)
    ≤ max 1 (length (filter is_pinned full.memories))
prune-IsBounded_example =
    prune-IsBounded arithmetic 5 1 1 full (((refl, (refl, tt)), ((refl, tt), (tt, tt))))

filter-pinned-prune_example :
    filter is_pinned (prune arithmetic 1 1 5 full).1.memories ≡ filter is_pinned full.memories
filter-pinned-prune_example =
    filter-pinned-prune arithmetic 5 1 1 full (((refl, (refl, tt)), ((refl, tt), (tt, tt))))

two_expired : length (filter is_active (prune arithmetic 1 1 5 full).1.memories) ≡ 1
unfolding prune evicted by_retention insert_retained count_active retention_key update_where
two_expired = refl
