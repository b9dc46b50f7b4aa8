-- ===== src/Persistence/Memories/Retention.antt =====
-- How long `MemoryRepository` of backend/atlas/persistence/repositories.py keeps a memory: `prune`.
use atlas_the_agent.Base.{
  ℕ, ◌-◌, ◌*◌, Bool, ◌&&◌, not, none, some, List, [], ◌∷◌, map, any, filter, length, take, ltb,
  ◌==◌, if◌then◌else◌,
}
use atlas_the_agent.Core.Json.{Float, ltb_float}
use atlas_the_agent.Core.Arithmetic.{Arithmetic}
use atlas_the_agent.Memory.Schemas.{expired, same_status, MemoryView}
use atlas_the_agent.Persistence.Tables.{Database, update_where}
use atlas_the_agent.Persistence.Memories.{is_active}

module _ (ar : Arithmetic) where
  abbrev last_use : MemoryView → ℕ
  last_use m = elim m.last_recalled_at [ none ↦ m.created_at | some t ↦ t ]

  -- `_retention_key`
  unfoldable pub retention_key : ℕ → MemoryView → Float
  retention_key now m =
      let days =
        ar.over (ar.minus (ar.timestamp now) (ar.timestamp (last_use m))) (ar.literal "86400.0") in
      let zero = ar.literal "0.0" in
      ar.minus m.salience
        (ar.times (ar.literal "0.01") (if ltb_float zero days then days else zero))

  unfoldable pub insert_retained : ℕ → MemoryView → List MemoryView → List MemoryView
  unfolding retention_key
  insert_retained now m [] = m ∷ []
  insert_retained now m (n ∷ ns) =
      let later = insert_retained now m ns in
      if ltb_float (retention_key now n) (retention_key now m) then n ∷ later else m ∷ n ∷ ns

  -- `candidates.sort(key=…)`
  unfoldable pub by_retention : ℕ → List MemoryView → List MemoryView
  unfolding insert_retained
  by_retention now [] = []
  by_retention now (m ∷ ms) = insert_retained now m (by_retention now ms)

  unfoldable pub count_active : Database → ℕ
  count_active db = length (filter is_active db.memories)

  -- The rows that `prune` soft-expires.
  unfoldable pub evicted : ℕ → ℕ → Database → List ℕ
  unfolding by_retention count_active
  evicted max_records now db =
      map (λ m. m.id)
        (take (count_active db - max_records)
          (by_retention now (filter (λ m. is_active m && not m.pinned) db.memories)))

  -- Soft-deleted before the cutoff; a time is never negative.
  abbrev pub is_stale : ℕ → ℕ → MemoryView → Bool
  is_stale expiry_days now m =
      same_status m.status expired && ltb m.updated_at (now - expiry_days * 86400000000)

  unfoldable pub prune : ℕ → ℕ → ℕ → Database → List ℕ × Database
  unfolding evicted
  prune max_records expiry_days now db =
      let gone = evicted max_records now db in
      let ms =
        update_where (λ m. any (λ i. m.id == i) gone)
          (λ m. record m { status = expired; updated_at = now }) db.memories in
      (gone, record db { memories = filter (λ m. not (is_stale expiry_days now m)) ms })
