-- ===== src/Persistence/Memories/Pruned.antt =====
-- What `prune` leaves of the active memories.
mod Ids
use atlas_the_agent.Base.{
  ℕ, ◌+◌, ◌-◌, ◌≤◌, max, min, suc, ◌≡◌, refl, ap, ◌∙◌, Bool, true, false, not, ◌&&◌, Bool-cases,
  inl, inr, List, [], ◌∷◌, All, All-mono, All-filter, All-kept, All-take, any, filter, map, take,
  length, length-take, ◌==◌, if◌then◌else◌, arith,
}
use atlas_the_agent.Core.Arithmetic.{Arithmetic}
use atlas_the_agent.Memory.Schemas.{MemoryView, expired}
use atlas_the_agent.Persistence.Tables.{Database, update_where}
use atlas_the_agent.Persistence.Memories.{is_active}
use atlas_the_agent.Persistence.Memories.Retention.{
  is_stale, by_retention, count_active, evicted, prune,
}
use atlas_the_agent.Persistence.Memories.Retained.{
  All-by_retention, by_retention-IsKeyed, length-by_retention,
}
use atlas_the_agent.Persistence.Memories.Counted.{
  held_other, is_loose, IsKeyed, IsDistinct, IsHeld, count_kept-add, count-expired,
}
pub use atlas_the_agent.Persistence.Memories.Pruned.Ids.{is_pinned, unpinned-All, pinned_is_fresh}
use atlas_the_agent.Persistence.Memories.Pruned.Ids.{
  length-filter-pinned, length-filter_twice, filter-IsKeyed, filter-IsHeld, All-ids, ids-IsDistinct,
  take-IsKeyed,
}

abbrev pub expire_row : Bool → ℕ → MemoryView → MemoryView
expire_row b now m = if b then record m { status = expired; updated_at = now } else m

unpinned_row :
    (b : Bool) (now : ℕ) (m : MemoryView)
    → is_pinned m ≡ false
    → is_pinned (expire_row b now m) ≡ false
unpinned_row true now m h = refl
unpinned_row false now m h = h

filter-pinned_skip :
    (q : MemoryView → Bool) (m : MemoryView) (ms : List MemoryView)
    → is_pinned m ≡ false
    → filter is_pinned (filter q (m ∷ ms)) ≡ filter is_pinned (filter q ms)
filter-pinned_skip q m ms h = elim (Bool-cases (q m)) [
  | inl e ↦ rw e (rw h refl)
  | inr e ↦ rw e refl
]

-- Rows that are not picked, and not expired before, come through the update and the deletion.
filter-pinned :
    (ar : Arithmetic) (is : List ℕ) (days now : ℕ) (ms : List MemoryView)
    → All (λ m. is_pinned m ≡ true → any (λ i. m.id == i) is ≡ false) ms
    → filter is_pinned (
        filter
          (λ m. not (is_stale ar days now m))
          (update_where
            (λ m. any (λ i. m.id == i) is)
            (λ m. record m { status = expired; updated_at = now })
            ms))
      ≡ filter is_pinned ms
unfolding update_where
filter-pinned ar is days now [] h = refl
filter-pinned ar is days now (m ∷ ms) h = elim (Bool-cases (is_pinned m)) [
  | inl p ↦ rw (h.0 p) (
      rw (pinned_is_fresh ar days now m p)
        (rw p (ap (λ l. m ∷ l) (filter-pinned ar is days now ms h.1))))
  | inr p ↦ rw p (
      filter-pinned_skip (λ n. not (is_stale ar days now n))
        (expire_row (any (λ i. m.id == i) is) now m)
        (update_where (λ m. any (λ i. m.id == i) is)
          (λ m. record m { status = expired; updated_at = now }) ms)
        (unpinned_row (any (λ i. m.id == i) is) now m p)
      ∙ filter-pinned ar is days now ms h.1)
]

length-map_id : (ms : List MemoryView) → length (map (λ m. m.id) ms) ≡ length ms
length-map_id [] = refl
length-map_id (m ∷ ms) = omega (arith, length-map_id ms)

module _ (ar : Arithmetic) (now : ℕ) where
  module _ (max_records expiry_days : ℕ) (db : Database) (keyed : IsKeyed db.memories) where
    evicted-IsDistinct : IsDistinct (evicted ar max_records now db)
    unfolding evicted
    evicted-IsDistinct =
        ids-IsDistinct
          (take (count_active ar db - max_records)
            (by_retention ar now (filter is_loose db.memories)))
          (take-IsKeyed (count_active ar db - max_records)
            (by_retention ar now (filter is_loose db.memories))
            (by_retention-IsKeyed ar now (filter is_loose db.memories)
              (filter-IsKeyed is_loose db.memories keyed)))

    pub evicted-IsHeld : All (λ i. IsHeld i db.memories) (evicted ar max_records now db)
    unfolding evicted
    evicted-IsHeld =
        let least = by_retention ar now (filter is_loose db.memories) in
        let n = count_active ar db - max_records in
        All-ids (λ i. IsHeld i db.memories) (take n least)
          (All-take (λ m. IsHeld m.id db.memories) n least
            (All-by_retention ar now (λ m. IsHeld m.id db.memories) (filter is_loose db.memories)
              (filter-IsHeld db.memories)))

    length-evicted :
        length (evicted ar max_records now db)
        ≡ min
            (length (filter is_active db.memories) - max_records)
            (length (filter is_loose db.memories))
    unfolding evicted count_active
    length-evicted =
        let least = by_retention ar now (filter is_loose db.memories) in
        let n = count_active ar db - max_records in
        length-map_id (take n least)
        ∙ length-take n least
        ∙ ap (min n) (length-by_retention ar now (filter is_loose db.memories))

    -- After `prune`, with ids that are all different, at most `max_records` memories are active, or as
    -- many as are pinned where that is more.
    pub prune-IsBounded :
        length (filter is_active (prune ar max_records expiry_days now db).1.memories)
        ≤ max max_records (length (filter is_pinned db.memories))
    unfolding prune
    prune-IsBounded =
        let gone = evicted ar max_records now db in
        omega (
          arith,
          length-filter_twice (λ m. not (is_stale ar expiry_days now m))
              (update_where (λ m. any (λ i. m.id == i) gone)
                (λ m. record m { status = expired; updated_at = now }) db.memories),
          count-expired gone now db.memories,
          count_kept-add gone db.memories keyed evicted-IsDistinct evicted-IsHeld,
          length-evicted,
          length-filter-pinned db.memories,
        )

    -- `prune` leaves every pinned memory that is active as it was.
    pub filter-pinned-prune :
        filter is_pinned (prune ar max_records expiry_days now db).1.memories
        ≡ filter is_pinned db.memories
    unfolding prune
    filter-pinned-prune =
        filter-pinned ar (evicted ar max_records now db) expiry_days now db.memories
          (unpinned-All (evicted ar max_records now db) db.memories keyed evicted-IsHeld)
