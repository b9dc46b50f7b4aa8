-- ===== src/Persistence/Memories/Owners.antt =====
-- One memory for each run.
use atlas_the_agent.Base.{
  ℕ, ◌+◌, ◌≤◌, ◌≡◌, refl, subst, ◌<◌, Bool, Bool-cases, Option, none, some, inl, inr, List, [], ◌∷◌,
  ◌++◌, arith, ◌==◌, if◌then◌else◌,
}
use atlas_the_agent.Core.Arithmetic.{Arithmetic}
use atlas_the_agent.Memory.Schemas.{MemoryRecord, MemoryView}
use atlas_the_agent.Persistence.Tables.{Database, update_where}
use atlas_the_agent.Persistence.Memories.{
  create_for, new_row, inserted, upsert, from_run, owned_by, find_memory, refresh, create_memory,
}

-- The number of memories of the run.
abbrev pub memories_of : ℕ → List MemoryView → ℕ
memories_of r [] = 0
memories_of r (m ∷ ms) = let rest = memories_of r ms in if from_run r m then rest + 1 else rest

memories_of-append :
    (r : ℕ) (ms : List MemoryView) (m : MemoryView)
    → memories_of r (ms ++ m ∷ []) ≡ memories_of r ms + (if from_run r m then 1 else 0)
memories_of-append r [] m = ground arith
memories_of-append r (n ∷ ms) m = ground (arith, memories_of-append r ms m)

-- A refreshed row belongs to the run that it belonged to.
memories_of-refresh :
    (r : ℕ) (p : MemoryView → Bool) (d : MemoryRecord) (now : ℕ) (ms : List MemoryView)
    → memories_of r (update_where p (refresh d now) ms) ≡ memories_of r ms
unfolding update_where refresh
memories_of-refresh r p d now [] = refl
memories_of-refresh r p d now (m ∷ ms) = elim (Bool-cases (p m)) [
  | inl e ↦ rw (e, memories_of-refresh r p d now ms) refl
  | inr e ↦ rw (e, memories_of-refresh r p d now ms) refl
]

find_memory-none :
    (r : ℕ) (ms : List MemoryView) → find_memory (from_run r) ms ≡ none → memories_of r ms ≡ 0
unfolding find_memory
find_memory-none r [] e = refl
find_memory-none r (m ∷ ms) e = ground (arith, e, find_memory-none r ms)

find_memory-some :
    (r : ℕ) (ms : List MemoryView) (m : MemoryView)
    → find_memory (from_run r) ms ≡ some m
    → 0 < memories_of r ms
unfolding find_memory
find_memory-some r [] m e = ground (arith, e)
find_memory-some r (n ∷ ms) m e = elim (Bool-cases (from_run r n)) [
  | inl h ↦ rw h (omega arith)
  | inr h ↦ rw h (find_memory-some r ms m (rw h at e))
]

-- A database with at most one memory for each run.
abbrev pub IsOwned : Database → Type 0
IsOwned db = (r : ℕ) → memories_of r db.memories ≤ 1

some_inj : {m n : ℕ} → some m ≡ some n → m ≡ n
some_inj e = grind (arith, e)

module _ (ar : Arithmetic) (id now : ℕ) (d : MemoryRecord) (db : Database) where
  inserted-count :
      (r : ℕ)
      → memories_of r (inserted ar id now d db).1.memories
        ≡ memories_of r db.memories + (if owned_by d.run_id r then 1 else 0)
  inserted-count r = memories_of-append r db.memories (new_row ar id d.run_id now d)

  abbrev count_after : ℕ → Option MemoryView → ℕ → ℕ
  count_after o found r = memories_of r (upsert ar id now d o found db).1.memories

  upsert-IsOwned :
      (o r : ℕ) (found : Option MemoryView)
      → d.run_id ≡ some o
      → find_memory (from_run o) db.memories ≡ found
      → memories_of r db.memories ≤ 1
      → count_after o found r ≤ 1
  unfolding upsert
  upsert-IsOwned o r none e f h = elim (Bool-cases (o == r)) [
    | inl same ↦ ground (arith, inserted-count r, e, same, find_memory-none o db.memories f)
    | inr other ↦ ground (arith, inserted-count r, e, other, h)
  ]
  upsert-IsOwned o r (some m) e f h =
      ground (arith, h, memories_of-refresh r (from_run o) d now db.memories)

  upsert-one :
      (o : ℕ) (found : Option MemoryView)
      → d.run_id ≡ some o
      → find_memory (from_run o) db.memories ≡ found
      → memories_of o db.memories ≤ 1
      → count_after o found o ≡ 1
  unfolding upsert
  upsert-one o none e f h = ground (arith, inserted-count o, e, find_memory-none o db.memories f)
  upsert-one o (some m) e f h = ground (
    arith,
    h,
    memories_of-refresh o (from_run o) d now db.memories,
    find_memory-some o db.memories m f,
  )

  abbrev put : Option ℕ → Database
  put o = (create_for ar id now d db o).1

  put-IsOwned :
      (o : Option ℕ)
      → d.run_id ≡ o
      → IsOwned db
      → IsOwned (put o) × ((run : ℕ) → o ≡ some run → memories_of run (put o).memories ≡ 1)
  unfolding create_for
  put-IsOwned none e owned =
      (λ r. ground (arith, owned r, e, inserted-count r), λ o h. ground (arith, h))
  put-IsOwned (some run) e owned = (
    λ r. upsert-IsOwned run r (find_memory (from_run run) db.memories) e refl (owned r),
    λ o h.
        subst (λ x. memories_of x (put (some run)).memories ≡ 1) (some_inj h)
          (upsert-one run (find_memory (from_run run) db.memories) e refl (owned run)),
  )

  -- A memory for each run: where every run has at most one memory, it has so after a memory is
  -- created, and the run of that memory, if it is given, has exactly one.
  pub create_memory-IsOwned :
      IsOwned db
      → IsOwned (create_memory ar id now d db).1
        × ((o : ℕ)
            → d.run_id ≡ some o
            → memories_of o (create_memory ar id now d db).1.memories ≡ 1)
  unfolding create_memory
  create_memory-IsOwned owned = put-IsOwned d.run_id refl owned
