-- ===== src/Persistence/Memories.antt =====
-- `MemoryRepository` of backend/atlas/persistence/repositories.py.
pub mod Owners
pub mod Retention
pub mod Counted
pub mod Retained
pub mod Pruned
use atlas_the_agent.Base.{
  ℕ, ◌+◌, ◌-◌, ◌*◌, Bool, true, false, ◌&&◌, ◌||◌, not, Option, none, some, List, [], ◌∷◌, ◌++◌,
  map, Text, String, any, filter, length, take, codes, is_empty, leb, ltb, ◌==◌, if◌then◌else◌,
}
use atlas_the_agent.Core.Json.{Float, ltb_float}
use atlas_the_agent.Core.Arithmetic.{Arithmetic}
use atlas_the_agent.Core.Python.{Python}
use atlas_the_agent.Memory.Schemas.{
  is_done, MemoryStatus, active, expired, same_status, MemoryRecord, MemoryView,
}
use atlas_the_agent.Memory.Tokens.{memory_terms, distinct}
use atlas_the_agent.Persistence.Tables.{Database, update_where}

-- What the repository asks of SQLite: the ids that a full-text query ranks, `none` where the build
-- lacks FTS5, and `lower(column) LIKE '%term%'`.
pub record Sqlite : Type 0 where
  pub match : List MemoryView → Text → ℕ → Option (List ℕ)
  pub is_like : Text → Text → Bool

abbrev pub has_id : ℕ → MemoryView → Bool
has_id i m = m.id == i

abbrev pub is_active : MemoryView → Bool
is_active m = same_status m.status active

-- `MemoryRow.run_id == run_id`
abbrev pub owned_by : Option ℕ → ℕ → Bool
owned_by none r = false
owned_by (some o) r = o == r

abbrev pub from_run : ℕ → MemoryView → Bool
from_run r m = owned_by m.run_id r

unfoldable pub find_memory : (MemoryView → Bool) → List MemoryView → Option MemoryView
find_memory p [] = none
find_memory p (m ∷ ms) = if p m then some m else find_memory p ms

-- The fields of the row that `create` writes, new or old.
unfoldable pub refresh : MemoryRecord → ℕ → MemoryView → MemoryView
refresh r now m = record m {
  goal = r.goal;
  outcome = r.outcome;
  success = is_done r.outcome;
  summary = r.summary;
  lessons = r.lessons;
  tools_used = r.tools_used;
  task_count = r.task_count;
  source = r.source;
  status = active;
  updated_at = now;
}

-- `" OR ".join(f'"{tok}"' for tok in dict.fromkeys(terms))`
unfoldable pub fts_match_query : List Text → Text
fts_match_query [] = []
fts_match_query (t ∷ []) = b'"' ∷ t ++ codes "\""
fts_match_query (t ∷ u ∷ ts) =
    let rest = fts_match_query (u ∷ ts) in b'"' ∷ t ++ (codes "\" OR " ++ rest)

-- `ORDER BY created_at DESC, id DESC`
unfoldable pub insert_recent : MemoryView → List MemoryView → List MemoryView
insert_recent m [] = m ∷ []
insert_recent m (n ∷ ns) =
    let later = insert_recent m ns in
    if ltb n.created_at m.created_at || (n.created_at == m.created_at && leb n.id m.id)
    then m ∷ n ∷ ns
    else n ∷ later

unfoldable pub by_recency : List MemoryView → List MemoryView
unfolding insert_recent
by_recency [] = []
by_recency (m ∷ ms) = insert_recent m (by_recency ms)

-- `rows[n:]`
abbrev pub drop : {A : Type 0} → ℕ → List A → List A
drop ℕ.zero xs = xs
drop (ℕ.suc n) [] = []
drop (ℕ.suc n) (x ∷ xs) = drop n xs

-- `get`
unfoldable pub get_memory : ℕ → Database → Option MemoryView
unfolding find_memory
get_memory i db = find_memory (has_id i) db.memories

unfoldable pub list_recent : ℕ → ℕ → MemoryStatus → Database → List MemoryView
unfolding by_recency
list_recent limit offset s db =
    take limit (drop offset (by_recency (filter (λ m. same_status m.status s) db.memories)))

-- `[by_id[i] for i in ranked_ids if i in by_id]`
unfoldable pub rows_of : List ℕ → List MemoryView → List MemoryView
unfolding find_memory
rows_of [] ms = []
rows_of (i ∷ is) ms =
    let later = rows_of is ms in
    elim (find_memory (has_id i) ms) [ none ↦ later | some m ↦ m ∷ later ]

module _ (sql : Sqlite) (py : Python) where
  abbrev mentions : List Text → MemoryView → Bool
  mentions terms m =
      any (λ t. sql.is_like m.goal t || sql.is_like m.summary t || sql.is_like m.lessons t) terms

  -- `_like_search`; SQL leaves the order of rows of one time open, here it is that of their ids.
  unfoldable pub like_search : List Text → ℕ → Database → List MemoryView
  unfolding by_recency
  like_search terms limit db =
      take limit (by_recency (filter (λ m. is_active m && mentions terms m) db.memories))

  unfoldable pub search : Text → ℕ → Database → List MemoryView
  unfolding memory_terms distinct fts_match_query like_search rows_of
  search goal limit db =
      let terms = memory_terms py goal in
      if is_empty terms || limit == 0
      then []
      else elim (sql.match db.memories (fts_match_query (distinct terms)) limit) [
        | none ↦ like_search terms limit db
        | some ranked ↦ rows_of ranked db.memories
      ]

module _ (ar : Arithmetic) where
  abbrev pub new_row : ℕ → Option ℕ → ℕ → MemoryRecord → MemoryView
  new_row id run_id now r = record {
    id = id;
    run_id = run_id;
    goal = r.goal;
    outcome = r.outcome;
    success = is_done r.outcome;
    summary = r.summary;
    lessons = r.lessons;
    tools_used = r.tools_used;
    task_count = r.task_count;
    source = r.source;
    salience = ar.literal "1.0";
    use_count = 0;
    last_recalled_at = none;
    pinned = false;
    status = active;
    created_at = now;
    updated_at = now;
  }

  abbrev pub inserted : ℕ → ℕ → MemoryRecord → Database → MemoryView × Database
  inserted id now r db =
      let row = new_row id r.run_id now r in (row, record db { memories = db.memories ++ row ∷ [] })

  -- Insert, or refresh the row of the run that was found.
  unfoldable pub upsert :
      ℕ → ℕ → MemoryRecord → ℕ → Option MemoryView → Database → MemoryView × Database
  unfolding refresh
  upsert id now r run none db = inserted id now r db
  upsert id now r run (some m) db = (
    refresh r now m,
    record db { memories = update_where (from_run run) (refresh r now) db.memories },
  )

  unfoldable pub create_for : ℕ → ℕ → MemoryRecord → Database → Option ℕ → MemoryView × Database
  unfolding find_memory upsert
  create_for id now r db none = inserted id now r db
  create_for id now r db (some run) =
      upsert id now r run (find_memory (from_run run) db.memories) db

  -- `create`, where `id` is the new uuid.
  unfoldable pub create_memory : ℕ → ℕ → MemoryRecord → Database → MemoryView × Database
  unfolding create_for
  create_memory id now r db = create_for id now r db r.run_id

  -- `func.min(salience + 0.1, 5.0)`
  abbrev more_salient : Float → Float
  more_salient s =
      let more = ar.plus s (ar.literal "0.1") in
      let cap = ar.literal "5.0" in if ltb_float cap more then cap else more

  unfoldable pub touch_memories : List ℕ → ℕ → Database → Database
  touch_memories ids when db = record db {
    memories =
        update_where (λ m. any (λ i. m.id == i) ids)
          (λ m. record m {
            use_count = m.use_count + 1;
            last_recalled_at = some when;
            salience = more_salient m.salience;
            updated_at = when;
          })
          db.memories;
  }

abbrev pub pin_row : Bool → ℕ → MemoryView → MemoryView
pin_row pinned now m = record m { pinned = pinned; updated_at = now }

-- The write to the row that was found.
abbrev pub pin_found : ℕ → Bool → ℕ → Database → Option MemoryView → Option MemoryView × Database
pin_found i pinned now db none = (none, db)
pin_found i pinned now db (some m) = (
  some (pin_row pinned now m),
  record db { memories = update_where (has_id i) (pin_row pinned now) db.memories },
)

-- `set_pinned`
unfoldable pub set_pinned : ℕ → Bool → ℕ → Database → Option MemoryView × Database
unfolding find_memory
set_pinned i pinned now db = pin_found i pinned now db (find_memory (has_id i) db.memories)

abbrev pub delete_found : ℕ → Database → Option MemoryView → Bool × Database
delete_found i db none = (false, db)
delete_found i db (some m) =
    (true, record db { memories = filter (λ n. not (n.id == i)) db.memories })

-- `delete`
unfoldable pub delete_memory : ℕ → Database → Bool × Database
unfolding find_memory
delete_memory i db = delete_found i db (find_memory (has_id i) db.memories)

-- `purge`
unfoldable pub purge : Database → ℕ × Database
purge db = (length db.memories, record db { memories = [] })
