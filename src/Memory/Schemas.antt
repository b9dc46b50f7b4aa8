-- ===== src/Memory/Schemas.antt =====
-- backend/atlas/memory/schemas.py. A memory id is `mem_` and 24 hexadecimal digits, so it is a
-- number; a time is a number of microseconds.
use atlas_the_agent.Base.{ℕ, Bool, true, false, Option, List, Text, String}
use atlas_the_agent.Core.Json.{Float}

pub data MemoryOutcome : Type 0 where
  done partial failed cancelled : MemoryOutcome

-- the value of the `StrEnum` member
abbrev pub outcome_value : MemoryOutcome → String
outcome_value done = "done"
outcome_value partial = "partial"
outcome_value failed = "failed"
outcome_value cancelled = "cancelled"

abbrev pub is_done : MemoryOutcome → Bool
is_done done = true
is_done _ = false

pub data MemorySource : Type 0 where
  synthesized heuristic : MemorySource

abbrev pub source_value : MemorySource → String
source_value synthesized = "synthesized"
source_value heuristic = "heuristic"

pub data MemoryStatus : Type 0 where
  active expired : MemoryStatus

abbrev pub same_status : MemoryStatus → MemoryStatus → Bool
same_status active active = true
same_status expired expired = true
same_status _ _ = false

pub record MemoryRecord : Type 0 where
  pub run_id : Option ℕ
  pub goal : Text
  pub outcome : MemoryOutcome
  pub summary : Text
  pub lessons : Text
  pub tools_used : List Text
  pub task_count : ℕ
  pub source : MemorySource

-- A row of the table `memories`, which is what `MemoryRepository.to_view` shows of it too.
pub record MemoryView : Type 0 where
  pub id : ℕ
  pub run_id : Option ℕ
  pub goal : Text
  pub outcome : MemoryOutcome
  pub success : Bool
  pub summary : Text
  pub lessons : Text
  pub tools_used : List Text
  pub task_count : ℕ
  pub source : MemorySource
  pub salience : Float
  pub use_count : ℕ
  pub last_recalled_at : Option ℕ
  pub pinned : Bool
  pub status : MemoryStatus
  pub created_at : ℕ
  pub updated_at : ℕ

pub record RecalledMemory : Type 0 where
  pub memory : MemoryView
  pub score : Float
  pub lesson : Text
