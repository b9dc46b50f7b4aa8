-- ===== src/Agent/Schemas.antt =====
-- backend/atlas/agent/schemas.py. Run ids are `uuid4().hex`, 32 hexadecimal digits, so they are
-- numbers; timestamps are not modelled.
use atlas_the_agent.Base.{ℕ, ◌≡◌, Bool, true, false, ◌&&◌, Option, List, Text, arith, ◌==◌}
use atlas_the_agent.Core.Json.{Float}

pub data RunStatus : Type 0 where
  created planning running paused done failed cancelled : RunStatus

-- `status in TERMINAL_RUN_STATUSES`
abbrev pub is_terminal : RunStatus → Bool
is_terminal done = true
is_terminal failed = true
is_terminal cancelled = true
is_terminal _ = false

pub data TaskStatus : Type 0 where
  pending running retrying done failed skipped cancelled : TaskStatus

abbrev pub is_pending : TaskStatus → Bool
is_pending pending = true
is_pending _ = false

-- Begun and not yet ended: the statuses of a task in flight.
abbrev pub is_busy : TaskStatus → Bool
is_busy running = true
is_busy retrying = true
is_busy _ = false

-- The string `f"{run_id}:{index}"`; a run id has no colon, so the string determines both parts.
pub record TaskId : Type 0 where
  pub run : ℕ
  pub index : ℕ

abbrev pub same_id : TaskId → TaskId → Bool
same_id a b = a.run == b.run && a.index == b.index

pub record PlannedTask : Type 0 where
  pub description : Text
  pub success_criteria : Text
  pub suggested_tool : Option Text

-- A row of the table `tasks`, which is what `TaskRepository.to_view` shows of it too.
pub record TaskView : Type 0 where
  pub id : TaskId
  pub run_id : ℕ
  pub index : ℕ
  pub description : Text
  pub success_criteria : Text
  pub suggested_tool : Option Text
  pub status : TaskStatus
  pub output : Option Text
  pub error : Option Text
  pub attempt_count : ℕ
  pub replan_generation : ℕ
  pub parent_generation : Option ℕ

pub record PriorTaskOutput : Type 0 where
  pub index : ℕ
  pub description : Text
  pub output : Text

pub record TaskContext : Type 0 where
  pub goal : Text
  pub task : TaskView
  pub prior_outputs : List PriorTaskOutput
  pub total_tasks : ℕ
  pub attempt : ℕ
  pub previous_output : Option Text
  pub critique_reason : Option Text

pub data ReflectionDecision : Type 0 where
  accept retry replan abort : ReflectionDecision

pub data ReflectionSource : Type 0 where
  precheck llm degraded : ReflectionSource

pub record ReflectionResult : Type 0 where
  pub decision : ReflectionDecision
  pub reason : Text
  pub confidence : Float
  pub source : ReflectionSource
  pub reflection_version : ℕ

-- The string `f"{task_id}#{attempt_number}"`.
pub record AttemptId : Type 0 where
  pub task : TaskId
  pub number : ℕ

abbrev pub same_attempt : AttemptId → AttemptId → Bool
same_attempt a b = same_id a.task b.task && a.number == b.number

pub record TaskAttemptView : Type 0 where
  pub attempt_id : AttemptId
  pub task_id : TaskId
  pub run_id : ℕ
  pub attempt_number : ℕ
  pub output : Option Text
  pub error : Option Text
  pub reflection_decision : Option ReflectionDecision
  pub reflection_reason : Option Text
  pub reflection_confidence : Option Float
  pub reflection_source : Option ReflectionSource
  pub reflection_version : Option ℕ

pub same_id→eq : (a b : TaskId) → same_id a b ≡ true → a ≡ b
same_id→eq a b h = ground arith

pub same_id_refl : (a : TaskId) → same_id a a ≡ true
same_id_refl a = ground arith
