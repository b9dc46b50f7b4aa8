-- ===== src/Events/Types.antt =====
-- backend/atlas/events/types.py
use atlas_the_agent.Base.{ℕ, String}
use atlas_the_agent.Core.Json.{Fields}

pub data EventType : Type 0 where
  run_created run_started run_completed run_failed run_cancelled : EventType
  answer_token answer_completed : EventType
  log : EventType
  thought tool_call tool_result : EventType
  plan_created task_started task_completed task_failed : EventType
  task_reflected task_retrying task_skipped task_cancelled : EventType
  plan_replanned budget_exceeded : EventType
  memory_recalled memory_written : EventType

-- the value of the `StrEnum` member
abbrev pub value : EventType → String
value run_created = "run.created"
value run_started = "run.started"
value run_completed = "run.completed"
value run_failed = "run.failed"
value run_cancelled = "run.cancelled"
value answer_token = "answer.token"
value answer_completed = "answer.completed"
value log = "log"
value thought = "thought"
value tool_call = "tool.call"
value tool_result = "tool.result"
value plan_created = "plan.created"
value task_started = "task.started"
value task_completed = "task.completed"
value task_failed = "task.failed"
value task_reflected = "task.reflected"
value task_retrying = "task.retrying"
value task_skipped = "task.skipped"
value task_cancelled = "task.cancelled"
value plan_replanned = "plan.replanned"
value budget_exceeded = "budget.exceeded"
value memory_recalled = "memory.recalled"
value memory_written = "memory.written"

-- One row of the ledger; `ts` is not modelled.
pub record Event : Type 0 where
  pub run_id : ℕ
  pub seq : ℕ
  pub type : EventType
  pub payload : Fields
