-- ===== src/Recovery/Replay.antt =====
-- backend/atlas/recovery/replay.py: derived state as a fold of the ledger.
pub mod Tasks
use text.Mathlib.Text.{◌==◌ as str_eq}
use atlas_the_agent.Base.{
  ℕ, ◌+◌, Bool, true, false, ◌&&◌, String, Option, none, some, List, [], ◌∷◌, ◌++◌, Text, ◌==◌,
  is_empty, if◌then◌else◌,
}
use atlas_the_agent.Core.Json.{
  ℤ, pos, negsuc, finite, Json, null, bool, int, float, str, arr, obj, Items, nil, cons, Fields,
  get,
}
use atlas_the_agent.Core.Python.{Python}
use atlas_the_agent.Events.Types.{Event, value}
use atlas_the_agent.Agent.Schemas.{RunStatus, TaskStatus}
use atlas_the_agent.Agent.Fields.{◌>>=◌}
pub use atlas_the_agent.Recovery.Replay.Tasks.{
  ReplayTask, Checklist, same_int, put_task, str_or_none, put_item, put_items, put_plan,
}
unfoldable pub use atlas_the_agent.Recovery.Replay.Tasks.{mark_task}

-- What `_unpack` reads of an `Event`, or of a plain dict; a dict may lack the `seq`.
pub record Item : Type 0 where
  pub type : String
  pub payload : Fields
  pub seq : Option ℕ

abbrev pub unpack : Event → Item
unpack e = record { type = value e.type; payload = e.payload; seq = some e.seq }

-- `_TERMINAL_EVENT_STATUS`
abbrev pub terminal_status : String → Option RunStatus
terminal_status type =
    if str_eq type "run.completed"
    then some RunStatus.done
    else if str_eq type "run.failed"
    then some RunStatus.failed
    else if str_eq type "run.cancelled"
    then some RunStatus.cancelled
    else none

-- `_TASK_EVENT_STATUS`
abbrev pub task_status : String → Option TaskStatus
task_status type =
    if str_eq type "task.started"
    then some TaskStatus.running
    else if str_eq type "task.completed"
    then some TaskStatus.done
    else if str_eq type "task.failed"
    then some TaskStatus.failed
    else if str_eq type "task.retrying"
    then some TaskStatus.retrying
    else if str_eq type "task.skipped"
    then some TaskStatus.skipped
    else if str_eq type "task.cancelled"
    then some TaskStatus.cancelled
    else none

pub record ReplayState : Type 0 where
  pub status : RunStatus
  pub answer : Option Text
  pub error : Option Text
  pub tasks : Checklist
  pub answer_tokens : List Text
  pub terminal : Bool

abbrev pub start : ReplayState
start = record {
  status = RunStatus.created;
  answer = none;
  error = none;
  tasks = [];
  answer_tokens = [];
  terminal = false;
}

unfoldable pub is_partial : ReplayState → Bool
is_partial st =
    (elim st.status [ RunStatus.failed ↦ true | _ ↦ false ])
    && (elim st.answer [ none ↦ false | some a ↦ true ])

abbrev or_old : Option Text → Option Text → Option Text
or_old none old = old
or_old (some a) old = some a

-- The output that a task event writes: that of `task.completed`, else the old one.
abbrev new_output : String → Fields → Option Text → Option Text
new_output type payload old =
    if str_eq type "task.completed" then str_or_none (get payload "output") else old

-- `index is not None`
abbrev pub on_index : ReplayState → (Json → Option ReplayState) → Option Json → Option ReplayState
on_index st next none = some st
on_index st next (some null) = some st
on_index st next (some j) = next j

-- `state.tasks.setdefault(…)` and the writes to the task.
abbrev pub put_status : TaskStatus → Item → ReplayState → ℤ → Option ReplayState
put_status s e st i =
    some (record st { tasks = mark_task i s (new_output e.type e.payload) st.tasks })

abbrev pub apply_task_event : Python → TaskStatus → Item → ReplayState → Option ReplayState
apply_task_event py s e st =
    on_index st (λ j. py.int_of j >>= put_status s e st) (get e.payload "index")

abbrev pub push_token : Option Text → ReplayState → ReplayState
push_token none st = st
push_token (some t) st = record st { answer_tokens = st.answer_tokens ++ t ∷ [] }

abbrev pub apply_answer_event : Item → ReplayState → ReplayState
apply_answer_event e st =
    if str_eq e.type "answer.token"
    then push_token (str_or_none (get e.payload "text")) st
    else if str_eq e.type "answer.completed"
    then record st { answer = or_old (str_or_none (get e.payload "text")) st.answer }
    else st

-- `run.failed` replaces the error, by `None` if its payload has no text.
abbrev terminal_error : Item → Option Text → Option Text
terminal_error e old =
    if str_eq e.type "run.failed" then str_or_none (get e.payload "error") else old

abbrev pub plan_event : Python → Item → ReplayState → Option ReplayState
plan_event py e st = do
  tasks ← put_plan py (get e.payload "tasks") st.tasks
  some (record st { tasks = tasks })

-- One round of the loop of `fold_events`.
unfoldable pub apply_event : Python → Item → ReplayState → Option ReplayState
unfolding put_plan mark_task
apply_event py e st =
    if str_eq e.type "run.created"
    then some (record st { status = RunStatus.created })
    else if str_eq e.type "run.started"
    then some (record st { status = RunStatus.running })
    else (elim (terminal_status e.type) [
      | some s ↦ some (record st { status = s; terminal = true; error = terminal_error e st.error })
      | none ↦
          if str_eq e.type "plan.created"
          then plan_event py e st
          else if str_eq e.type "plan.replanned"
          then plan_event py e st
          else (elim (task_status e.type) [
            | some s ↦ apply_task_event py s e st
            | none ↦ some (apply_answer_event e st)
          ])
    ])

-- The loop, from a state on.
unfoldable pub fold_from : Python → ReplayState → List Item → Option ReplayState
unfolding apply_event
fold_from py st [] = some st
fold_from py st (e ∷ es) = do st' ← apply_event py e st; fold_from py st' es

-- `"".join(tokens)`
unfoldable pub concat : List Text → Text
concat [] = []
concat (t ∷ ts) = t ++ concat ts

-- Without an explicit completion the tokens are the answer.
abbrev pub join_tokens : ReplayState → ReplayState
join_tokens st = record st {
  answer =
      or_old st.answer (if is_empty st.answer_tokens then none else some (concat st.answer_tokens));
}

-- `fold_events`; `none` where a payload makes it raise.
unfoldable pub fold_events : Python → List Item → Option ReplayState
unfolding fold_from concat
fold_events py es = do st ← fold_from py start es; some (join_tokens st)

-- The sequence numbers that are there.
unfoldable pub seqs : List Item → List ℕ
seqs [] = []
seqs (e ∷ es) = elim e.seq [ none ↦ seqs es | some n ↦ n ∷ seqs es ]

-- `seqs == list(range(n, n + len(seqs)))`
unfoldable pub counts_from : ℕ → List ℕ → Bool
counts_from n [] = true
counts_from n (m ∷ ms) = m == n && counts_from (n + 1) ms

unfoldable pub sequence_is_intact : List Item → Bool
unfolding seqs counts_from
sequence_is_intact es = counts_from 1 (seqs es)
