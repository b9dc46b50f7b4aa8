-- ===== src/Persistence/Tasks/Status.antt =====
-- Which tasks of a run are in flight and which are pending, under every write to the table.
use atlas_the_agent.Base.{
  ℕ, ◌≡◌, Bool, true, false, not, ◌&&◌, Option, List, [], ◌∷◌, All, All-mono, Bool-cases, inl, inr,
  Text, ◌==◌, arith,
}
use atlas_the_agent.Agent.Schemas.{TaskStatus, is_pending, is_busy, TaskId, same_id, TaskView}
use atlas_the_agent.Persistence.Tables.{Database, update_where}
use atlas_the_agent.Persistence.Tasks.{set_task, in_ids, bulk_skip, set_attempt_count}

abbrev pub busy_here : ℕ → TaskView → Bool
busy_here r t = t.run_id == r && is_busy t.status

-- No task of the run is in flight.
abbrev pub IsIdle : ℕ → List TaskView → Type 0
IsIdle r ts = All (λ t. busy_here r t ≡ false) ts

-- No task of the run but `x` is in flight.
abbrev pub Flies : ℕ → TaskId → List TaskView → Type 0
Flies r x ts = All (λ t. (busy_here r t && not (same_id t.id x)) ≡ false) ts

abbrev pub pending_outside : ℕ → List TaskId → TaskView → Bool
pending_outside r ids t = t.run_id == r && (is_pending t.status && not (in_ids ids t.id))

-- Every pending task of the run is one of `ids`.
abbrev pub PendingIn : ℕ → List TaskId → List TaskView → Type 0
PendingIn r ids ts = All (λ t. pending_outside r ids t ≡ false) ts

-- The turn of the task `x`, with `rest` still to come.
abbrev pub InTurn : ℕ → TaskId → List TaskId → List TaskView → Type 0
InTurn r x rest ts = Flies r x ts × PendingIn r (x ∷ rest) ts

-- Between two turns.
abbrev pub IsReady : ℕ → List TaskId → List TaskView → Type 0
IsReady r ids ts = IsIdle r ts × PendingIn r ids ts

-- Every task of the run has ended.
abbrev pub IsSettled : ℕ → List TaskView → Type 0
IsSettled r ts = IsReady r [] ts

pub All-update {ℓ κ} :
    {A : Type ℓ} (P Q : A → Type κ) (p : A → Bool) (f : A → A) (xs : List A)
    → ((x : A) → p x ≡ true → P x → Q (f x))
    → ((x : A) → p x ≡ false → P x → Q x)
    → All P xs
    → All Q (update_where p f xs)
unfolding update_where
All-update P Q p f [] hit miss h = tt
All-update P Q p f (x ∷ xs) hit miss h = elim (Bool-cases (p x)) [
  | inl e ↦ rw e (hit x e h.0, All-update P Q p f xs hit miss h.1)
  | inr e ↦ rw e (miss x e h.0, All-update P Q p f xs hit miss h.1)
]

-- A status that is neither pending nor in flight.
abbrev pub is_over : TaskStatus → Bool
is_over s = not (is_pending s) && not (is_busy s)

module _ (r : ℕ) where
  pub IsReady→InTurn :
      (x : TaskId) (rest : List TaskId) (ts : List TaskView)
      → IsReady r (x ∷ rest) ts
      → InTurn r x rest ts
  IsReady→InTurn x rest ts (idle, pend) = (All-mono _ _ ts (λ t h. ground (arith, h)) idle, pend)

  -- No task is in flight once the one that was has a final status.
  pub set_task-IsIdle :
      (x : TaskId) (d : Database) (s : TaskStatus) (output error : Option Text)
      → is_over s ≡ true
      → Flies r x d.tasks
      → IsIdle r (set_task x s output error d).tasks
  unfolding set_task
  set_task-IsIdle x d s output error over fly =
      All-update _ _ _ _ d.tasks (λ t e h. ground (arith, over)) (λ t e h. ground (arith, e, h)) fly

  module _ (x : TaskId) (rest : List TaskId) (d : Database) where
    -- The task's turn ends when its row is given a final status.
    pub set_task-over :
        (s : TaskStatus) (output error : Option Text)
        → is_over s ≡ true
        → InTurn r x rest d.tasks
        → IsReady r rest (set_task x s output error d).tasks
    unfolding set_task
    set_task-over s output error over (fly, pend) = (
      All-update _ _ _ _ d.tasks (λ t e h. ground (arith, over)) (λ t e h. ground (arith, e, h))
          fly,
      All-update _ _ _ _ d.tasks (λ t e h. ground (arith, over)) (λ t e h. ground (arith, e, h))
          pend,
    )

    pub set_task-busy :
        (s : TaskStatus) (output error : Option Text)
        → is_pending s ≡ false
        → InTurn r x rest d.tasks
        → InTurn r x rest (set_task x s output error d).tasks
    unfolding set_task
    set_task-busy s output error live (fly, pend) = (
      All-update _ _ _ _ d.tasks (λ t e h. ground (arith, e)) (λ t e h. h) fly,
      All-update _ _ _ _ d.tasks (λ t e h. ground (arith, live)) (λ t e h. h) pend,
    )

    pub set_attempt_count-InTurn :
        (n : ℕ) → InTurn r x rest d.tasks → InTurn r x rest (set_attempt_count x n d).tasks
    unfolding set_attempt_count
    set_attempt_count-InTurn n (fly, pend) = (
      All-update _ _ _ _ d.tasks (λ t e h. h) (λ t e h. h) fly,
      All-update _ _ _ _ d.tasks (λ t e h. h) (λ t e h. h) pend,
    )

    -- Skipping the task in flight with all that are still to come leaves nothing open.
    pub bulk_skip-settles : InTurn r x rest d.tasks → IsSettled r (bulk_skip (x ∷ rest) d).tasks
    unfolding bulk_skip
    bulk_skip-settles (fly, pend) = (
      All-update _ _ _ _ d.tasks (λ t e h. ground arith) (λ t e h. ground (arith, e, h)) fly,
      All-update _ _ _ _ d.tasks (λ t e h. ground arith) (λ t e h. ground (arith, e, h)) pend,
    )
