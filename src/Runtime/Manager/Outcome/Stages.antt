-- ===== src/Runtime/Manager/Outcome/Stages.antt =====
-- The stages of a run: what holds of its tasks and of its budget between two steps.
use atlas_the_agent.Base.{ℕ, suc, ◌≤◌, ◌<◌, ◌≡◌, refl, sym, subst, ◌⊎◌, inl, inr, List, arith}
use atlas_the_agent.Agent.Schemas.{same_id_refl, RunStatus, TaskId, TaskView}
use atlas_the_agent.Persistence.Tables.{RunRow}
use atlas_the_agent.Persistence.Ledger.{append}
use atlas_the_agent.Persistence.Tasks.Status.{IsIdle, IsSettled, InTurn, Flies}
use atlas_the_agent.Runtime.Budget.{
  BudgetCategory, planner, reflection, synthesis, memory, executor, RunBudget, charged,
  charge_model_call, charge_tool_call, charge_retry, charge_replan, retries_left, replans_left,
}
use atlas_the_agent.Runtime.Budget.Counts.{retries_left-charge_retry}
use atlas_the_agent.Recovery.Track.{Phase}
use atlas_the_agent.Recovery.Track.Ledger.{ledger_phase, ledger_phase_calm}
use atlas_the_agent.Runtime.Manager.Settled.{HasStatus, HasEnded, HasStopped}
use atlas_the_agent.Process.{
  Exc, cancelled, replan, run_cancelled, budget_exceeded, planner_error, llm_error, executor_error,
  unexpected, out_of_fuel, World, emit_to,
}
use atlas_the_agent.Process.Keeps.{IsAside}

-- Fewer than `f` replans are left, and no task has more than `R` retries.
pub record Reserve (R f : ℕ) (b : RunBudget) : Type 0 where
  pub retries_capped : b.max_retries ≤ R
  pub replans_below : replans_left b < f

module _ (R f : ℕ) where
  model-Reserve :
      (c : BudgetCategory) (a b : RunBudget)
      → charge_model_call c a ≡ charged b
      → Reserve R f a
      → Reserve R f b
  unfolding charge_model_call replans_left
  model-Reserve planner a b e h = ground arith
  model-Reserve reflection a b e h = ground arith
  model-Reserve synthesis a b e h = ground arith
  model-Reserve memory a b e h = ground arith
  model-Reserve executor a b e h = ground arith

  tool-Reserve : (a b : RunBudget) → charge_tool_call a ≡ charged b → Reserve R f a → Reserve R f b
  unfolding charge_tool_call replans_left
  tool-Reserve a b e h = ground arith

  retry-Reserve : (t : TaskId) (b : RunBudget) → Reserve R f b → Reserve R f (charge_retry t b)
  unfolding charge_retry replans_left
  retry-Reserve t b h = ground arith

  replan-Reserve : (b : RunBudget) → Reserve R f b → Reserve R f (charge_replan b)
  unfolding charge_replan replans_left
  replan-Reserve b h = ground arith

model-retries_left :
    (x : TaskId) (c : BudgetCategory) (a b : RunBudget)
    → charge_model_call c a ≡ charged b
    → retries_left x b ≡ retries_left x a
unfolding charge_model_call retries_left
model-retries_left x planner a b e = ground arith
model-retries_left x reflection a b e = ground arith
model-retries_left x synthesis a b e = ground arith
model-retries_left x memory a b e = ground arith
model-retries_left x executor a b e = ground arith

tool-retries_left :
    (x : TaskId) (a b : RunBudget)
    → charge_tool_call a ≡ charged b
    → retries_left x b ≡ retries_left x a
unfolding charge_tool_call retries_left
tool-retries_left x a b e = ground arith

replan-retries_left :
    (x : TaskId) (b : RunBudget) → retries_left x (charge_replan b) ≡ retries_left x b
unfolding charge_replan retries_left
replan-retries_left x b = refl

-- A predicate on the tables and the phase of a run.
pub phase_aside :
    (r : ℕ) (T : List RunRow → List TaskView → Phase → Type 0)
    → IsAside (λ w. T w.db.runs w.db.tasks (ledger_phase r w.db.events))
unfolding emit_to append
phase_aside r T = record {
  at_emit = λ q type payload w calm h.
      subst (T w.db.runs w.db.tasks) (sym (ledger_phase_calm r q type payload w.db calm)) h;
  at_model = λ c b w e h. h;
  at_tool = λ b w e h. h;
  at_retry = λ t w h. h;
  at_replan = λ w h. h;
  at_tick = λ n w h. h;
  at_memories = λ ms w h. h;
  at_lessons = λ l w h. h;
}

-- A predicate on the tables alone.
pub tables_aside :
    (T : List RunRow → List TaskView → Type 0) → IsAside (λ w. T w.db.runs w.db.tasks)
tables_aside T = phase_aside 0 (λ rs ts p. T rs ts)

-- A predicate on the tables and a reserve.
module _ (T : List RunRow → List TaskView → Type 0) (R f : ℕ) where
  abbrev pub OnTables : World → Type 0
  OnTables w = T w.db.runs w.db.tasks × Reserve R f w.budget

  pub OnTables-aside : IsAside OnTables
  unfolding emit_to append
  OnTables-aside = record {
    at_emit = λ r type payload w e h. h;
    at_model = λ c b w e h. (h.0, model-Reserve R f c w.budget b e h.1);
    at_tool = λ b w e h. (h.0, tool-Reserve R f w.budget b e h.1);
    at_retry = λ t w h. (h.0, retry-Reserve R f t w.budget h.1);
    at_replan = λ w h. (h.0, replan-Reserve R f w.budget h.1);
    at_tick = λ n w h. h;
    at_memories = λ ms w h. h;
    at_lessons = λ l w h. h;
  }

  -- The same in the turn of a task.
  module _ (x : TaskId) (k : ℕ) where
    abbrev pub InStock : World → Type 0
    InStock w = T w.db.runs w.db.tasks × Reserve R f w.budget × (retries_left x w.budget < k)

    pub InStock-aside : IsAside InStock
    unfolding emit_to append
    InStock-aside = record {
      at_emit = λ r type payload w e h. h;
      at_model = λ c b w e h.
          (h.0, model-Reserve R f c w.budget b e h.1, rw (model-retries_left x c w.budget b e) h.2);
      at_tool = λ b w e h.
          (h.0, tool-Reserve R f w.budget b e h.1, rw (tool-retries_left x w.budget b e) h.2);
      at_retry = λ t w h. (
        h.0,
        retry-Reserve R f t w.budget h.1,
        ground (arith, retries_left-charge_retry t x w.budget),
      );
      at_replan =
          λ w h. (h.0, replan-Reserve R f w.budget h.1, rw (replan-retries_left x w.budget) h.2);
      at_tick = λ n w h. h;
      at_memories = λ ms w h. h;
      at_lessons = λ l w h. h;
    }

-- A retry of a task in its turn takes one from its reserve.
pub charge_retry-InStock :
    (T : List RunRow → List TaskView → Type 0) (R f : ℕ) (x : TaskId) (k : ℕ) (w : World)
    → 0 < k
    → InStock T R f x (suc k) w
    → InStock T R f x k (record w { budget = charge_retry x w.budget })
charge_retry-InStock T R f x k w pos h = (
  h.0,
  retry-Reserve R f x w.budget h.1,
  ground (arith, pos, retries_left-charge_retry x x w.budget, same_id_refl x),
)

-- A replan that the budget allows leaves one less.
pub charge_replan-Reserve :
    (R g : ℕ) (b : RunBudget)
    → Reserve R (suc g) b
    → 0 < replans_left b
    → Reserve R g (charge_replan b)
unfolding charge_replan replans_left
charge_replan-Reserve R g b h pos = record {
  retries_capped = h.retries_capped;
  replans_below = ground (arith, pos, h.replans_below);
}

-- A run that was closed before its answer was synthesized.
abbrev pub IsClosed : ℕ → World → Type 0
IsClosed r w =
    HasEnded r RunStatus.cancelled w ⊎ (HasStatus r RunStatus.failed w × IsIdle r w.db.tasks)

pub HasStopped→IsClosed : (r : ℕ) (w : World) → HasStopped r w → IsClosed r w
HasStopped→IsClosed r w (inl c) = inl c
HasStopped→IsClosed r w (inr (h, s)) = inr (h, s.0)

-- What escapes the turn of the task `x`, with `rest` behind it.
abbrev pub FromTurn : ℕ → ℕ → ℕ → TaskId → List TaskId → Exc → World → Type 0
FromTurn r R f x rest (cancelled u p) w = Flies r u.id w.db.tasks
FromTurn r R f x rest (budget_exceeded be) w = Flies r x w.db.tasks
FromTurn r R f x rest (replan u v) w =
    (u.id ≡ x) × InTurn r x rest w.db.tasks × Reserve R f w.budget × (0 < replans_left w.budget)
FromTurn r R f x rest (llm_error m) w = IsSettled r w.db.tasks
FromTurn r R f x rest (unexpected m) w = Unit
FromTurn r R f x rest run_cancelled w = ⊥
FromTurn r R f x rest (planner_error m) w = ⊥
FromTurn r R f x rest (executor_error m) w = ⊥
FromTurn r R f x rest out_of_fuel w = ⊥
