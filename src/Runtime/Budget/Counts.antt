-- ===== src/Runtime/Budget/Counts.antt =====
-- The control-flow counters of a budget: retries for each task, and replans.
use atlas_the_agent.Base.{ℕ, ◌+◌, ◌-◌, ◌≡◌, refl, [], ◌∷◌, arith, if◌then◌else◌}
use atlas_the_agent.Agent.Schemas.{TaskId, same_id, same_id→eq}
use atlas_the_agent.Runtime.Budget.{
  Retries, RunBudget, used_by, set_used, charge_retry, retries_left,
}

used_by-set_used :
    (t u : TaskId) (n : ℕ) (r : Retries)
    → used_by u (set_used t n r) ≡ (if same_id t u then n else used_by u r)
unfolding used_by set_used
used_by-set_used t u n [] = refl
used_by-set_used t u n ((v, m) ∷ r) = ground (arith, used_by-set_used t u n r)

-- A retry charged to a task takes one from what that task has left, and from no other task.
pub retries_left-charge_retry :
    (t u : TaskId) (b : RunBudget)
    → retries_left u (charge_retry t b)
      ≡ (if same_id t u then retries_left u b - 1 else retries_left u b)
unfolding retries_left charge_retry
retries_left-charge_retry t u b =
    ground (arith, used_by-set_used t u (used_by t b.retries + 1) b.retries, same_id→eq t u)
