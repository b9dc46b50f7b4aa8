-- ===== src/Persistence/Tasks/Fresh.antt =====
-- The rows of a new plan are pending, and are the only open tasks of a run that was settled.
use atlas_the_agent.Base.{
  none, ℕ, ◌+◌, ◌≡◌, refl, true, false, Option, List, [], ◌∷◌, ◌++◌, map, All, All-mono, All-append,
  arith,
}
use atlas_the_agent.Agent.Schemas.{is_busy, TaskId, same_id_refl, PlannedTask, TaskView}
use atlas_the_agent.Persistence.Tables.{Database}
use atlas_the_agent.Persistence.Tasks.{new_tasks, append_generation, bulk_create, in_ids}
use atlas_the_agent.Persistence.Tasks.Status.{IsReady, IsSettled}

-- The ids of some rows.
abbrev pub ids : List TaskView → List TaskId
ids ts = map (λ t. t.id) ts

new_tasks-idle :
    (r start g : ℕ) (parent : Option ℕ) (ps : List PlannedTask)
    → All (λ t. is_busy t.status ≡ false) (new_tasks r start g parent ps)
unfolding new_tasks
new_tasks-idle r start g parent [] = tt
new_tasks-idle r start g parent (p ∷ ps) = (refl, new_tasks-idle r (start + 1) g parent ps)

in_ids_self : (ts : List TaskView) → All (λ t. in_ids (ids ts) t.id ≡ true) ts
in_ids_self [] = tt
in_ids_self (t ∷ ts) =
    (ground (arith, same_id_refl t.id), All-mono _ _ ts (λ u h. ground (arith, h)) (in_ids_self ts))

-- Rows that are not in flight, behind a settled table.
join-IsReady :
    (r : ℕ) (old new : List TaskView)
    → IsSettled r old
    → All (λ t. is_busy t.status ≡ false) new
    → IsReady r (ids new) (old ++ new)
join-IsReady r old new (idle, pend) fresh = (
  All-append _ old new idle (All-mono _ _ new (λ t h. ground (arith, h)) fresh),
  All-append _ old new (All-mono _ _ old (λ t h. ground (arith, h)) pend)
      (All-mono _ _ new (λ t h. ground (arith, h)) (in_ids_self new)),
)

module _ (r : ℕ) (ps : List PlannedTask) (d : Database) where
  pub append_generation-IsReady :
      (start g : ℕ) (parent : Option ℕ)
      → IsSettled r d.tasks
      → IsReady r
          (ids (append_generation r ps start g parent d).0)
          (append_generation r ps start g parent d).1.tasks
  unfolding append_generation
  append_generation-IsReady start g parent h =
      join-IsReady r d.tasks (new_tasks r start g parent ps) h (new_tasks-idle r start g parent ps)

  pub bulk_create-IsReady :
      IsSettled r d.tasks → IsReady r (ids (bulk_create r ps d).0) (bulk_create r ps d).1.tasks
  unfolding bulk_create
  bulk_create-IsReady h =
      join-IsReady r d.tasks (new_tasks r 0 0 none ps) h (new_tasks-idle r 0 0 none ps)
