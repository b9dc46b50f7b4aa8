-- ===== src/Persistence/Tasks/Listed.antt =====
-- A query finds every row that it asks for: the tasks that `list_for_run` returns of those that a
-- test picks.
use atlas_the_agent.Base.{
  ℕ, ◌≡◌, refl, ◌∙◌, Bool, true, ◌&&◌, ◌||◌, List, [], ◌∷◌, map, filter, any, All, All-mono, ◌==◌,
  arith,
}
use atlas_the_agent.Agent.Schemas.{is_pending, TaskId, same_id, same_id_refl, TaskView}
use atlas_the_agent.Persistence.Tables.{Database, insert_by, order_by}
use atlas_the_agent.Persistence.Tasks.{list_for_run, in_ids, bulk_skip}
use atlas_the_agent.Persistence.Tasks.Status.{IsIdle, IsSettled, All-update}

module _ {A : Type 0} (p : A → Bool) where
  any-insert_by :
      (key : A → ℕ) (x : A) (xs : List A) → any p (insert_by key x xs) ≡ (p x || any p xs)
  unfolding insert_by
  any-insert_by key x [] = refl
  any-insert_by key x (y ∷ ys) = ground (arith, any-insert_by key x ys)

  any-order_by : (key : A → ℕ) (xs : List A) → any p (order_by key xs) ≡ any p xs
  unfolding order_by
  any-order_by key [] = refl
  any-order_by key (x ∷ xs) = any-insert_by key x (order_by key xs) ∙ rw (any-order_by key xs) refl

  any-filter : (q : A → Bool) (xs : List A) → any p (filter q xs) ≡ any (λ x. q x && p x) xs
  any-filter q [] = refl
  any-filter q (x ∷ xs) = ground (arith, any-filter q xs)

in_ids-map :
    (ts : List TaskView) (i : TaskId) → in_ids (map (λ t. t.id) ts) i ≡ any (λ t. same_id i t.id) ts
in_ids-map [] i = refl
in_ids-map (t ∷ ts) i = rw (in_ids-map ts i) refl

-- A row that the test picks is among those picked.
picked :
    (p q : TaskView → Bool) (ts : List TaskView)
    → All (λ t. (p t && q t) ≡ true → any (λ u. p u && (q u && same_id t.id u.id)) ts ≡ true) ts
picked p q [] = tt
picked p q (t ∷ ts) = (
  λ e. ground (arith, e, same_id_refl t.id),
  All-mono _ _ ts (λ u h e. ground (arith, h e)) (picked p q ts),
)

module _ (r : ℕ) (test : TaskView → Bool) (d : Database) where
  abbrev pub listed : List TaskId
  listed = map (λ t. t.id) (filter test (list_for_run r d))

  in_ids-listed :
      (i : TaskId)
      → in_ids listed i ≡ any (λ u. (u.run_id == r) && (test u && same_id i u.id)) d.tasks
  unfolding list_for_run
  in_ids-listed i =
      in_ids-map (filter test (list_for_run r d)) i
      ∙ any-filter _ test (list_for_run r d)
      ∙ any-order_by _ (λ t. t.index) _
      ∙ any-filter _ (λ t. t.run_id == r) d.tasks

  pub All-listed : All (λ t. (t.run_id == r && test t) ≡ true → in_ids listed t.id ≡ true) d.tasks
  All-listed =
      All-mono _ _ d.tasks (λ t h e. in_ids-listed t.id ∙ h e)
        (picked (λ t. t.run_id == r) test d.tasks)

All-both {ℓ κ} :
    {A : Type ℓ} (P Q : A → Type κ) (xs : List A) → All P xs → All Q xs → All (λ x. P x × Q x) xs
All-both P Q [] p q = tt
All-both P Q (x ∷ xs) p q = ((p.0, q.0), All-both P Q xs p.1 q.1)

-- Skipping the pending tasks that the query returns settles a run with no task in flight.
pub bulk_skip-listed :
    (r : ℕ) (d : Database)
    → IsIdle r d.tasks
    → IsSettled r (bulk_skip (listed r (λ t. is_pending t.status) d) d).tasks
unfolding bulk_skip
bulk_skip-listed r d h =
    let both = All-both _ _ d.tasks h (All-listed r (λ t. is_pending t.status) d) in
    (
      All-update _ _ _ _ d.tasks (λ t e k. ground arith) (λ t e k. k.0) both,
      All-update _ _ _ _ d.tasks (λ t e k. ground arith) (λ t e k. ground (arith, e, k.1)) both,
    )
