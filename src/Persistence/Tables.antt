-- ===== src/Persistence/Tables.antt =====
-- The tables of backend/atlas/persistence/models.py that the runtime writes. A table is the list
-- of its rows in the order of insertion, and a unit of work is a function on the database.
use atlas_the_agent.Base.{ℕ, Bool, Option, List, [], ◌∷◌, Text, leb, if◌then◌else◌}
use atlas_the_agent.Agent.Schemas.{RunStatus, TaskView, TaskAttemptView}
use atlas_the_agent.Memory.Schemas.{MemoryView}
use atlas_the_agent.Events.Types.{Event}

pub record RunRow : Type 0 where
  pub id : ℕ
  pub goal : Text
  pub status : RunStatus
  pub answer : Option Text
  pub error : Option Text

pub record Database : Type 0 where
  pub runs : List RunRow
  pub tasks : List TaskView
  pub attempts : List TaskAttemptView
  pub events : List Event
  pub memories : List MemoryView

-- `ORDER BY key ASC`: insertion sort, rows with equal keys in their old order.
module _ {A : Type 0} (key : A → ℕ) where
  unfoldable pub insert_by : A → List A → List A
  insert_by x [] = x ∷ []
  insert_by x (y ∷ ys) =
      let later = insert_by x ys in if leb (key x) (key y) then x ∷ y ∷ ys else y ∷ later

  unfoldable pub order_by : List A → List A
  unfolding insert_by
  order_by [] = []
  order_by (x ∷ xs) = insert_by x (order_by xs)

-- `row = session.get(...)`, and the writes to it if there is one: every row that the test picks.
unfoldable pub update_where {ℓ} : {A : Type ℓ} → (A → Bool) → (A → A) → List A → List A
update_where p f [] = []
update_where p f (x ∷ xs) = (if p x then f x else x) ∷ update_where p f xs
