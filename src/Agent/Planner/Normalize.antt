-- ===== src/Agent/Planner/Normalize.antt =====
-- `Planner._normalize` of backend/atlas/agent/planner.py, and what it promises of a plan.
use atlas_the_agent.Base.{
  inr, inl, ℕ, ◌+◌, ◌≤◌, ◌<◌, ◌≡◌, Bool, true, false, Option, none, some, List, [], ◌∷◌, Text,
  length, any, All, Bool-cases, strip, eqb, is_empty, leb, arith, if◌then◌else◌,
}
use atlas_the_agent.Agent.Schemas.{PlannedTask}

-- `tool in known`
abbrev pub is_known : List Text → Text → Bool
is_known known tool = any (λ n. eqb n tool) known

abbrev pub known_or_none : List Text → Option Text → Option Text
known_or_none known none = none
known_or_none known (some tool) = if is_known known tool then some tool else none

-- The loop, with the number of tasks that it has kept: it breaks at `max_tasks`.
unfoldable pub clean : List Text → ℕ → ℕ → List PlannedTask → List PlannedTask
clean known max_tasks kept [] = []
clean known max_tasks kept (t ∷ ts) =
    let skipped = clean known max_tasks kept ts in
    let more = clean known max_tasks (kept + 1) ts in
    let d = strip t.description in
    if is_empty d
    then skipped
    else (record {
      description = d;
      success_criteria = strip t.success_criteria;
      suggested_tool = known_or_none known t.suggested_tool;
    })
      ∷ (if leb max_tasks (kept + 1) then [] else more)

-- The fallback: a plan with no usable task becomes the goal itself.
abbrev or_goal : Text → List PlannedTask → List PlannedTask
or_goal goal [] = (record { description = goal; success_criteria = []; suggested_tool = none }) ∷ []
or_goal goal (t ∷ ts) = t ∷ ts

unfoldable pub normalize : List Text → ℕ → Text → List PlannedTask → List PlannedTask
unfolding clean
normalize known max_tasks goal tasks = or_goal goal (clean known max_tasks 0 tasks)

length-clean-le :
    (known : List Text) (m kept : ℕ) (ts : List PlannedTask)
    → kept < m
    → kept + length (clean known m kept ts) ≤ m
unfolding clean
length-clean-le known m kept [] h = omega arith
length-clean-le known m kept (t ∷ ts) h =
    ground (arith, length-clean-le known m kept ts, length-clean-le known m (kept + 1) ts)

-- For a positive `max_tasks`, a plan has at least one task and at most `max_tasks` of them.
pub length-normalize :
    (known : List Text) (m : ℕ) (goal : Text) (ts : List PlannedTask)
    → 0 < m
    → (0 < length (normalize known m goal ts)) × (length (normalize known m goal ts) ≤ m)
unfolding normalize
length-normalize known m goal ts h = ground (arith, length-clean-le known m 0 ts)

-- A task that can be run: it says what to do, and hints only at a tool that exists.
abbrev pub IsUsable : List Text → PlannedTask → Type 0
IsUsable known t =
    (is_empty t.description ≡ false)
    × ((tool : Text) → t.suggested_tool ≡ some tool → is_known known tool ≡ true)

known_or_none-known :
    (known : List Text) (o : Option Text) (tool : Text)
    → known_or_none known o ≡ some tool
    → is_known known tool ≡ true
known_or_none-known known none tool h = cc
known_or_none-known known (some t) tool h = elim (Bool-cases (is_known known t)) [
  | inl e ↦ ground arith
  | inr e ↦ ground arith
]

All-unless {ℓ κ} :
    {A : Type ℓ} (P : A → Type κ) (b : Bool) (xs : List A) → All P xs → All P (if b then [] else xs)
All-unless P true xs h = tt
All-unless P false xs h = h

clean-IsUsable :
    (known : List Text) (m kept : ℕ) (ts : List PlannedTask)
    → All (IsUsable known) (clean known m kept ts)
unfolding clean
clean-IsUsable known m kept [] = tt
clean-IsUsable known m kept (t ∷ ts) = elim (Bool-cases (is_empty (strip t.description))) [
  | inl e ↦ rw e (clean-IsUsable known m kept ts)
  | inr e ↦ rw e (
    (e, known_or_none-known known t.suggested_tool),
    All-unless (IsUsable known) (leb m (kept + 1)) (clean known m (kept + 1) ts)
        (clean-IsUsable known m (kept + 1) ts),
  )
]

or_goal-IsUsable :
    (known : List Text) (goal : Text) (ts : List PlannedTask)
    → is_empty goal ≡ false
    → All (IsUsable known) ts
    → All (IsUsable known) (or_goal goal ts)
or_goal-IsUsable known goal [] h u = ((h, λ tool e. cc), tt)
or_goal-IsUsable known goal (t ∷ ts) h u = u

-- For a goal that is not empty, every task of the plan says what to do, and its hint, if it has
-- one, names a registered tool.
pub normalize-IsUsable :
    (known : List Text) (m : ℕ) (goal : Text) (ts : List PlannedTask)
    → is_empty goal ≡ false
    → All (IsUsable known) (normalize known m goal ts)
unfolding normalize
normalize-IsUsable known m goal ts h =
    or_goal-IsUsable known goal (clean known m 0 ts) h (clean-IsUsable known m 0 ts)
