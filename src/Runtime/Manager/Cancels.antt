-- ===== src/Runtime/Manager/Cancels.antt =====
-- `cancel_run`, `_cleanup` and the signal of `shutdown` of `RunManager`.
use atlas_the_agent.Base.{
  ℕ, Bool, true, false, not, Option, none, some, List, [], ◌∷◌, map, filter, ◌==◌, if◌then◌else◌,
}

-- `_cancels`: the event of each run that has a task, and whether it is set.
abbrev pub Cancels : Type 0
Cancels = List (ℕ × Bool)

unfoldable pub find_cancel : ℕ → Cancels → Option Bool
find_cancel run_id [] = none
find_cancel run_id ((r, set) ∷ cancels) =
    if r == run_id then some set else find_cancel run_id cancels

-- `self._cancels[run_id] = asyncio.Event()`; the run id is new.
abbrev pub add_cancel : ℕ → Cancels → Cancels
add_cancel run_id cancels = (run_id, false) ∷ cancels

-- `cancel.set()`
unfoldable pub set_cancel : ℕ → Cancels → Cancels
set_cancel run_id [] = []
set_cancel run_id ((r, set) ∷ cancels) =
    (r, if r == run_id then true else set) ∷ set_cancel run_id cancels

-- `cancel_run`
unfoldable pub cancel_run : ℕ → Cancels → Bool × Cancels
unfolding find_cancel set_cancel
cancel_run run_id cancels = elim (find_cancel run_id cancels) [
  | none ↦ (false, cancels)
  | some set ↦ (true, set_cancel run_id cancels)
]

-- `_cleanup`
unfoldable pub cleanup : ℕ → Cancels → Cancels
cleanup run_id cancels = filter (λ (p : ℕ × Bool). not (p.0 == run_id)) cancels

-- The loop of `shutdown`
unfoldable pub set_all : Cancels → Cancels
set_all cancels = map (λ (p : ℕ × Bool). (p.0, true)) cancels
