-- ===== src/Runtime/Manager/Settled/Status.antt =====
-- The status of a run, by its row and by its ledger.
use atlas_the_agent.Base.{◌∙◌, ℕ, ◌≡◌, refl, true, List, [], ◌∷◌, All, ◌==◌, arith}
use atlas_the_agent.Core.Json.{Fields}
use atlas_the_agent.Events.Types.{EventType}
use atlas_the_agent.Agent.Schemas.{RunStatus}
use atlas_the_agent.Persistence.Ledger.{append}
use atlas_the_agent.Persistence.Runs.{set_status}
use atlas_the_agent.Persistence.Tasks.Status.{IsSettled, All-update}
use atlas_the_agent.Recovery.Track.{Phase, step}
use atlas_the_agent.Recovery.Track.Ledger.{ledger_phase, ledger_phase-emit_to}
use atlas_the_agent.Process.{World, emit_to}

-- The row of the run has the status `s`.
abbrev pub HasRowStatus : ℕ → RunStatus → World → Type 0
HasRowStatus r s w = All (λ row. (row.id == r) ≡ true → row.status ≡ s) w.db.runs

-- The row of the run has the status `s`, and so does the run by its ledger, where it is final.
abbrev pub HasStatus : ℕ → RunStatus → World → Type 0
HasStatus r s w = HasRowStatus r s w × (ledger_phase r w.db.events ≡ (s, true))

-- The run has ended with the status `s`, and no task of it is open.
abbrev pub HasEnded : ℕ → RunStatus → World → Type 0
HasEnded r s w = HasStatus r s w × IsSettled r w.db.tasks

pub everywhere : {A : Type 0} (xs : List A) → All {0, 0} (λ x. Unit) xs
everywhere [] = tt
everywhere (x ∷ xs) = (tt, everywhere xs)

pub set_status-HasRowStatus :
    (r : ℕ) (s : RunStatus) (w : World) → HasRowStatus r s (record w { db = set_status r s w.db })
unfolding set_status
set_status-HasRowStatus r s w =
    All-update (λ row. Unit) (λ row. (row.id == r) ≡ true → row.status ≡ s) (λ row. row.id == r)
      (λ row. record row { status = s }) w.db.runs (λ row e h k. refl)
      (λ row e h k. ground (arith, e, k)) (everywhere w.db.runs)

-- The status is written, and the event that ends the run with it is emitted.
pub ended-HasStatus :
    (r : ℕ) (s : RunStatus) (type : EventType) (payload : Fields) (w : World)
    → ((p : Phase) → step type p ≡ (s, true))
    → HasStatus r s (record w { db = (emit_to r type payload (set_status r s w.db)).1 })
unfolding emit_to append
ended-HasStatus r s type payload w ends = (
  set_status-HasRowStatus r s w,
  ledger_phase-emit_to r type payload (set_status r s w.db)
      ∙ ends (ledger_phase r (set_status r s w.db).events),
)
