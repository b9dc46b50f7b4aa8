-- ===== src/Recovery/Track/Ledger.antt =====
-- The phase of a run by its ledger, and what an event makes of it.
use atlas_the_agent.Base.{
  ℕ, ◌≡◌, refl, ap, ◌∙◌, false, Bool-cases, inl, inr, List, [], ◌∷◌, ◌++◌, ◌==◌, arith,
}
use atlas_the_agent.Core.Json.{Fields}
use atlas_the_agent.Events.Types.{EventType, Event}
use atlas_the_agent.Events.Gapless.{of_run, of_run-append_mine, of_run-append_other}
use atlas_the_agent.Agent.Schemas.{RunStatus}
use atlas_the_agent.Persistence.Tables.{Database}
use atlas_the_agent.Persistence.Ledger.{append}
use atlas_the_agent.Recovery.Track.{Phase, step, track}
use atlas_the_agent.Process.{emit_to}
use atlas_the_agent.Process.Keeps.{is_turning}

-- What the state machine makes of the events of the run, in the order of the table.
abbrev pub ledger_phase : ℕ → List Event → Phase
ledger_phase r es = track (of_run r es) (RunStatus.created, false)

step_calm : (type : EventType) (p : Phase) → is_turning type ≡ false → step type p ≡ p
unfolding step
step_calm EventType.run_created p h = ground (arith, h)
step_calm EventType.run_started p h = ground (arith, h)
step_calm EventType.run_completed p h = ground (arith, h)
step_calm EventType.run_failed p h = ground (arith, h)
step_calm EventType.run_cancelled p h = ground (arith, h)
step_calm _ p h = refl

track-append :
    (es : List Event) (e : Event) (p : Phase) → track (es ++ e ∷ []) p ≡ step e.type (track es p)
unfolding track
track-append [] e p = refl
track-append (f ∷ es) e p = track-append es e (step f.type p)

-- An event of the run turns its phase as the state machine does.
pub ledger_phase-emit_to :
    (r : ℕ) (type : EventType) (payload : Fields) (db : Database)
    → ledger_phase r (emit_to r type payload db).1.events ≡ step type (ledger_phase r db.events)
unfolding emit_to append
ledger_phase-emit_to r type payload db =
    let e = (emit_to r type payload db).0 in
    ap (λ l. track l (RunStatus.created, false)) (of_run-append_mine r db.events e (ground arith))
    ∙ track-append (of_run r db.events) e (RunStatus.created, false)

-- An event that does not turn its run, or is one of another run, leaves the phase as it is.
pub ledger_phase_calm :
    (r q : ℕ) (type : EventType) (payload : Fields) (db : Database)
    → is_turning type ≡ false
    → ledger_phase r (emit_to q type payload db).1.events ≡ ledger_phase r db.events
unfolding emit_to append
ledger_phase_calm r q type payload db calm =
    let e = (emit_to q type payload db).0 in
    elim (Bool-cases (q == r)) [
      | inl mine ↦
          ap (λ l. track l (RunStatus.created, false)) (of_run-append_mine r db.events e mine)
          ∙ (track-append (of_run r db.events) e (RunStatus.created, false)
              ∙ step_calm type (ledger_phase r db.events) calm)
      | inr other ↦
          ap (λ l. track l (RunStatus.created, false)) (of_run-append_other r db.events e other)
    ]
