-- ===== src/Recovery/Interrupted.antt =====
-- What `_reconcile_one` makes of a run whose ledger can be folded.
use atlas_the_agent.Base.{
  inl, ◌⊎◌, inr, sym, subst, ℕ, ◌≡◌, refl, Bool, true, false, ◌&&◌, Option, some, List, [], ◌∷◌,
  map, All, All-mono, arith, ◌==◌, if◌then◌else◌,
}
use atlas_the_agent.Core.Python.{Python}
use atlas_the_agent.Events.Types
use atlas_the_agent.Events.Types.{EventType}
use atlas_the_agent.Agent.Schemas.{RunStatus, TaskId, TaskView}
use atlas_the_agent.Persistence.Tables.{Database}
use atlas_the_agent.Persistence.Ledger.{append, list_after}
use atlas_the_agent.Persistence.Runs.{set_status, set_error}
use atlas_the_agent.Persistence.Tasks.{mark_cancelled, in_ids}
use atlas_the_agent.Persistence.Tasks.Status.{IsSettled, All-update}
use atlas_the_agent.Persistence.Tasks.Listed.{All-listed}
use atlas_the_agent.Recovery.Track.{step}
use atlas_the_agent.Recovery.Track.Ledger.{ledger_phase}
use atlas_the_agent.Runtime.Manager.Settled.{
  HasRowStatus, HasStatus, set_status-HasRowStatus, ended-HasStatus,
}
use atlas_the_agent.Recovery.Replay.{ReplayState, unpack, fold_events}
use atlas_the_agent.Recovery.Reconciler.{
  resume, is_open, cancel_each, cancel_open, emit_cancellations, cancel_open_tasks,
  close_interrupted, reconcile_one, follow_if, interrupted_error,
}
use atlas_the_agent.Process.{Exc, World, emit, emit_to, session_value}
use atlas_the_agent.Process.Triple.{Post, Post-weaken, Triple, Triple-pure, Triple-bind}

-- Every open task of the run is one of `ids`.
abbrev OpenIn : ℕ → List TaskId → List TaskView → Type 0
OpenIn r ids ts = All (λ t. (t.run_id == r && is_open t.status) ≡ true → in_ids ids t.id ≡ true) ts

module _ (r : ℕ) where
  mark_cancelled-OpenIn :
      (i : TaskId) (ids : List TaskId) (d : Database)
      → OpenIn r (i ∷ ids) d.tasks
      → OpenIn r ids (mark_cancelled i d).tasks
  unfolding mark_cancelled
  mark_cancelled-OpenIn i ids d h =
      All-update _ _ _ _ d.tasks (λ t e k o. ground (arith, o)) (λ t e k o. ground (arith, e, k o))
        h

  OpenIn→IsSettled : (ts : List TaskView) → OpenIn r [] ts → IsSettled r ts
  OpenIn→IsSettled ts h =
      (All-mono _ _ ts (λ t k. ground (arith, k)) h, All-mono _ _ ts (λ t k. ground (arith, k)) h)

  cancel_each-IsSettled :
      (ts : List TaskView) (d : Database)
      → OpenIn r (map (λ t. t.id) ts) d.tasks
      → IsSettled r (cancel_each ts d).tasks
  unfolding cancel_each
  cancel_each-IsSettled [] d h = OpenIn→IsSettled d.tasks h
  cancel_each-IsSettled (t ∷ ts) d h =
      cancel_each-IsSettled ts (mark_cancelled t.id d)
        (mark_cancelled-OpenIn t.id (map (λ u. u.id) ts) d h)

  -- What is left of an interrupted run.
  abbrev IsClosed : Bool → World → Type 0
  IsClosed changed w = (changed ≡ true) × HasStatus r RunStatus.failed w × IsSettled r w.db.tasks

  -- The status that the fold of a ledger asks for.
  abbrev pub final_status : ReplayState → RunStatus
  final_status st = if st.terminal then st.status else RunStatus.failed

  -- What `_reconcile_one` leaves of a run whose ledger folds to `st`, from the tables `d` on.
  abbrev pub IsReconciled : ReplayState → Database → Bool → World → Type 0
  IsReconciled st d changed w =
      (changed ≡ true)
      × HasRowStatus r (final_status st) w
      × (((st.terminal ≡ true) × (w.db.tasks ≡ d.tasks) × (w.db.events ≡ d.events))
          ⊎ ((st.terminal ≡ false)
              × IsSettled r w.db.tasks
              × (ledger_phase r w.db.events ≡ (RunStatus.failed, true))))

  module _ {E : Exc → World → Type 0} (py : Python) where
    emit_cancellations-Triple :
        (ts : List TaskView)
        → Triple
            (λ w. IsSettled r w.db.tasks)
            (emit_cancellations py r ts)
            (λ u w. IsSettled r w.db.tasks)
            E
    unfolding emit_cancellations emit emit_to append
    emit_cancellations-Triple [] = Triple-pure tt (λ w h. h)
    emit_cancellations-Triple (t ∷ ts) =
        Triple-bind (emit r Types.task_cancelled _) _ (record { at = λ w h. h })
          (λ u. emit_cancellations-Triple ts)

    cancel_open_tasks-Triple :
        Triple (λ w. Unit) (cancel_open_tasks py r) (λ u w. IsSettled r w.db.tasks) E
    unfolding cancel_open_tasks cancel_open
    cancel_open_tasks-Triple =
        Triple-bind (session_value (cancel_open r)) _
          (record {
            at = λ w h. cancel_each-IsSettled _ w.db (All-listed r (λ t. is_open t.status) w.db);
          })
          emit_cancellations-Triple

    close_interrupted-Triple : Triple (λ w. Unit) (close_interrupted py r) IsClosed E
    unfolding close_interrupted emit emit_to append set_status set_error step
    close_interrupted-Triple = Triple-bind (cancel_open_tasks py r) _ cancel_open_tasks-Triple (λ u.
        record {
          at = λ w h. (
            refl,
            ended-HasStatus r RunStatus.failed Types.run_failed _
                (record w { db = set_error r interrupted_error w.db }) (λ p. refl),
            h,
          );
        })

  reconciled :
      (st : ReplayState) (w : World) (c : Bool) (v : World)
      → st.terminal ≡ false
      → IsClosed c v
      → IsReconciled st w.db c v
  reconciled st w c v e (h, k, l) = rw e (h, k.0, inr (refl, l, k.1))

  follow_if-Post :
      (py : Python) (st : ReplayState) (w : World) (b : Bool)
      → st.terminal ≡ b
      → Post (IsReconciled st w.db) (λ e v. ⊥) (follow_if py b r st w)
  unfolding set_status
  follow_if-Post py st w true e =
      rw e (refl, set_status-HasRowStatus r st.status w, inl (refl, refl, refl))
  follow_if-Post py st w false e =
      Post-weaken (λ x v. ⊥) (close_interrupted py r w) (λ c v h. reconciled st w c v e h)
        ((close_interrupted-Triple py).at w tt)

  resume-Post :
      (py : Python) (o : Option ReplayState) (st : ReplayState) (w : World)
      → o ≡ some st
      → Post (IsReconciled st w.db) (λ e v. ⊥) (resume py r o w)
  resume-Post py o st w e =
      subst (λ o. Post (IsReconciled st w.db) (λ e v. ⊥) (resume py r o w)) (sym e)
        (follow_if-Post py st w st.terminal refl)

-- For a run whose ledger can be folded, `_reconcile_one` returns that it has changed the run. If the
-- ledger holds a terminal event, then the row of the run gets the status that the ledger gives it,
-- and neither tasks nor events change. Otherwise the row becomes failed, by its ledger the run has
-- failed, and no task of the run is left pending, running or retrying.
pub reconcile_one-IsReconciled :
    (py : Python) (r : ℕ) (st : ReplayState) (w : World)
    → fold_events py (map unpack (list_after r 0 w.db)) ≡ some st
    → Post (IsReconciled r st w.db) (λ e v. ⊥) (reconcile_one py r w)
unfolding reconcile_one
reconcile_one-IsReconciled py r st w e =
    resume-Post r py (fold_events py (map unpack (list_after r 0 w.db))) st w e
