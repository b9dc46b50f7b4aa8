-- ===== src/Runtime/Manager/Replayed.antt =====
-- The replay of the ledger of a run that was executed, and the row of the run.
use atlas_the_agent.Base.{ℕ, ◌≡◌, sym, ap, ◌∙◌, subst, true, false, inl, inr, some, map, Text}
use atlas_the_agent.Core.Settings.{Settings}
use atlas_the_agent.Core.Python.{Python}
use atlas_the_agent.Agent.Schemas.{RunStatus}
use atlas_the_agent.Events.Gapless.{list_after-IsGapless}
use atlas_the_agent.Persistence.Ledger.{list_after}
use atlas_the_agent.Persistence.Tasks.Status.{IsSettled}
use atlas_the_agent.Recovery.Replay.{ReplayState, unpack, fold_events}
use atlas_the_agent.Recovery.Track.{track, fold_events-tracks}
use atlas_the_agent.Runtime.Manager.Execute.{execute}
use atlas_the_agent.Runtime.Manager.Kept.{execute-keeps}
use atlas_the_agent.Runtime.Manager.Outcome.Ends.{HasConcluded, execute-HasConcluded}
use atlas_the_agent.Runtime.Manager.Sequence.{
  HasGapless, HasGapless-aside, HasGapless-sessions, HasGapless-events,
}
use atlas_the_agent.Runtime.Manager.Settled.{HasRowStatus, HasStatus}
use atlas_the_agent.Memory.{MemoryService, IsBestEffort, IsBestEffort→ServiceKeeps}
use atlas_the_agent.Process.{Result, ok, err, Env, World}
use atlas_the_agent.Process.Triple.{Post}

-- The replayed state is final, and the row of the run has its status.
abbrev pub IsReplayed : ℕ → ReplayState → World → Type 0
IsReplayed r st w = (st.terminal ≡ true) × HasRowStatus r st.status w

-- What an action that raises nothing leaves.
end_of :
    {A : Type 0} (P : World → Type 0) (x : Result A × World) → Post (λ a. P) (λ e v. ⊥) x → P x.1
end_of P (ok a, w) h = h
end_of P (err e, w) h = absurd h

module _ (py : Python) (r : ℕ) (st : ReplayState) (w : World) (gapless : HasGapless r w)
    (folded : fold_events py (map unpack (list_after r 0 w.db)) ≡ some st) where
  replayed : (s : RunStatus) → HasStatus r s w → IsReplayed r st w
  replayed s h =
      let phase =
        fold_events-tracks py (list_after r 0 w.db) st folded
        ∙ (ap (λ es. track es (RunStatus.created, false)) (list_after-IsGapless r w.db gapless)
            ∙ h.1) in
      (ap (λ p. p.1) phase, subst (λ u. HasRowStatus r u w) (sym (ap (λ p. p.0) phase)) h.0)

  concluded : HasConcluded r w → IsReplayed r st w
  concluded (inl h) = replayed RunStatus.cancelled h.0
  concluded (inr (inl h)) = replayed RunStatus.done h.0
  concluded (inr (inr h)) = replayed RunStatus.failed h.0

-- The ledger is a record of the run: started where no task of the run is open and the ledger of the
-- run is numbered 1, 2, 3, …, `_execute` leaves a ledger whose replay, if no payload makes it raise,
-- is final and has the status that the row of the run has, whether the run is done, failed or
-- cancelled. The memory is one that is best-effort.
pub execute-IsReplayed :
    (env : Env) (settings : Settings) (memory : MemoryService)
    → IsBestEffort memory
    → (r : ℕ) (goal : Text) (w : World) → IsSettled r w.db.tasks
    → HasGapless r w
    → (st : ReplayState)
    → fold_events env.py (map unpack (list_after r 0 (execute env settings memory r goal w).1.db))
      ≡ some st
    → IsReplayed r st (execute env settings memory r goal w).1
execute-IsReplayed env settings memory best r goal w settled gapless st folded =
    concluded env.py r st (execute env settings memory r goal w).1
      (execute-keeps (HasGapless-aside r) (HasGapless-sessions r) (HasGapless-events r) env settings
        memory (IsBestEffort→ServiceKeeps (HasGapless r) memory (HasGapless-aside r) best) r goal w
        gapless)
      folded
      (end_of (HasConcluded r) (execute env settings memory r goal w)
        (execute-HasConcluded env settings memory best r goal w settled))
