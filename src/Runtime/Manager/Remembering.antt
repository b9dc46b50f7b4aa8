-- ===== src/Runtime/Manager/Remembering.antt =====
-- `_execute` with the repository's own memory service.
use atlas_the_agent.Base.{ℕ, ◌≡◌, true, map, Text}
use atlas_the_agent.Core.Arithmetic.{Arithmetic}
use atlas_the_agent.Core.Settings.{Settings}
use atlas_the_agent.Memory.{MemoryService, IsBestEffort→ServiceKeeps}
use atlas_the_agent.Memory.Service.{Clock, memory_service}
use atlas_the_agent.Memory.Service.Quiet.{memory_service-IsBestEffort}
use atlas_the_agent.Persistence.Memories.{Sqlite}
use atlas_the_agent.Persistence.Tasks.Status.{IsSettled}
use atlas_the_agent.Persistence.Ledger.{list_after}
use atlas_the_agent.Recovery.Replay.{unpack, sequence_is_intact}
use atlas_the_agent.Runtime.Manager.Bounded.{IsBounded, IsBounded-aside, execute-IsBounded}
use atlas_the_agent.Runtime.Manager.Sequence.{HasGapless, HasGapless-aside, execute-intact}
use atlas_the_agent.Runtime.Manager.Outcome.Ends.{HasConcluded, execute-HasConcluded}
use atlas_the_agent.Runtime.Manager.Execute.{execute}
use atlas_the_agent.Process.{Exc, Env, World, Result, ok, err}
use atlas_the_agent.Process.Triple.{Post}

Post-both :
    {A : Type 0} (Q : A → World → Type 0) (E : Exc → World → Type 0) (R : World → Type 0)
    (x : Result A × World)
    → Post Q E x
    → R x.1
    → Post (λ a w. Q a w × R w) E x
Post-both Q E R (ok a, w) q h = (q, h)
Post-both Q E R (err e, w) q h = q

-- A run with the repository's own memory: started where no task of the run is open and the ledger
-- of the run is numbered 1, 2, 3, …, `_execute` returns without an exception; the run is over (see
-- `execute-HasConcluded`), each of its calls that reached the provider or a tool was counted and the
-- counts are within the caps of the settings, and its ledger is still numbered without a gap. Nothing
-- is asked of the model, of SQLite, of the arithmetic of the scores, or of when the sessions and
-- events of the memory service fail.
pub execute-remembering :
    (sql : Sqlite) (ar : Arithmetic) (clock : Clock) (env : Env) (settings : Settings) (r : ℕ)
    (goal : Text) (w : World)
    → IsSettled r w.db.tasks
    → HasGapless r w
    → Post
        (λ u v.
          HasConcluded r v
          × (IsBounded settings w v
              × (sequence_is_intact (map unpack (list_after r 0 v.db)) ≡ true)))
        (λ e v. ⊥)
        (execute env settings (memory_service sql ar clock env settings) r goal w)
execute-remembering sql ar clock env settings r goal w settled gapless =
    let m : MemoryService = memory_service sql ar clock env settings in
    let best = memory_service-IsBestEffort sql ar clock env settings in
    Post-both _ _ _ (execute env settings m r goal w)
      (execute-HasConcluded env settings m best r goal w settled)
      (
        (execute-IsBounded env settings m r goal w (
            IsBestEffort→ServiceKeeps (IsBounded settings w) m (IsBounded-aside settings w)
              best)).0,
        execute-intact env settings m r
            (IsBestEffort→ServiceKeeps (HasGapless r) m (HasGapless-aside r) best) r goal w gapless,
      )
