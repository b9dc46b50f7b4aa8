-- ===== src/Runtime/Manager/Sequence.antt =====
-- The ledger of every run stays without a gap while a run is executed.
use atlas_the_agent.Base.{ℕ, ◌≡◌, true, map, Text}
use atlas_the_agent.Core.Settings.{Settings}
use atlas_the_agent.Events.Gapless.{IsGapless, emit-IsGapless, IsGapless-intact}
use atlas_the_agent.Persistence.Ledger.{list_after}
use atlas_the_agent.Recovery.Replay.{unpack, sequence_is_intact}
use atlas_the_agent.Runtime.Manager.Execute.{execute}
use atlas_the_agent.Runtime.Manager.Kept.{execute-keeps}
use atlas_the_agent.Memory.{MemoryService, ServiceKeeps}
use atlas_the_agent.Process.{Env, World}
use atlas_the_agent.Process.Keeps.{IsAside, BearsSessions, BearsEvents}

-- The ledger of the run `q` has no gap.
abbrev pub HasGapless : ℕ → World → Type 0
HasGapless q w = IsGapless q w.db.events

pub HasGapless-aside : (q : ℕ) → IsAside (HasGapless q)
HasGapless-aside q = record {
  at_emit = λ r type payload w e h. emit-IsGapless r q type payload w.db h;
  at_model = λ c b w e h. h;
  at_tool = λ b w e h. h;
  at_retry = λ t w h. h;
  at_replan = λ w h. h;
  at_tick = λ n w h. h;
  at_memories = λ ms w h. h;
  at_lessons = λ l w h. h;
}

pub HasGapless-sessions : (q : ℕ) → BearsSessions (HasGapless q)
HasGapless-sessions q = record { at_session = λ d w e h. rw e h }

pub HasGapless-events : (q : ℕ) → BearsEvents (HasGapless q)
HasGapless-events q = record {
  at_event = λ r type payload w h. emit-IsGapless r q type payload w.db h;
}

-- If the ledger of the run `q` is numbered 1, 2, 3, … before another or the same run is executed,
-- then `sequence_is_intact` accepts what `list_after` returns of it afterwards; the memory service is
-- asked only to keep the numbering.
pub execute-intact :
    (env : Env) (s : Settings) (m : MemoryService) (q : ℕ)
    → ServiceKeeps (HasGapless q) m
    → (r : ℕ) (goal : Text) (w : World) → HasGapless q w
    → sequence_is_intact (map unpack (list_after q 0 (execute env s m r goal w).1.db)) ≡ true
execute-intact env s m q service r goal w h = IsGapless-intact q (execute env s m r goal w).1.db (
    execute-keeps (HasGapless-aside q) (HasGapless-sessions q) (HasGapless-events q) env s m service
      r goal w h)
