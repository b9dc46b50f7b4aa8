-- ===== src/Memory.antt =====
-- The memory service as the runtime holds it (backend/atlas/memory/service.py): an interface.
pub mod Schemas
pub mod Tokens
pub mod Ranking
pub mod Writer
pub mod Service
use atlas_the_agent.Base.{ℕ, Text}
use atlas_the_agent.Memory.Schemas.{MemoryOutcome}
use atlas_the_agent.Process.{World, Action, Done}
use atlas_the_agent.Process.Stays.{Stays, Keeps-Stays}
use atlas_the_agent.Process.Keeps.{IsAside, Keeps}

-- `recall` returns the rendered lessons, empty if there are none.
pub record MemoryService : Type 0 where
  pub recall : ℕ → Text → Action Text
  pub write : ℕ → Text → MemoryOutcome → Text → Action Done

-- The service keeps an invariant of the process.
pub record ServiceKeeps (P : World → Type 0) (m : MemoryService) : Type 0 where
  pub at_recall : (run_id : ℕ) (goal : Text) → Keeps P (m.recall run_id goal)
  pub at_write :
      (run_id : ℕ) (goal : Text) (outcome : MemoryOutcome) (answer : Text)
      → Keeps P (m.write run_id goal outcome answer)

-- The service raises nothing, and writes no row of a run, a task or an attempt.
pub record IsBestEffort (m : MemoryService) : Type 1 where
  pub at_recall :
      (P : World → Type 0)
      → IsAside P
      → (run_id : ℕ) (goal : Text) → Stays P (λ e. ⊥) (m.recall run_id goal)
  pub at_write :
      (P : World → Type 0)
      → IsAside P
      → (run_id : ℕ) (goal : Text) (outcome : MemoryOutcome) (answer : Text)
      → Stays P (λ e. ⊥) (m.write run_id goal outcome answer)

-- A best-effort service keeps every aside invariant.
pub IsBestEffort→ServiceKeeps :
    (P : World → Type 0) (m : MemoryService) → IsAside P → IsBestEffort m → ServiceKeeps P m
IsBestEffort→ServiceKeeps P m aside best = record {
  at_recall = λ r goal. Keeps-Stays (m.recall r goal) (best.at_recall P aside r goal);
  at_write = λ r goal outcome answer.
      Keeps-Stays (m.write r goal outcome answer) (best.at_write P aside r goal outcome answer);
}
