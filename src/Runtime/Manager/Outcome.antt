-- ===== src/Runtime/Manager/Outcome.antt =====
-- How a whole run ends: its row, its tasks, and that its loops have fuel enough.
mod Stages
mod Told
mod Attempts
mod Ladder
mod Rounds
mod Replans
mod Passes
mod Generations
mod Delivered
mod Phases
pub mod Ends
