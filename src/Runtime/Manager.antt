-- ===== src/Runtime/Manager.antt =====
-- `RunManager` of backend/atlas/runtime/manager.py.
pub mod Finalize
pub mod Cancels
pub mod Attempt
pub mod Replan
pub mod Tasks
pub mod Execute
pub mod Kept
pub mod Bounded
pub mod Sequence
pub mod Settled
pub mod Outcome
pub mod Once
pub mod Replayed
pub mod Remembering
pub mod Appended
pub mod Streamed
