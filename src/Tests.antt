-- ===== src/Tests.antt =====
-- Concrete runs, and the theorems at concrete inputs.
pub mod Fixtures
pub mod Runs
pub mod Parts
pub mod Ends
mod Executions
mod Recall
mod Streams
mod Workspace
mod Metrics
mod Pruning
mod Integrity
mod Calculation
mod Routed
