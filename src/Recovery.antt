-- ===== src/Recovery.antt =====
-- Replay of the ledger and crash recovery (backend/atlas/recovery).
pub mod Replay
pub mod Reconciler
pub mod Track
pub mod Interrupted
pub mod Integrity
