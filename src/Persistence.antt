-- ===== src/Persistence.antt =====
-- The tables and the repositories over them (backend/atlas/persistence).
pub mod Tables
pub mod Runs
pub mod Tasks
pub mod Attempts
pub mod Ledger
pub mod Memories
