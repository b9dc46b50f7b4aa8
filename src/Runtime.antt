-- ===== src/Runtime.antt =====
-- The runtime (backend/atlas/runtime).
pub mod Budget
pub mod Manager
