-- ===== src/Tools.antt =====
-- The tools and their registry (backend/atlas/tools).
pub mod Registry
pub mod Files
pub mod Calculator
