-- ===== src/Events.antt =====
-- The event contracts (backend/atlas/events).
pub mod Types
pub mod Gapless
pub mod Hub
