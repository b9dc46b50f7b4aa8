-- ===== src/Api.antt =====
-- The API (backend/atlas/api).
pub mod Stream
pub mod Routes
