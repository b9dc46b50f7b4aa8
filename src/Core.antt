-- ===== src/Core.antt =====
-- What the components share: JSON values, Python's built-ins, the settings (backend/atlas/core).
pub mod Json
pub mod Arithmetic
pub mod Floats
pub mod Python
pub mod Settings
