-- ===== src/Agent.antt =====
-- The agent's contracts and components (backend/atlas/agent).
pub mod Schemas
pub mod Prompts
pub mod Jsonio
pub mod Fields
pub mod Turns
pub mod Planner
pub mod Reflector
pub mod Envelope
pub mod Executor
pub mod Context
pub mod Synthesizer
pub mod Kept
pub mod Raises
