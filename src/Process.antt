-- ===== src/Process.antt =====
-- The process that executes one run: the state that its components share, what surrounds it, and
-- the actions on it. An action is a coroutine that awaits nothing but its own calls.
mod Monad
mod Effects
pub mod Keeps
pub mod Triple
pub mod Stays
pub mod Spends
pub use Monad.*
unfoldable pub use Effects.{tick, is_set, emit_to, emit, complete_as, execute_tool}
