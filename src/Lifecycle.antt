-- ===== src/Lifecycle.antt =====
-- The handlers that carry a transaction from its approval to its completion.
pub mod State
pub mod Progress
pub mod Points
pub mod Handlers
pub mod Operation
pub mod Tests
