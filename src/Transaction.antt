-- ===== src/Transaction.antt =====
-- The life of a weighbridge transaction.
pub mod Status
pub mod Graph
mod Tests
