-- ===== src/Edge.antt =====
-- The edge gateway: its view of the connection, and what it may do without one.
pub mod Connectivity
pub mod OfflinePolicy
pub mod Events
pub mod Store
pub mod Sync
pub mod Tests
