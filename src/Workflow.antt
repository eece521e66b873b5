-- ===== src/Workflow.antt =====
-- The configurable material workflow: its snapshot on a transaction, the steps that are still
-- unmet, the guards of each action and what the operator is offered next.
pub mod Snapshot
pub mod Steps
pub mod Guards
pub mod Actions
pub mod Tests
