-- ===== src/Weight.antt =====
-- Weights: decimal kilograms, the net weight, and the stability of a live reading.
pub mod Decimal
pub mod Net
pub mod Parse
pub mod Stability
pub mod Tests
