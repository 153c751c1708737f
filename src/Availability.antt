-- ===== src/Availability.antt =====
-- The availability arithmetic (internal/availability): its parts, one child module each.
pub mod Interval
pub mod Points
pub mod Ratio
pub mod Series
pub mod Compute
