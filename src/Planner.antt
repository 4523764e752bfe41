-- ===== src/Planner.antt =====
-- internal/core/planner/planner.go: from the two listings to an ordered list of actions.
pub mod Ignore
pub mod Order
pub mod Stats
pub mod Loop
pub mod OneWay
pub mod TwoWay
pub mod WellFormed
