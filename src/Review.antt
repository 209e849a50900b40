-- ===== src/Review.antt =====
-- The activities that end a vendor review
-- (src/agents_should_survive_failure/workflows/activities.py).
pub mod State
pub mod Decide
pub mod Settle
pub mod Once
pub mod Cancel
