-- ===== src/Refund.antt =====
-- High-value refunds: the workflow (workflows/refund/workflow.py) and its activities
-- (workflows/refund/activities.py).
pub mod State
pub mod Activities
pub mod Once
pub mod Machine
pub mod Notified
