-- ===== src/Faults.antt =====
-- Persisted fault plans for isolated tests
-- (src/agents_should_survive_failure/fault_injection.py): names, rows and their enum values.
pub mod Injector
pub mod Names
pub mod Triggers
pub mod Plans
pub mod Keys
pub mod Delivery
pub use Names.*
