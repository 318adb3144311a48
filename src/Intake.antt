-- ===== src/Intake.antt =====
-- The durable intake of one source: its row, its life, and the worker's capability leases.
pub mod Row
pub mod Fields
pub mod Transition
pub mod Reserve
pub mod Capability
