-- ===== src/Bills.antt =====
-- Recurring bills.
pub mod Reminders
pub mod Record
pub mod Analysis
pub mod Anomalies
