-- ===== src/Tests.antt =====
-- Runs of the program at concrete data, and the theorems at such runs.
pub mod Data
pub mod Workflow
pub mod Scope
pub mod Approval
pub mod Http
pub mod Access
pub mod Surface
pub mod Sensor
pub mod Feed
