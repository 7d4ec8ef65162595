-- ===== src/Core.antt =====
-- packages/seclab-core/src/seclab/core: what the modules share beside the database.
pub mod Http
pub mod Events
pub mod Retention
