-- ===== src/Phantom.antt =====
-- packages/modules/phantom: the domains that imitate a target.
pub mod Discovery
pub mod Scoring
pub mod Service
pub mod Ranked
