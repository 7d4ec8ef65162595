-- ===== src/Recon.antt =====
-- packages/modules/recon: programs, targets, hypotheses, executions and findings.
pub mod Models
pub mod Services
pub mod Approvals
pub mod Executions
pub mod Routes
pub mod Frame
pub mod Approving
pub mod Serving
pub mod Lineage
pub mod Cleared
pub mod Tally
pub mod Invariant
