-- ===== src/Security.antt =====
-- packages/seclab-core/src/seclab/security: accounts, audit trail, evidence, approvals, scope.
pub mod Models
pub mod Url
pub mod Scope
pub mod Audit
pub mod Approval
pub mod Evidence
pub mod Auth
