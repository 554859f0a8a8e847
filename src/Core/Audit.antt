-- ===== src/Core/Audit.antt =====
-- internal/core/audit/service.go: what an audit row shows of a change, and the hash chain.
pub mod Sanitize
pub mod Diff
pub mod Chain
