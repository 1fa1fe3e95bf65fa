-- ===== src/Trust/Permanence.antt =====
-- tools/marketplace-core/src/trust-bundle.ts: what no sequence of accepted bundles can undo.
pub mod Steps
pub mod Revocation
pub mod Bindings
pub mod Retention
pub mod Errors
pub mod Rollback
