-- ===== src/Core.antt =====
pub mod Primitives
pub mod Codes
pub mod Messages
pub mod Findings
pub mod Texts
pub mod Mandate
pub mod CategoryPolicy
pub mod Quote
pub mod Errors
pub mod QuoteSchema
pub mod Normalize
pub mod Ranking
pub mod Rebalancing
pub mod Decision
pub mod Decide
pub mod Candidates
pub mod Receipt
pub mod Evaluate
pub mod Consistency
pub mod Examples
