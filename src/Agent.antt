-- ===== src/Agent.antt =====
-- The rebalancing agent, agents/mandaterebalance/app/agent.
pub mod Proposal
pub mod Accepted
pub mod Complete
mod Witnesses
