-- ===== src/Agent/Witnesses.antt =====
-- The agent at the mandate and the evidence of the tests of Marketplace Core.
use mandate_x.Base.{◌≡◌, refl, [], arith, pos, ◌+ℤ◌, ◌-ℤ◌, ◌*ℤ◌, ok}
use mandate_x.Core.Quote.{outside_current_range}
use mandate_x.Core.Rebalancing.{range_findings, trigger_findings}
use mandate_x.Core.Examples.Data.{policy, evidence}
use mandate_x.Agent.Proposal.{
  ProposedRange, derive_exact_target_range, is_triggered, is_refused_range, propose_range,
}
use mandate_x.Base.{◌↔◌, true}
use mandate_x.Agent.Proposal.{proposed}
use mandate_x.Agent.Complete.{exact_range, KeepsLimits, propose_range-KeepsLimits}
use mandate_x.Agent.Accepted.{agent_policy, agent_view, submitted, propose_range-accepted}

abbrev proposal : ProposedRange
proposal = record {
  proposed_lower_tick = pos 30;
  proposed_upper_tick = pos 230;
  reason = outside_current_range;
  distance_to_boundary_ticks = pos 0;
}

proposes : propose_range (agent_policy policy) (agent_view evidence) ≡ ok proposal
unfolding propose_range derive_exact_target_range is_triggered is_refused_range ◌+ℤ◌ ◌-ℤ◌ ◌*ℤ◌
proposes = refl

propose_range-accepted_example :
    (trigger_findings (submitted evidence proposal) policy ≡ [])
    × (range_findings (submitted evidence proposal) policy ≡ [])
propose_range-accepted_example =
    propose_range-accepted evidence policy proposal proposes (omega arith) (omega arith) refl refl

propose_range-KeepsLimits_example :
    (propose_range (agent_policy policy) (agent_view evidence)
      ≡ ok (
          proposed (agent_view evidence) (exact_range (agent_policy policy) (agent_view evidence))))
    ↔ ((is_triggered (agent_policy policy) (agent_view evidence) ≡ true)
        × KeepsLimits (agent_policy policy) (agent_view evidence))
propose_range-KeepsLimits_example =
    propose_range-KeepsLimits (agent_policy policy) (agent_view evidence) (omega arith)
      (omega arith)
