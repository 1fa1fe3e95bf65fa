-- ===== src/Core/Rebalancing/Groups.antt =====
-- Each group of findings is empty exactly when its part of the specification holds.
use mandate_x.Base.{
  ℕ, ◌≡◌, ◌↔◌, Bool, true, false, not, List, [], ◌∷◌, arith, All, any, includes, Str, str_eq,
  str_beq_iff,
}
use mandate_x.Core.Primitives.{GateObservation, pass, category_beq_iff, rebalancing}
use mandate_x.Core.Codes.{ExclusionCode, InconclusiveCode}
use mandate_x.Core.Findings.{Finding}
use mandate_x.Core.Mandate.{MarketplaceMandate, RebalancingPolicy}
use mandate_x.Core.Quote.{
  MarketplaceQuote, Verification, Preview, passed, failed, unavailable, RebalancingEvidence,
}
use mandate_x.Core.Rebalancing.{
  gate_finding, add_if, TimestampCodes, timestamp_findings, verification_findings,
  lifetime_findings, preview_findings, quote_times, estimate_times, reputation_times,
  evidence_findings, budget_findings, fee_findings, permission_findings,
}
use mandate_x.Core.Rebalancing.Spec.{
  GatesPass, IsTimely, LifetimeHolds, PreviewHolds, EvidenceMatches, BudgetHolds, PermissionsHold,
}

gate_finding-nil :
    (g : GateObservation) (c : ExclusionCode) (d : InconclusiveCode)
    → (gate_finding g c d ≡ []) ↔ (g ≡ pass)
unfolding gate_finding
gate_finding-nil g c d = ground arith

pub add_if-nil : (b : Bool) (f : Finding) → (add_if b f ≡ []) ↔ (b ≡ false)
unfolding add_if
add_if-nil b f = ground arith

timestamp_findings-nil :
    (m : MarketplaceMandate) (t observed max_age : ℕ) (codes : TimestampCodes)
    → (timestamp_findings m t observed max_age codes ≡ []) ↔ IsTimely m t observed max_age
unfolding timestamp_findings add_if
timestamp_findings-nil m t observed max_age codes = ground arith

pub verification_findings-nil : (v : Verification) → (verification_findings v ≡ []) ↔ GatesPass v
unfolding verification_findings gate_finding
verification_findings-nil v = ground arith

-- The checks of category, identity and lifetime push nothing exactly when the quote is of the
-- mandate and its category, mandate and quote are live, and the observations are timely.
pub lifetime_findings-nil :
    (m : MarketplaceMandate) (q : MarketplaceQuote) (t : ℕ)
    → (lifetime_findings m q t ≡ []) ↔ LifetimeHolds m q t
unfolding lifetime_findings add_if
lifetime_findings-nil m q t = ground (
  arith,
  timestamp_findings-nil m t q.observed_at m.max_evidence_age_seconds quote_times,
  timestamp_findings-nil m t q.estimates.observed_at m.max_evidence_age_seconds estimate_times,
  timestamp_findings-nil m t q.reputation.observed_at m.max_evidence_age_seconds reputation_times,
  category_beq_iff m.category rebalancing,
  category_beq_iff q.category m.category,
  str_beq_iff q.mandate_id m.mandate_id,
)

pub preview_findings-nil :
    (m : MarketplaceMandate) (q : MarketplaceQuote) (t : ℕ) (p : Preview)
    → (preview_findings m q t p ≡ []) ↔ PreviewHolds m q t p
unfolding preview_findings timestamp_findings add_if
preview_findings-nil m q t (passed at block hash) =
    ground (arith, str_beq_iff hash q.observed_block_hash)
preview_findings-nil m q t (failed c) = ground arith
preview_findings-nil m q t unavailable = ground arith

-- The checks of the evidence push nothing exactly when it is timely, from the block of the quote,
-- of the position of the mandate, and of a protocol that it allows.
pub evidence_findings-nil :
    (m : MarketplaceMandate) (q : MarketplaceQuote) (t : ℕ) (e : RebalancingEvidence)
    (p : RebalancingPolicy)
    → (evidence_findings m q t e p ≡ []) ↔ EvidenceMatches m q t e p
unfolding evidence_findings timestamp_findings add_if
evidence_findings-nil m q t e p = ground (
  arith,
  str_beq_iff e.observed_block_hash q.observed_block_hash,
  str_beq_iff e.position.pool_address p.position.pool_address,
  str_beq_iff e.position.position_manager_address p.position.position_manager_address,
)

pub budget_findings-nil :
    (m : MarketplaceMandate) (q : MarketplaceQuote) → (budget_findings m q ≡ []) ↔ BudgetHolds m q
unfolding budget_findings fee_findings add_if
budget_findings-nil m q = ground arith

any_missing :
    (allowed asked : List Str)
    → (any (λ s. not (includes s allowed)) asked ≡ false)
      ↔ All (λ s. includes s allowed ≡ true) asked
any_missing allowed [] = ground arith
any_missing allowed (s ∷ rest) = ground (arith, any_missing allowed rest)

-- The permission checks push nothing exactly when the spend cap and the expiry are within the
-- mandate, the permission is live, and every contract and call is allowed.
pub permission_findings-nil :
    (m : MarketplaceMandate) (q : MarketplaceQuote) (t : ℕ)
    → (permission_findings m q t ≡ []) ↔ PermissionsHold m q t
unfolding permission_findings add_if
permission_findings-nil m q t = ground (
  arith,
  any_missing m.permissions.allowed_contracts q.permissions.contracts,
  any_missing m.permissions.allowed_calls q.permissions.calls,
)
