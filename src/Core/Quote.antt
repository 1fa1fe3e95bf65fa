-- ===== src/Core/Quote.antt =====
-- tools/marketplace-core/src/schemas.ts: quotes, and the projections that they are made from.
use mandate_x.Base.{ℕ, List, Str, ℤ, Bool}
use mandate_x.Core.Primitives.{
  MarketplaceCategory, rebalancing, grid, yield, health, GateObservation, CandidateKey,
}
use mandate_x.Core.Codes.{InconclusiveCode, UnsupportedCode}
use mandate_x.Core.Mandate.{RebalancingPosition}

pub data TaskInterface : Type 0 where
  erc8183 a2a mcp : TaskInterface

-- `chainId` and `tokenId` are the candidate's key.
pub record MarketplaceCandidate : Type 0 where
  pub id : CandidateKey
  pub owner : Str
  pub publisher : Str
  pub task_interface : TaskInterface

pub record SourceCommitments : Type 0 where
  pub quote_validation_sha256 : Str
  pub preview_validation_sha256 : Str

pub record Estimates : Type 0 where
  pub gas_usd_micros : ℕ
  pub slippage_bps : ℕ
  pub exposure_usd_micros : ℕ
  pub observed_at : ℕ

pub record QuotePermissions : Type 0 where
  pub contracts : List Str
  pub calls : List Str
  pub spend_cap_usd_micros : ℕ
  pub expires_at : ℕ

pub record Verification : Type 0 where
  pub identity : GateObservation
  pub publisher : GateObservation
  pub endpoint : GateObservation
  pub task_interface : GateObservation
  pub category : GateObservation
  pub quote_completeness : GateObservation

pub data PreviewErrorCode : Type 0 where
  caller_authority_rejected evm_simulation_reverted identity_owner_mismatch : PreviewErrorCode
  position_authority_rejected preview_state_invalid transaction_plan_invalid : PreviewErrorCode
  transaction_policy_rejected : PreviewErrorCode

pub data Preview : Type 0 where
  passed : (observed_at observed_block : ℕ) (observed_block_hash : Str) → Preview
  failed : PreviewErrorCode → Preview
  unavailable : Preview

pub record Reputation : Type 0 where
  pub score_bps : ℕ
  pub sample_size : ℕ
  pub evidence_confidence_bps : ℕ
  pub observed_at : ℕ

pub data TriggerReason : Type 0 where
  outside_current_range near_range_boundary : TriggerReason

pub record Trigger : Type 0 where
  pub fired : Bool
  pub reason : TriggerReason
  pub distance_to_boundary_ticks : ℕ

pub record RebalancingEvidence : Type 0 where
  pub protocol : Str
  pub position : RebalancingPosition
  pub observed_at : ℕ
  pub observed_block : ℕ
  pub observed_block_hash : Str
  pub current_tick : ℤ
  pub tick_spacing : ℕ
  pub current_lower_tick : ℤ
  pub current_upper_tick : ℤ
  pub proposed_lower_tick : ℤ
  pub proposed_upper_tick : ℤ
  pub trigger : Trigger

pub data CategoryEvidence : Type 0 where
  rebalancing_evidence : RebalancingEvidence → CategoryEvidence
  grid_evidence : (observed_at : ℕ) → CategoryEvidence
  yield_evidence : (observed_at : ℕ) → CategoryEvidence
  health_evidence : (observed_at : ℕ) → CategoryEvidence

-- `categoryEvidence.category` and `categoryEvidence.observedAt`
abbrev pub evidence_category : CategoryEvidence → MarketplaceCategory
evidence_category (rebalancing_evidence _) = rebalancing
evidence_category (grid_evidence _) = grid
evidence_category (yield_evidence _) = yield
evidence_category (health_evidence _) = health

abbrev pub evidence_observed_at : CategoryEvidence → ℕ
evidence_observed_at (rebalancing_evidence e) = e.observed_at
evidence_observed_at (grid_evidence t) = t
evidence_observed_at (yield_evidence t) = t
evidence_observed_at (health_evidence t) = t

-- A price in atomic units of a currency.
pub record Price : Type 0 where
  pub amount_atomic : ℕ
  pub currency : Str

pub record DisplaySafeQuoteProjection : Type 0 where
  pub captured_at : ℕ
  pub source_commitments : SourceCommitments
  pub quote_id : Str
  pub mandate_id : Str
  pub category : MarketplaceCategory
  pub candidate : MarketplaceCandidate
  pub observed_at : ℕ
  pub observed_block : ℕ
  pub observed_block_hash : Str
  pub expires_at : ℕ
  pub proposed_action : Str
  pub price : Price
  pub estimates : Estimates
  pub permissions : QuotePermissions
  pub verification : Verification
  pub preview : Preview
  pub reputation : Reputation
  pub category_evidence : CategoryEvidence

-- The amount and the agent fee of `normalized_zero` are the literal "0".
pub data Pricing : Type 0 where
  normalized_zero : (currency : Str) → Pricing
  usd_unavailable : (amount_atomic : ℕ) (currency : Str) → Pricing

-- The adapter of `normalized` is the one of rebalancing.
pub data QuoteNormalization : Type 0 where
  normalized : QuoteNormalization
  inconclusive : InconclusiveCode → QuoteNormalization
  unsupported : UnsupportedCode → QuoteNormalization

pub record MarketplaceQuote : Type 0 where
  pub source_commitments : SourceCommitments
  pub source_projection_sha256 : Str
  pub captured_at : ℕ
  pub quote_id : Str
  pub mandate_id : Str
  pub category : MarketplaceCategory
  pub candidate : MarketplaceCandidate
  pub observed_at : ℕ
  pub observed_block : ℕ
  pub observed_block_hash : Str
  pub expires_at : ℕ
  pub proposed_action : Str
  pub pricing : Pricing
  pub estimates : Estimates
  pub permissions : QuotePermissions
  pub verification : Verification
  pub preview : Preview
  pub reputation : Reputation
  pub category_evidence : CategoryEvidence
  pub normalization : QuoteNormalization
