-- ===== src/Core/QuoteSchema.antt =====
-- tools/marketplace-core/src/schemas.ts: the schemas of quotes and projections, as tests of values.
use mandate_x.Base.{ℕ, Bool, true, false, not, ◌&&◌, leb, ltb, eqb, ◌==◌, ltb_ℤ}
use mandate_x.Core.Primitives.{
  MarketplaceCategory, rebalancing, category_eq, unix_seconds_schema, block_number_schema,
  uint256_decimal_schema, basis_points_schema, tick_schema,
}
use mandate_x.Core.Texts.{
  canonical_identifier_schema, address_schema, bytes32_schema, sha256_schema, trimmed_schema,
  call_id_schema, protocol_id_schema, unique_sorted_schema,
}
use mandate_x.Core.Codes.{
  InconclusiveCode, UnsupportedCode, pricing_usd_unavailable, category_grid_unsupported,
  category_yield_unsupported, category_health_unsupported,
}
use mandate_x.Core.CategoryPolicy.{category_policies, ReceiptAdapter}
use mandate_x.Core.Mandate.{rebalancing_position_schema, max_width_ticks}
use mandate_x.Core.Quote.{
  MarketplaceCandidate, SourceCommitments, Estimates, QuotePermissions, Preview, passed, failed,
  unavailable, Reputation, RebalancingEvidence, CategoryEvidence, rebalancing_evidence,
  grid_evidence, yield_evidence, health_evidence, evidence_category, evidence_observed_at,
  DisplaySafeQuoteProjection, Pricing, normalized_zero, usd_unavailable, QuoteNormalization,
  normalized, MarketplaceQuote,
}

unfoldable pub candidate_schema : MarketplaceCandidate → Bool
candidate_schema c =
    eqb c.id.chain_id 56
    && uint256_decimal_schema c.id.token_id
    && address_schema c.owner
    && address_schema c.publisher

unfoldable pub commitments_schema : SourceCommitments → Bool
commitments_schema c =
    sha256_schema c.quote_validation_sha256 && sha256_schema c.preview_validation_sha256

unfoldable pub estimates_schema : Estimates → Bool
estimates_schema e =
    uint256_decimal_schema e.gas_usd_micros
    && basis_points_schema e.slippage_bps
    && uint256_decimal_schema e.exposure_usd_micros
    && unix_seconds_schema e.observed_at

unfoldable pub quote_permissions_schema : QuotePermissions → Bool
quote_permissions_schema p =
    unique_sorted_schema 32 address_schema p.contracts
    && unique_sorted_schema 64 call_id_schema p.calls
    && uint256_decimal_schema p.spend_cap_usd_micros
    && unix_seconds_schema p.expires_at

unfoldable pub preview_schema : Preview → Bool
preview_schema (passed observed_at block hash) =
    unix_seconds_schema observed_at && block_number_schema block && bytes32_schema hash
preview_schema (failed _) = true
preview_schema unavailable = true

unfoldable pub reputation_schema : Reputation → Bool
reputation_schema r =
    basis_points_schema r.score_bps
    && leb r.sample_size 1000000
    && basis_points_schema r.evidence_confidence_bps
    && unix_seconds_schema r.observed_at

-- The ranges that the arithmetic of a rebalance rests on: both are at least 1 in the source too.
unfoldable pub rebalancing_evidence_schema : RebalancingEvidence → Bool
rebalancing_evidence_schema e =
    leb 1 e.tick_spacing
    && leb e.tick_spacing max_width_ticks
    && ltb_ℤ e.current_lower_tick e.current_upper_tick
    && ltb_ℤ e.proposed_lower_tick e.proposed_upper_tick
    && rebalancing_position_schema e.position
    && protocol_id_schema e.protocol
    && unix_seconds_schema e.observed_at
    && block_number_schema e.observed_block
    && bytes32_schema e.observed_block_hash
    && tick_schema e.current_tick
    && tick_schema e.current_lower_tick
    && tick_schema e.current_upper_tick
    && tick_schema e.proposed_lower_tick
    && tick_schema e.proposed_upper_tick
    && leb e.trigger.distance_to_boundary_ticks max_width_ticks

unfoldable pub category_evidence_schema : CategoryEvidence → Bool
category_evidence_schema (rebalancing_evidence e) = rebalancing_evidence_schema e
category_evidence_schema (grid_evidence t) = unix_seconds_schema t
category_evidence_schema (yield_evidence t) = unix_seconds_schema t
category_evidence_schema (health_evidence t) = unix_seconds_schema t

unfoldable pub pricing_schema : Pricing → Bool
pricing_schema (normalized_zero currency) = address_schema currency
pricing_schema (usd_unavailable amount currency) =
    uint256_decimal_schema amount && not (eqb amount 0) && address_schema currency

unfoldable pub quote_fields_schema : MarketplaceQuote → Bool
quote_fields_schema q =
    commitments_schema q.source_commitments
    && sha256_schema q.source_projection_sha256
    && unix_seconds_schema q.captured_at
    && canonical_identifier_schema q.quote_id
    && canonical_identifier_schema q.mandate_id
    && candidate_schema q.candidate
    && unix_seconds_schema q.observed_at
    && block_number_schema q.observed_block
    && bytes32_schema q.observed_block_hash
    && unix_seconds_schema q.expires_at
    && trimmed_schema 1000 q.proposed_action
    && pricing_schema q.pricing
    && estimates_schema q.estimates
    && quote_permissions_schema q.permissions
    && preview_schema q.preview
    && reputation_schema q.reputation

-- `observedAt` of a preview that passed; others have none.
unfoldable pub preview_captured : ℕ → Preview → Bool
preview_captured captured_at (passed observed_at _ _) = leb observed_at captured_at
preview_captured captured_at _ = true

-- No observation follows the capture.
unfoldable pub quote_chronology : MarketplaceQuote → Bool
unfolding preview_captured
quote_chronology q =
    leb q.observed_at q.captured_at
    && leb q.estimates.observed_at q.captured_at
    && leb q.reputation.observed_at q.captured_at
    && preview_captured q.captured_at q.preview
    && leb (evidence_observed_at q.category_evidence) q.captured_at
    && ltb q.observed_at q.expires_at
    && ltb q.captured_at q.expires_at

abbrev pub is_pricing_unavailable : InconclusiveCode → Bool
is_pricing_unavailable pricing_usd_unavailable = true
is_pricing_unavailable _ = false

abbrev pub unsupported_beq : UnsupportedCode → UnsupportedCode → Bool
unsupported_beq category_grid_unsupported category_grid_unsupported = true
unsupported_beq category_yield_unsupported category_yield_unsupported = true
unsupported_beq category_health_unsupported category_health_unsupported = true
unsupported_beq _ _ = false

-- How the normalization of a quote goes with the pricing, for a supported category, and with the
-- code of the category, for any other.
unfoldable pub supported_normalization : Pricing → QuoteNormalization → Bool
supported_normalization pricing (QuoteNormalization.unsupported _) = false
supported_normalization (usd_unavailable _ _) (QuoteNormalization.inconclusive code) =
    is_pricing_unavailable code
supported_normalization (usd_unavailable _ _) normalized = false
supported_normalization (normalized_zero _) (QuoteNormalization.inconclusive _) = false
supported_normalization (normalized_zero _) normalized = true

unfoldable pub unsupported_normalization : ReceiptAdapter → QuoteNormalization → Bool
unsupported_normalization (ReceiptAdapter.unsupported expected)
      (QuoteNormalization.unsupported code) =
    unsupported_beq code expected
unsupported_normalization _ _ = false

unfoldable pub normalization_refinement : MarketplaceCategory → Pricing → QuoteNormalization → Bool
unfolding supported_normalization unsupported_normalization category_policies
normalization_refinement rebalancing pricing n = supported_normalization pricing n
normalization_refinement category pricing n =
    unsupported_normalization (category_policies category) n

unfoldable pub marketplace_quote_schema : MarketplaceQuote → Bool
marketplace_quote_schema q =
    quote_fields_schema q
    && category_evidence_schema q.category_evidence
    && q.category == evidence_category q.category_evidence
    && quote_chronology q
    && normalization_refinement q.category q.pricing q.normalization

unfoldable pub projection_fields_schema : DisplaySafeQuoteProjection → Bool
projection_fields_schema p =
    commitments_schema p.source_commitments
    && unix_seconds_schema p.captured_at
    && canonical_identifier_schema p.quote_id
    && canonical_identifier_schema p.mandate_id
    && candidate_schema p.candidate
    && unix_seconds_schema p.observed_at
    && block_number_schema p.observed_block
    && bytes32_schema p.observed_block_hash
    && unix_seconds_schema p.expires_at
    && trimmed_schema 1000 p.proposed_action
    && uint256_decimal_schema p.price.amount_atomic
    && address_schema p.price.currency
    && estimates_schema p.estimates
    && quote_permissions_schema p.permissions
    && preview_schema p.preview
    && reputation_schema p.reputation

unfoldable pub projection_chronology : DisplaySafeQuoteProjection → Bool
unfolding preview_captured
projection_chronology p =
    leb p.observed_at p.captured_at
    && leb p.estimates.observed_at p.captured_at
    && leb (evidence_observed_at p.category_evidence) p.captured_at
    && leb p.reputation.observed_at p.captured_at
    && ltb p.observed_at p.expires_at
    && ltb p.captured_at p.expires_at
    && preview_captured p.captured_at p.preview

unfoldable pub display_safe_quote_projection_schema : DisplaySafeQuoteProjection → Bool
display_safe_quote_projection_schema p =
    projection_fields_schema p
    && category_evidence_schema p.category_evidence
    && p.category == evidence_category p.category_evidence
    && projection_chronology p
