-- ===== src/Core/Rebalancing.antt =====
-- tools/marketplace-core/src/evaluate.ts: `rebalancingFindings`. What the source pushes on `findings`
-- is a list here, and a sequence of pushes is their concatenation.
pub mod Range
pub mod Pushed
pub mod Proposal
pub mod Trigger
pub mod Spec
pub mod Groups
pub mod Target
use mandate_x.Base.{
  ℕ, ◌+◌, ◌-◌, ◌*◌, Bool, true, false, not, ◌&&◌, ◌||◌, Option, none, some, List, [], ◌∷◌, ◌++◌,
  ltb, leb, eqb, if◌then◌else◌, any, every, includes, concat, Str, str_eq, nat_eq, int_eq, ◌==◌,
  ◌!=◌, ℤ, pos, ltb_ℤ, leb_ℤ, eqb_ℤ, min_ℤ, rem, ◌-ℤ◌, ◌+ℤ◌,
}
use mandate_x.Core.Primitives.{
  MarketplaceCategory, rebalancing, category_eq, GateObservation, pass, fail, unknown,
}
use mandate_x.Core.Codes.{ExclusionCode, InconclusiveCode}
use mandate_x.Core.Codes
use mandate_x.Core.Findings.{Finding, exclusion, inconclusive, sort_findings}
use mandate_x.Core.Mandate.{
  MarketplaceMandate, RebalancingPolicy, RebalancingPosition, TriggerMode, out_of_range,
  boundary_proximity,
}
use mandate_x.Core.Quote.{
  MarketplaceQuote, Verification, Preview, passed, failed, unavailable, QuoteNormalization,
  CategoryEvidence, rebalancing_evidence, RebalancingEvidence, TriggerReason, outside_current_range,
  near_range_boundary, Pricing, normalized_zero, usd_unavailable,
}
use mandate_x.Core.Quote
use Range.{expected_lower_tick, is_outside, boundary_distance}

-- `gateFinding`, where `undefined` pushes nothing.
unfoldable pub gate_finding : GateObservation → ExclusionCode → InconclusiveCode → List Finding
gate_finding pass failed_code unknown_code = []
gate_finding fail failed_code unknown_code = exclusion failed_code ∷ []
gate_finding unknown failed_code unknown_code = inconclusive unknown_code ∷ []

unfoldable pub add_if : Bool → Finding → List Finding
add_if condition finding = if condition then finding ∷ [] else []

pub record TimestampCodes : Type 0 where
  pub precedes_mandate : ExclusionCode
  pub stale : ExclusionCode
  pub future : InconclusiveCode

-- An age below zero is never above `maxAgeSeconds`, so the difference may stop at 0.
unfoldable pub timestamp_findings :
    MarketplaceMandate
    → (evaluated_at observed_at max_age_seconds : ℕ) → TimestampCodes
    → List Finding
timestamp_findings m evaluated_at observed_at max_age_seconds codes =
    add_if (ltb observed_at m.created_at) (exclusion codes.precedes_mandate)
    ++ (add_if (ltb (evaluated_at + m.max_clock_skew_seconds) observed_at)
          (inconclusive codes.future)
        ++ add_if (ltb max_age_seconds (evaluated_at - observed_at)) (exclusion codes.stale))

-- The loop over the six verification gates.
unfoldable pub verification_findings : Verification → List Finding
verification_findings v = concat (
    gate_finding v.identity Codes.identity_unavailable Codes.identity_check_inconclusive
    ∷ gate_finding v.publisher Codes.publisher_unknown Codes.publisher_check_inconclusive
    ∷ gate_finding v.endpoint Codes.agent_unreachable Codes.endpoint_check_inconclusive
    ∷ gate_finding v.task_interface Codes.task_interface_unsupported
        Codes.task_interface_check_inconclusive
    ∷ gate_finding v.category Codes.category_unverified Codes.category_check_inconclusive
    ∷ gate_finding v.quote_completeness Codes.quote_incomplete Codes.quote_completeness_inconclusive
    ∷ [])

abbrev pub quote_times : TimestampCodes
quote_times = record {
  precedes_mandate = Codes.quote_precedes_mandate;
  stale = Codes.quote_stale;
  future = Codes.quote_timestamp_in_future;
}

abbrev pub estimate_times : TimestampCodes
estimate_times = record {
  precedes_mandate = Codes.estimate_precedes_mandate;
  stale = Codes.estimate_stale;
  future = Codes.estimate_timestamp_in_future;
}

abbrev pub reputation_times : TimestampCodes
reputation_times = record {
  precedes_mandate = Codes.reputation_precedes_mandate;
  stale = Codes.reputation_stale;
  future = Codes.reputation_timestamp_in_future;
}

abbrev preview_times : TimestampCodes
preview_times = record {
  precedes_mandate = Codes.preview_precedes_mandate;
  stale = Codes.preview_stale;
  future = Codes.preview_timestamp_in_future;
}

abbrev category_evidence_times : TimestampCodes
category_evidence_times = record {
  precedes_mandate = Codes.category_evidence_precedes_mandate;
  stale = Codes.category_evidence_stale;
  future = Codes.category_evidence_timestamp_in_future;
}

-- From the category of the mandate to `quote.normalization`.
unfoldable pub lifetime_findings : MarketplaceMandate → MarketplaceQuote → ℕ → List Finding
lifetime_findings m q evaluated_at = concat (
    add_if (m.category != rebalancing) (exclusion Codes.mandate_category_mismatch)
    ∷ add_if (q.mandate_id != m.mandate_id) (exclusion Codes.mandate_id_mismatch)
    ∷ add_if (q.category != m.category) (exclusion Codes.mandate_category_mismatch)
    ∷ add_if (leb m.expires_at evaluated_at) (exclusion Codes.mandate_expired)
    ∷ timestamp_findings m evaluated_at q.observed_at m.max_evidence_age_seconds quote_times
    ∷ add_if (ltb (evaluated_at + m.max_clock_skew_seconds) q.captured_at)
        (inconclusive Codes.capture_timestamp_in_future)
    ∷ add_if (leb q.expires_at evaluated_at) (exclusion Codes.quote_expired)
    ∷ add_if (ltb m.expires_at q.expires_at) (exclusion Codes.quote_outlives_mandate)
    ∷ timestamp_findings m evaluated_at q.estimates.observed_at m.max_evidence_age_seconds
        estimate_times
    ∷ timestamp_findings m evaluated_at q.reputation.observed_at m.max_evidence_age_seconds
        reputation_times
    ∷ [])

unfoldable pub normalization_findings : QuoteNormalization → List Finding
normalization_findings (QuoteNormalization.inconclusive code) = inconclusive code ∷ []
normalization_findings _ = []

unfoldable pub preview_findings : MarketplaceMandate → MarketplaceQuote → ℕ → Preview → List Finding
preview_findings m q evaluated_at (failed _) = exclusion Codes.execution_preview_failed ∷ []
preview_findings m q evaluated_at unavailable =
    inconclusive Codes.execution_preview_inconclusive ∷ []
preview_findings m q evaluated_at (passed observed_at observed_block observed_block_hash) =
    timestamp_findings m evaluated_at observed_at m.max_preview_age_seconds preview_times
    ++ add_if (observed_block != q.observed_block || observed_block_hash != q.observed_block_hash)
        (exclusion Codes.preview_block_mismatch)

-- The evidence's block, position and protocol.
unfoldable pub evidence_findings :
    MarketplaceMandate
    → MarketplaceQuote
    → ℕ
    → RebalancingEvidence
    → RebalancingPolicy
    → List Finding
evidence_findings m q evaluated_at e p = concat (
    timestamp_findings m evaluated_at e.observed_at m.max_evidence_age_seconds
      category_evidence_times
    ∷ add_if
        (e.observed_block != q.observed_block || e.observed_block_hash != q.observed_block_hash)
        (exclusion Codes.evidence_block_mismatch)
    ∷ add_if
        (e.position.pool_address != p.position.pool_address
          || e.position.position_manager_address != p.position.position_manager_address
          || e.position.token_id != p.position.token_id)
        (exclusion Codes.position_mismatch)
    ∷ add_if (not (includes e.protocol m.permissions.allowed_protocols))
        (exclusion Codes.protocol_not_allowed)
    ∷ [])

abbrev reason_beq : TriggerReason → TriggerReason → Bool
reason_beq outside_current_range outside_current_range = true
reason_beq near_range_boundary near_range_boundary = true
reason_beq _ _ = false

abbrev is_mode : TriggerMode → TriggerMode → Bool
is_mode out_of_range out_of_range = true
is_mode boundary_proximity boundary_proximity = true
is_mode _ _ = false

-- The trigger that the evidence reports, against the observed range and the mandate's mode.
unfoldable pub trigger_findings : RebalancingEvidence → RebalancingPolicy → List Finding
trigger_findings e p =
    let outside = is_outside e.current_tick e.current_lower_tick e.current_upper_tick in
    let distance = boundary_distance e.current_tick e.current_lower_tick e.current_upper_tick in
    concat (
      add_if (not e.trigger.fired) (exclusion Codes.rebalance_trigger_not_fired)
      ∷ add_if
          (not (
            pos e.trigger.distance_to_boundary_ticks == distance
            && reason_beq e.trigger.reason
                (if outside then outside_current_range else near_range_boundary)))
          (exclusion Codes.trigger_evidence_invalid)
      ∷ add_if
          (e.trigger.fired
            && (is_mode p.trigger_mode out_of_range && not outside
                || is_mode p.trigger_mode boundary_proximity
                  && not outside
                  && ltb_ℤ (pos p.trigger_distance_ticks) distance))
          (exclusion Codes.trigger_policy_mismatch)
      ∷ [])

abbrev is_aligned : ℤ → ℕ → Bool
is_aligned tick spacing = rem tick spacing == pos 0

unfoldable pub endpoints_aligned : RebalancingEvidence → Bool
endpoints_aligned e =
    every (λ tick. is_aligned tick e.tick_spacing)
      (e.current_lower_tick ∷ e.current_upper_tick ∷ e.proposed_lower_tick ∷ e.proposed_upper_tick
        ∷ [])

unfoldable pub target_width_aligned : RebalancingEvidence → RebalancingPolicy → Bool
target_width_aligned e p = is_aligned (pos p.target_width_ticks) e.tick_spacing

unfoldable pub range_outside_policy : RebalancingEvidence → RebalancingPolicy → Bool
range_outside_policy e p =
    ltb_ℤ e.proposed_lower_tick p.approved_lower_tick
    || ltb_ℤ p.approved_upper_tick e.proposed_upper_tick
    || leb_ℤ e.proposed_upper_tick e.proposed_lower_tick
    || ltb_ℤ e.current_tick e.proposed_lower_tick
    || leb_ℤ e.proposed_upper_tick e.current_tick

unfoldable pub target_width_mismatch : RebalancingEvidence → RebalancingPolicy → Bool
target_width_mismatch e p =
    let width = pos p.target_width_ticks in
    let lower = expected_lower_tick e.current_tick p.target_width_ticks e.tick_spacing in
    e.proposed_upper_tick -ℤ e.proposed_lower_tick != width
    || e.proposed_lower_tick != lower
    || e.proposed_upper_tick != lower +ℤ width

-- The proposed range, against the tick grid, the approved range and the exact target range.
unfoldable pub range_findings : RebalancingEvidence → RebalancingPolicy → List Finding
range_findings e p = concat (
    add_if (not (endpoints_aligned e)) (exclusion Codes.tick_alignment_invalid)
    ∷ add_if (not (target_width_aligned e p)) (exclusion Codes.target_width_not_tick_aligned)
    ∷ add_if (range_outside_policy e p) (exclusion Codes.range_outside_policy)
    ∷ add_if (target_width_aligned e p && target_width_mismatch e p)
        (exclusion Codes.target_width_mismatch)
    ∷ [])

unfoldable pub fee_findings : MarketplaceMandate → Pricing → List Finding
fee_findings m (normalized_zero _) =
    add_if (ltb m.budgets.max_agent_fee_usd_micros 0) (exclusion Codes.agent_fee_budget_exceeded)
fee_findings m (usd_unavailable _ _) = []

unfoldable pub budget_findings : MarketplaceMandate → MarketplaceQuote → List Finding
budget_findings m q = concat (
    add_if (ltb m.budgets.max_gas_usd_micros q.estimates.gas_usd_micros)
      (exclusion Codes.gas_budget_exceeded)
    ∷ add_if (ltb m.budgets.max_slippage_bps q.estimates.slippage_bps)
        (exclusion Codes.slippage_budget_exceeded)
    ∷ add_if (ltb m.budgets.max_exposure_usd_micros q.estimates.exposure_usd_micros)
        (exclusion Codes.exposure_budget_exceeded)
    ∷ fee_findings m q.pricing
    ∷ [])

unfoldable pub permission_findings : MarketplaceMandate → MarketplaceQuote → ℕ → List Finding
permission_findings m q evaluated_at = concat (
    add_if (ltb m.permissions.max_spend_usd_micros q.permissions.spend_cap_usd_micros)
      (exclusion Codes.permission_spend_cap_exceeded)
    ∷ add_if (leb q.permissions.expires_at evaluated_at) (exclusion Codes.permission_expired)
    ∷ add_if (ltb m.permissions.expires_at q.permissions.expires_at)
        (exclusion Codes.permission_outlives_mandate)
    ∷ add_if
        (any (λ contract. not (includes contract m.permissions.allowed_contracts))
          q.permissions.contracts)
        (exclusion Codes.permission_contract_not_allowed)
    ∷ add_if (any (λ call. not (includes call m.permissions.allowed_calls)) q.permissions.calls)
        (exclusion Codes.permission_call_not_allowed)
    ∷ [])

-- What follows the two early returns: nothing without rebalancing evidence and policy.
unfoldable pub category_findings :
    MarketplaceMandate
    → MarketplaceQuote
    → ℕ
    → CategoryEvidence
    → Option RebalancingPolicy
    → List Finding
category_findings m q evaluated_at (rebalancing_evidence e) (some p) = concat (
    evidence_findings m q evaluated_at e p
    ∷ trigger_findings e p
    ∷ range_findings e p
    ∷ budget_findings m q
    ∷ permission_findings m q evaluated_at
    ∷ [])
category_findings m q evaluated_at _ _ = []

-- Everything that is pushed, in order.
unfoldable pub pushed_findings : MarketplaceMandate → MarketplaceQuote → ℕ → List Finding
pushed_findings m q evaluated_at = concat (
    verification_findings q.verification
    ∷ lifetime_findings m q evaluated_at
    ∷ normalization_findings q.normalization
    ∷ preview_findings m q evaluated_at q.preview
    ∷ category_findings m q evaluated_at q.category_evidence m.rebalancing_policy
    ∷ [])

unfoldable pub rebalancing_findings : MarketplaceMandate → MarketplaceQuote → ℕ → List Finding
rebalancing_findings m q evaluated_at = sort_findings (pushed_findings m q evaluated_at)
