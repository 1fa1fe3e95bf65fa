-- ===== src/Core/Messages.antt =====
-- tools/marketplace-core/src/codes.ts: the messages that the codes carry.
use mandate_x.Base.{String}
use mandate_x.Core.Codes.{ExclusionCode, InconclusiveCode, UnsupportedCode}

unfoldable pub exclusion_message : ExclusionCode → String
exclusion_message ExclusionCode.agent_fee_budget_exceeded =
    "The normalized agent fee exceeds the mandate budget."
exclusion_message ExclusionCode.agent_unreachable = "The required agent endpoint was not reachable."
exclusion_message ExclusionCode.category_evidence_precedes_mandate =
    "Category evidence predates the mandate."
exclusion_message ExclusionCode.category_evidence_stale =
    "Category evidence is older than the mandate permits."
exclusion_message ExclusionCode.category_unverified =
    "The agent category capability was not verified."
exclusion_message ExclusionCode.evidence_block_mismatch =
    "The rebalancing evidence does not match the quote block."
exclusion_message ExclusionCode.estimate_precedes_mandate =
    "Cost and exposure estimates predate the mandate."
exclusion_message ExclusionCode.estimate_stale =
    "The cost and exposure estimates are older than the mandate permits."
exclusion_message ExclusionCode.execution_preview_failed = "The read-only execution preview failed."
exclusion_message ExclusionCode.exposure_budget_exceeded =
    "The estimated exposure exceeds the mandate budget."
exclusion_message ExclusionCode.gas_budget_exceeded =
    "The estimated gas cost exceeds the mandate budget."
exclusion_message ExclusionCode.identity_unavailable =
    "A verified BSC agent identity was not available."
exclusion_message ExclusionCode.mandate_category_mismatch =
    "The quote category does not match the mandate."
exclusion_message ExclusionCode.mandate_expired = "The mandate has expired."
exclusion_message ExclusionCode.mandate_id_mismatch = "The quote was not issued for this mandate."
exclusion_message ExclusionCode.permission_call_not_allowed =
    "The quote requests a call outside the mandate allowlist."
exclusion_message ExclusionCode.permission_contract_not_allowed =
    "The quote requests a contract outside the mandate allowlist."
exclusion_message ExclusionCode.permission_expired = "The requested permission has expired."
exclusion_message ExclusionCode.permission_outlives_mandate =
    "The requested permission outlives the mandate policy."
exclusion_message ExclusionCode.permission_spend_cap_exceeded =
    "The requested spend cap exceeds the mandate."
exclusion_message ExclusionCode.position_mismatch =
    "The quote targets a different liquidity position."
exclusion_message ExclusionCode.preview_block_mismatch =
    "The execution preview does not match the quote block."
exclusion_message ExclusionCode.preview_precedes_mandate =
    "The execution preview predates the mandate."
exclusion_message ExclusionCode.preview_stale =
    "The execution preview is older than the mandate permits."
exclusion_message ExclusionCode.protocol_not_allowed =
    "The proposed protocol is not allowed by the mandate."
exclusion_message ExclusionCode.publisher_unknown = "The agent publisher could not be verified."
exclusion_message ExclusionCode.quote_expired = "The quote has expired."
exclusion_message ExclusionCode.quote_incomplete =
    "The trusted quote validator marked the quote incomplete."
exclusion_message ExclusionCode.quote_outlives_mandate = "The quote expiry outlives the mandate."
exclusion_message ExclusionCode.quote_precedes_mandate =
    "The quote observation predates the mandate."
exclusion_message ExclusionCode.quote_stale =
    "The quote observation is older than the mandate permits."
exclusion_message ExclusionCode.range_outside_policy =
    "The proposed range falls outside the approved range."
exclusion_message ExclusionCode.rebalance_trigger_not_fired =
    "The mandate's rebalance trigger has not fired."
exclusion_message ExclusionCode.reputation_precedes_mandate =
    "Reputation evidence predates the mandate."
exclusion_message ExclusionCode.reputation_stale =
    "Reputation evidence is older than the mandate permits."
exclusion_message ExclusionCode.slippage_budget_exceeded =
    "The estimated slippage exceeds the mandate budget."
exclusion_message ExclusionCode.target_width_mismatch =
    "The proposed range width does not match the mandate."
exclusion_message ExclusionCode.target_width_not_tick_aligned =
    "The mandate target width is not divisible by tick spacing."
exclusion_message ExclusionCode.task_interface_unsupported =
    "The agent cannot accept a supported task interface."
exclusion_message ExclusionCode.tick_alignment_invalid =
    "A proposed range endpoint is not aligned to tick spacing."
exclusion_message ExclusionCode.trigger_evidence_invalid =
    "The trigger reason or boundary distance contradicts the observed range."
exclusion_message ExclusionCode.trigger_policy_mismatch =
    "The fired trigger does not satisfy the mandate trigger mode."

unfoldable pub inconclusive_message : InconclusiveCode → String
inconclusive_message InconclusiveCode.capture_timestamp_in_future =
    "The in-process capture time is beyond the permitted clock skew."
inconclusive_message InconclusiveCode.category_check_inconclusive =
    "Category capability verification was inconclusive."
inconclusive_message InconclusiveCode.category_evidence_timestamp_in_future =
    "Category evidence time is beyond the permitted clock skew."
inconclusive_message InconclusiveCode.endpoint_check_inconclusive =
    "Endpoint health verification was inconclusive."
inconclusive_message InconclusiveCode.estimate_timestamp_in_future =
    "Estimate time is beyond the permitted clock skew."
inconclusive_message InconclusiveCode.execution_preview_inconclusive =
    "No conclusive read-only execution preview is available."
inconclusive_message InconclusiveCode.identity_check_inconclusive =
    "BSC identity verification was inconclusive."
inconclusive_message InconclusiveCode.pricing_usd_unavailable =
    "A nonzero token-atomic fee cannot be compared without a trusted USD price."
inconclusive_message InconclusiveCode.publisher_check_inconclusive =
    "Publisher verification was inconclusive."
inconclusive_message InconclusiveCode.preview_timestamp_in_future =
    "Preview time is beyond the permitted clock skew."
inconclusive_message InconclusiveCode.quote_completeness_inconclusive =
    "Quote completeness verification was inconclusive."
inconclusive_message InconclusiveCode.quote_timestamp_in_future =
    "The quote timestamp is beyond the permitted clock skew."
inconclusive_message InconclusiveCode.reputation_timestamp_in_future =
    "Reputation evidence time is beyond the permitted clock skew."
inconclusive_message InconclusiveCode.task_interface_check_inconclusive =
    "Task-interface verification was inconclusive."

unfoldable pub unsupported_message : UnsupportedCode → String
unsupported_message UnsupportedCode.category_grid_unsupported =
    "Grid strategy normalization is not implemented in Marketplace Core v1."
unsupported_message UnsupportedCode.category_health_unsupported =
    "Health-factor strategy normalization is not implemented in Marketplace Core v1."
unsupported_message UnsupportedCode.category_yield_unsupported =
    "Yield strategy normalization is not implemented in Marketplace Core v1."
