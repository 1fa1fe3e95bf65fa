-- ===== src/Core/Codes.antt =====
-- tools/marketplace-core/src/codes.ts: the codes of the findings and their names.
use mandate_x.Base.{String}

pub data ExclusionCode : Type 0 where
  agent_fee_budget_exceeded agent_unreachable : ExclusionCode
  category_evidence_precedes_mandate category_evidence_stale : ExclusionCode
  category_unverified evidence_block_mismatch estimate_precedes_mandate : ExclusionCode
  estimate_stale execution_preview_failed exposure_budget_exceeded : ExclusionCode
  gas_budget_exceeded identity_unavailable mandate_category_mismatch : ExclusionCode
  mandate_expired mandate_id_mismatch permission_call_not_allowed : ExclusionCode
  permission_contract_not_allowed permission_expired : ExclusionCode
  permission_outlives_mandate permission_spend_cap_exceeded : ExclusionCode
  position_mismatch preview_block_mismatch preview_precedes_mandate : ExclusionCode
  preview_stale protocol_not_allowed publisher_unknown quote_expired : ExclusionCode
  quote_incomplete quote_outlives_mandate quote_precedes_mandate : ExclusionCode
  quote_stale range_outside_policy rebalance_trigger_not_fired : ExclusionCode
  reputation_precedes_mandate reputation_stale slippage_budget_exceeded : ExclusionCode
  target_width_mismatch target_width_not_tick_aligned : ExclusionCode
  task_interface_unsupported tick_alignment_invalid : ExclusionCode
  trigger_evidence_invalid trigger_policy_mismatch : ExclusionCode

pub data InconclusiveCode : Type 0 where
  capture_timestamp_in_future category_check_inconclusive : InconclusiveCode
  category_evidence_timestamp_in_future endpoint_check_inconclusive : InconclusiveCode
  estimate_timestamp_in_future execution_preview_inconclusive : InconclusiveCode
  identity_check_inconclusive pricing_usd_unavailable : InconclusiveCode
  publisher_check_inconclusive preview_timestamp_in_future : InconclusiveCode
  quote_completeness_inconclusive quote_timestamp_in_future : InconclusiveCode
  reputation_timestamp_in_future task_interface_check_inconclusive : InconclusiveCode

pub data UnsupportedCode : Type 0 where
  category_grid_unsupported category_health_unsupported : UnsupportedCode
  category_yield_unsupported : UnsupportedCode

-- The texts of the codes.
unfoldable pub exclusion_name : ExclusionCode → String
exclusion_name agent_fee_budget_exceeded = "AGENT_FEE_BUDGET_EXCEEDED"
exclusion_name agent_unreachable = "AGENT_UNREACHABLE"
exclusion_name category_evidence_precedes_mandate = "CATEGORY_EVIDENCE_PRECEDES_MANDATE"
exclusion_name category_evidence_stale = "CATEGORY_EVIDENCE_STALE"
exclusion_name category_unverified = "CATEGORY_UNVERIFIED"
exclusion_name evidence_block_mismatch = "EVIDENCE_BLOCK_MISMATCH"
exclusion_name estimate_precedes_mandate = "ESTIMATE_PRECEDES_MANDATE"
exclusion_name estimate_stale = "ESTIMATE_STALE"
exclusion_name execution_preview_failed = "EXECUTION_PREVIEW_FAILED"
exclusion_name exposure_budget_exceeded = "EXPOSURE_BUDGET_EXCEEDED"
exclusion_name gas_budget_exceeded = "GAS_BUDGET_EXCEEDED"
exclusion_name identity_unavailable = "IDENTITY_UNAVAILABLE"
exclusion_name mandate_category_mismatch = "MANDATE_CATEGORY_MISMATCH"
exclusion_name mandate_expired = "MANDATE_EXPIRED"
exclusion_name mandate_id_mismatch = "MANDATE_ID_MISMATCH"
exclusion_name permission_call_not_allowed = "PERMISSION_CALL_NOT_ALLOWED"
exclusion_name permission_contract_not_allowed = "PERMISSION_CONTRACT_NOT_ALLOWED"
exclusion_name permission_expired = "PERMISSION_EXPIRED"
exclusion_name permission_outlives_mandate = "PERMISSION_OUTLIVES_MANDATE"
exclusion_name permission_spend_cap_exceeded = "PERMISSION_SPEND_CAP_EXCEEDED"
exclusion_name position_mismatch = "POSITION_MISMATCH"
exclusion_name preview_block_mismatch = "PREVIEW_BLOCK_MISMATCH"
exclusion_name preview_precedes_mandate = "PREVIEW_PRECEDES_MANDATE"
exclusion_name preview_stale = "PREVIEW_STALE"
exclusion_name protocol_not_allowed = "PROTOCOL_NOT_ALLOWED"
exclusion_name publisher_unknown = "PUBLISHER_UNKNOWN"
exclusion_name quote_expired = "QUOTE_EXPIRED"
exclusion_name quote_incomplete = "QUOTE_INCOMPLETE"
exclusion_name quote_outlives_mandate = "QUOTE_OUTLIVES_MANDATE"
exclusion_name quote_precedes_mandate = "QUOTE_PRECEDES_MANDATE"
exclusion_name quote_stale = "QUOTE_STALE"
exclusion_name range_outside_policy = "RANGE_OUTSIDE_POLICY"
exclusion_name rebalance_trigger_not_fired = "REBALANCE_TRIGGER_NOT_FIRED"
exclusion_name reputation_precedes_mandate = "REPUTATION_PRECEDES_MANDATE"
exclusion_name reputation_stale = "REPUTATION_STALE"
exclusion_name slippage_budget_exceeded = "SLIPPAGE_BUDGET_EXCEEDED"
exclusion_name target_width_mismatch = "TARGET_WIDTH_MISMATCH"
exclusion_name target_width_not_tick_aligned = "TARGET_WIDTH_NOT_TICK_ALIGNED"
exclusion_name task_interface_unsupported = "TASK_INTERFACE_UNSUPPORTED"
exclusion_name tick_alignment_invalid = "TICK_ALIGNMENT_INVALID"
exclusion_name trigger_evidence_invalid = "TRIGGER_EVIDENCE_INVALID"
exclusion_name trigger_policy_mismatch = "TRIGGER_POLICY_MISMATCH"

unfoldable pub inconclusive_name : InconclusiveCode → String
inconclusive_name capture_timestamp_in_future = "CAPTURE_TIMESTAMP_IN_FUTURE"
inconclusive_name category_check_inconclusive = "CATEGORY_CHECK_INCONCLUSIVE"
inconclusive_name category_evidence_timestamp_in_future = "CATEGORY_EVIDENCE_TIMESTAMP_IN_FUTURE"
inconclusive_name endpoint_check_inconclusive = "ENDPOINT_CHECK_INCONCLUSIVE"
inconclusive_name estimate_timestamp_in_future = "ESTIMATE_TIMESTAMP_IN_FUTURE"
inconclusive_name execution_preview_inconclusive = "EXECUTION_PREVIEW_INCONCLUSIVE"
inconclusive_name identity_check_inconclusive = "IDENTITY_CHECK_INCONCLUSIVE"
inconclusive_name pricing_usd_unavailable = "PRICING_USD_UNAVAILABLE"
inconclusive_name publisher_check_inconclusive = "PUBLISHER_CHECK_INCONCLUSIVE"
inconclusive_name preview_timestamp_in_future = "PREVIEW_TIMESTAMP_IN_FUTURE"
inconclusive_name quote_completeness_inconclusive = "QUOTE_COMPLETENESS_INCONCLUSIVE"
inconclusive_name quote_timestamp_in_future = "QUOTE_TIMESTAMP_IN_FUTURE"
inconclusive_name reputation_timestamp_in_future = "REPUTATION_TIMESTAMP_IN_FUTURE"
inconclusive_name task_interface_check_inconclusive = "TASK_INTERFACE_CHECK_INCONCLUSIVE"

unfoldable pub unsupported_name : UnsupportedCode → String
unsupported_name category_grid_unsupported = "CATEGORY_GRID_UNSUPPORTED"
unsupported_name category_health_unsupported = "CATEGORY_HEALTH_UNSUPPORTED"
unsupported_name category_yield_unsupported = "CATEGORY_YIELD_UNSUPPORTED"
