-- ===== src/Core/Errors.antt =====
-- tools/marketplace-core/src/errors.ts: what Marketplace Core throws.
pub data MarketplaceErrorCode : Type 0 where
  attestation_expired attestation_expiry_invalid : MarketplaceErrorCode
  attestation_input_invalid attestation_json_invalid : MarketplaceErrorCode
  attestation_key_mismatch attestation_mandate_hash_mismatch : MarketplaceErrorCode
  attestation_noncanonical attestation_not_yet_valid : MarketplaceErrorCode
  attestation_observation_after_issuance : MarketplaceErrorCode
  attestation_payload_hash_mismatch attestation_policy_mismatch : MarketplaceErrorCode
  attestation_schema_invalid attestation_signature_invalid : MarketplaceErrorCode
  attestation_too_large attestation_trust_invalid : MarketplaceErrorCode
  attestation_ttl_exceeded attestation_utf8_invalid : MarketplaceErrorCode
  category_attestation_adapter_mismatch : MarketplaceErrorCode
  category_attestation_candidate_mismatch : MarketplaceErrorCode
  category_attestation_deployment_mismatch : MarketplaceErrorCode
  category_attestation_evidence_stale : MarketplaceErrorCode
  category_attestation_policy_binding_mismatch : MarketplaceErrorCode
  category_attestation_request_hash_mismatch : MarketplaceErrorCode
  category_attestation_request_mismatch : MarketplaceErrorCode
  category_attestation_subject_mismatch category_request_invalid : MarketplaceErrorCode
  candidate_set_invalid candidate_limit_exceeded : MarketplaceErrorCode
  core_clock_invalid display_safe_projection_not_captured_by_core : MarketplaceErrorCode
  duplicate_candidate duplicate_quote_id evaluation_input_invalid : MarketplaceErrorCode
  evaluated_at_before_mandate evaluated_at_invalid : MarketplaceErrorCode
  integrity_decisions_invalid integrity_mandate_invalid : MarketplaceErrorCode
  integrity_noncanonical_input integrity_receipt_invalid : MarketplaceErrorCode
  integrity_result_shape_invalid integrity_result_too_large : MarketplaceErrorCode
  integrity_result_unordered integrity_uniqueness_invalid : MarketplaceErrorCode
  integrity_quotes_invalid mandate_invalid : MarketplaceErrorCode
  trusted_ingress_installer_invalid trusted_projection_invalid : MarketplaceErrorCode

-- `MarketplaceCoreError` with its code, or the `ZodError` of a `parse` that fails.
pub data CoreError : Type 0 where
  core_error : MarketplaceErrorCode → CoreError
  zod_error : CoreError
