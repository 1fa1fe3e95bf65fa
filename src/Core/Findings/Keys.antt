-- ===== src/Core/Findings/Keys.antt =====
-- A finding is determined by the text under which a decision lists it.
use mandate_x.Base.{◌≡◌, refl, Option, none, some, List, [], ◌∷◌, Str, ◌==◌, str_eq, if◌then◌else◌}
use mandate_x.Core.Codes.{
  agent_fee_budget_exceeded, agent_unreachable, category_evidence_precedes_mandate,
  category_evidence_stale, category_unverified, evidence_block_mismatch, estimate_precedes_mandate,
  estimate_stale, execution_preview_failed, exposure_budget_exceeded, gas_budget_exceeded,
  identity_unavailable, mandate_category_mismatch, mandate_expired, mandate_id_mismatch,
  permission_call_not_allowed, permission_contract_not_allowed, permission_expired,
  permission_outlives_mandate, permission_spend_cap_exceeded, position_mismatch,
  preview_block_mismatch, preview_precedes_mandate, preview_stale, protocol_not_allowed,
  publisher_unknown, quote_expired, quote_incomplete, quote_outlives_mandate,
  quote_precedes_mandate, quote_stale, range_outside_policy, rebalance_trigger_not_fired,
  reputation_precedes_mandate, reputation_stale, slippage_budget_exceeded, target_width_mismatch,
  target_width_not_tick_aligned, task_interface_unsupported, tick_alignment_invalid,
  trigger_evidence_invalid, trigger_policy_mismatch, capture_timestamp_in_future,
  category_check_inconclusive, category_evidence_timestamp_in_future, endpoint_check_inconclusive,
  estimate_timestamp_in_future, execution_preview_inconclusive, identity_check_inconclusive,
  pricing_usd_unavailable, publisher_check_inconclusive, preview_timestamp_in_future,
  quote_completeness_inconclusive, quote_timestamp_in_future, reputation_timestamp_in_future,
  task_interface_check_inconclusive, category_grid_unsupported, category_health_unsupported,
  category_yield_unsupported,
}
use mandate_x.Core.Findings.{Finding, exclusion, inconclusive, unsupported, key}

-- Every finding that there is.
abbrev pub all_findings : List Finding
all_findings =
    exclusion agent_fee_budget_exceeded
    ∷ exclusion agent_unreachable
    ∷ exclusion category_evidence_precedes_mandate
    ∷ exclusion category_evidence_stale
    ∷ exclusion category_unverified
    ∷ exclusion evidence_block_mismatch
    ∷ exclusion estimate_precedes_mandate
    ∷ exclusion estimate_stale
    ∷ exclusion execution_preview_failed
    ∷ exclusion exposure_budget_exceeded
    ∷ exclusion gas_budget_exceeded
    ∷ exclusion identity_unavailable
    ∷ exclusion mandate_category_mismatch
    ∷ exclusion mandate_expired
    ∷ exclusion mandate_id_mismatch
    ∷ exclusion permission_call_not_allowed
    ∷ exclusion permission_contract_not_allowed
    ∷ exclusion permission_expired
    ∷ exclusion permission_outlives_mandate
    ∷ exclusion permission_spend_cap_exceeded
    ∷ exclusion position_mismatch
    ∷ exclusion preview_block_mismatch
    ∷ exclusion preview_precedes_mandate
    ∷ exclusion preview_stale
    ∷ exclusion protocol_not_allowed
    ∷ exclusion publisher_unknown
    ∷ exclusion quote_expired
    ∷ exclusion quote_incomplete
    ∷ exclusion quote_outlives_mandate
    ∷ exclusion quote_precedes_mandate
    ∷ exclusion quote_stale
    ∷ exclusion range_outside_policy
    ∷ exclusion rebalance_trigger_not_fired
    ∷ exclusion reputation_precedes_mandate
    ∷ exclusion reputation_stale
    ∷ exclusion slippage_budget_exceeded
    ∷ exclusion target_width_mismatch
    ∷ exclusion target_width_not_tick_aligned
    ∷ exclusion task_interface_unsupported
    ∷ exclusion tick_alignment_invalid
    ∷ exclusion trigger_evidence_invalid
    ∷ exclusion trigger_policy_mismatch
    ∷ inconclusive capture_timestamp_in_future
    ∷ inconclusive category_check_inconclusive
    ∷ inconclusive category_evidence_timestamp_in_future
    ∷ inconclusive endpoint_check_inconclusive
    ∷ inconclusive estimate_timestamp_in_future
    ∷ inconclusive execution_preview_inconclusive
    ∷ inconclusive identity_check_inconclusive
    ∷ inconclusive pricing_usd_unavailable
    ∷ inconclusive publisher_check_inconclusive
    ∷ inconclusive preview_timestamp_in_future
    ∷ inconclusive quote_completeness_inconclusive
    ∷ inconclusive quote_timestamp_in_future
    ∷ inconclusive reputation_timestamp_in_future
    ∷ inconclusive task_interface_check_inconclusive
    ∷ unsupported category_grid_unsupported
    ∷ unsupported category_health_unsupported
    ∷ unsupported category_yield_unsupported
    ∷ []

find_key : Str → List Finding → Option Finding
find_key k [] = none
find_key k (f ∷ fs) = if key f == k then some f else find_key k fs

of_key : Str → Option Finding
unfolding find_key key
of_key k = find_key k all_findings

of_key-key : (f : Finding) → of_key (key f) ≡ some f
unfolding of_key
of_key-key (exclusion agent_fee_budget_exceeded) = refl
of_key-key (exclusion _) = refl
of_key-key (inconclusive capture_timestamp_in_future) = refl
of_key-key (inconclusive _) = refl
of_key-key (unsupported category_grid_unsupported) = refl
of_key-key (unsupported _) = refl

-- Two findings with one key are equal, over all kinds and codes.
pub key_inj : (f g : Finding) → key f ≡ key g → f ≡ g
key_inj f g e = cc (of_key-key f, of_key-key g)
