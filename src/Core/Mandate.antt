-- ===== src/Core/Mandate.antt =====
-- tools/marketplace-core/src/schemas.ts: the mandate. Fields that hold one literal (`schema`,
-- `chainId`, the protocol of a position) are left out.
use mandate_x.Base.{
  ℕ, Bool, true, false, ◌&&◌, Option, none, some, List, ltb, leb, Str, ℤ, ltb_ℤ, pos, leb_ℤ, ◌-ℤ◌,
}
use mandate_x.Core.Primitives.{
  MarketplaceCategory, rebalancing, unix_seconds_schema, uint256_decimal_schema,
  basis_points_schema, tick_schema,
}
use mandate_x.Core.Texts.{
  canonical_identifier_schema, protocol_id_schema, address_schema, call_id_schema,
  unique_sorted_schema,
}

pub record Budgets : Type 0 where
  pub max_agent_fee_usd_micros : ℕ
  pub max_gas_usd_micros : ℕ
  pub max_slippage_bps : ℕ
  pub max_exposure_usd_micros : ℕ

pub record MandatePermissions : Type 0 where
  pub allowed_protocols : List Str
  pub allowed_contracts : List Str
  pub allowed_calls : List Str
  pub max_spend_usd_micros : ℕ
  pub expires_at : ℕ

pub record RebalancingPosition : Type 0 where
  pub pool_address : Str
  pub position_manager_address : Str
  pub token_id : ℕ

pub data TriggerMode : Type 0 where
  out_of_range boundary_proximity : TriggerMode

pub record RebalancingPolicy : Type 0 where
  pub position : RebalancingPosition
  pub approved_lower_tick : ℤ
  pub approved_upper_tick : ℤ
  pub target_width_ticks : ℕ
  pub trigger_mode : TriggerMode
  pub trigger_distance_ticks : ℕ

pub record MarketplaceMandate : Type 0 where
  pub mandate_id : Str
  pub category : MarketplaceCategory
  pub created_at : ℕ
  pub expires_at : ℕ
  pub max_clock_skew_seconds : ℕ
  pub max_evidence_age_seconds : ℕ
  pub max_preview_age_seconds : ℕ
  pub budgets : Budgets
  pub permissions : MandatePermissions
  pub rebalancing_policy : Option RebalancingPolicy

abbrev pub max_width_ticks : ℕ
max_width_ticks = 1774544

-- The fields, each by itself.
unfoldable pub budgets_schema : Budgets → Bool
budgets_schema b =
    uint256_decimal_schema b.max_agent_fee_usd_micros
    && uint256_decimal_schema b.max_gas_usd_micros
    && basis_points_schema b.max_slippage_bps
    && uint256_decimal_schema b.max_exposure_usd_micros

unfoldable pub mandate_permissions_schema : MandatePermissions → Bool
mandate_permissions_schema p =
    unique_sorted_schema 16 protocol_id_schema p.allowed_protocols
    && unique_sorted_schema 32 address_schema p.allowed_contracts
    && unique_sorted_schema 64 call_id_schema p.allowed_calls
    && uint256_decimal_schema p.max_spend_usd_micros
    && unix_seconds_schema p.expires_at

unfoldable pub rebalancing_position_schema : RebalancingPosition → Bool
rebalancing_position_schema p =
    address_schema p.pool_address
    && address_schema p.position_manager_address
    && uint256_decimal_schema p.token_id

unfoldable pub rebalancing_policy_schema : Option RebalancingPolicy → Bool
rebalancing_policy_schema none = true
rebalancing_policy_schema (some p) =
    rebalancing_position_schema p.position
    && tick_schema p.approved_lower_tick
    && tick_schema p.approved_upper_tick
    && leb 1 p.target_width_ticks
    && leb p.target_width_ticks max_width_ticks
    && leb p.trigger_distance_ticks max_width_ticks

unfoldable pub mandate_fields_schema : MarketplaceMandate → Bool
mandate_fields_schema m =
    canonical_identifier_schema m.mandate_id
    && unix_seconds_schema m.created_at
    && unix_seconds_schema m.expires_at
    && leb m.max_clock_skew_seconds 300
    && leb 5 m.max_evidence_age_seconds
    && leb m.max_evidence_age_seconds 3600
    && leb 5 m.max_preview_age_seconds
    && leb m.max_preview_age_seconds 3600
    && budgets_schema m.budgets
    && mandate_permissions_schema m.permissions
    && rebalancing_policy_schema m.rebalancing_policy

-- What `superRefine` asks of the policy data of a category.
unfoldable pub policy_refinement : MarketplaceCategory → Option RebalancingPolicy → Bool
policy_refinement rebalancing none = false
policy_refinement rebalancing (some p) =
    ltb_ℤ p.approved_lower_tick p.approved_upper_tick
    && leb_ℤ (pos p.target_width_ticks) (p.approved_upper_tick -ℤ p.approved_lower_tick)
policy_refinement _ (some _) = false
policy_refinement _ none = true

unfoldable pub mandate_refinement : MarketplaceMandate → Bool
unfolding policy_refinement
mandate_refinement m =
    ltb m.created_at m.expires_at
    && ltb m.created_at m.permissions.expires_at
    && leb m.permissions.expires_at m.expires_at
    && policy_refinement m.category m.rebalancing_policy

unfoldable pub marketplace_mandate_schema : MarketplaceMandate → Bool
marketplace_mandate_schema m = mandate_fields_schema m && mandate_refinement m
