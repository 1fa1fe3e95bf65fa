-- ===== src/Core/Rebalancing/Spec.antt =====
-- What a mandate asks of a quote, said of the values themselves.
use mandate_x.Base.{
  ℕ, ◌+◌, ◌%◌, ◌≤◌, ◌<◌, ◌≡◌, ◌⊎◌, true, All, includes, str_eq, some, pos, rem, ◌+ℤ◌, ◌≤ℤ◌, ◌<ℤ◌,
}
use mandate_x.Core.Primitives.{pass, rebalancing}
use mandate_x.Core.Mandate.{MarketplaceMandate, RebalancingPolicy, boundary_proximity}
use mandate_x.Core.Quote.{
  MarketplaceQuote, Verification, Preview, passed, rebalancing_evidence, RebalancingEvidence,
  outside_current_range, near_range_boundary, QuoteNormalization,
}
use mandate_x.Core.Rebalancing.Range.{expected_lower_tick}

pub record GatesPass (v : Verification) : Type 0 where
  pub identity : v.identity ≡ pass
  pub publisher : v.publisher ≡ pass
  pub endpoint : v.endpoint ≡ pass
  pub task_interface : v.task_interface ≡ pass
  pub category : v.category ≡ pass
  pub quote_completeness : v.quote_completeness ≡ pass

-- Not before the mandate, not after the clock by more than the skew, and not too old.
pub record IsTimely (m : MarketplaceMandate) (evaluated_at observed_at max_age : ℕ) : Type 0 where
  pub under_mandate : m.created_at ≤ observed_at
  pub not_future : observed_at ≤ evaluated_at + m.max_clock_skew_seconds
  pub fresh : evaluated_at ≤ observed_at + max_age

pub record LifetimeHolds (m : MarketplaceMandate) (q : MarketplaceQuote) (t : ℕ) : Type 0 where
  pub category : m.category ≡ rebalancing
  pub mandate_id : q.mandate_id ≡ m.mandate_id
  pub same_category : q.category ≡ m.category
  pub mandate_live : t < m.expires_at
  pub observed : IsTimely m t q.observed_at m.max_evidence_age_seconds
  pub captured : q.captured_at ≤ t + m.max_clock_skew_seconds
  pub live : t < q.expires_at
  pub within_mandate : q.expires_at ≤ m.expires_at
  pub estimated : IsTimely m t q.estimates.observed_at m.max_evidence_age_seconds
  pub reputed : IsTimely m t q.reputation.observed_at m.max_evidence_age_seconds

-- The preview passed, in time, on the block of the quote.
abbrev pub PreviewHolds : MarketplaceMandate → MarketplaceQuote → ℕ → Preview → Type 0
PreviewHolds m q t (passed observed_at block hash) =
    IsTimely m t observed_at m.max_preview_age_seconds
    × (block ≡ q.observed_block)
    × (hash ≡ q.observed_block_hash)
PreviewHolds m q t _ = ⊥

pub record EvidenceMatches (m : MarketplaceMandate) (q : MarketplaceQuote) (t : ℕ)
    (e : RebalancingEvidence) (p : RebalancingPolicy) : Type 0 where
  pub observed : IsTimely m t e.observed_at m.max_evidence_age_seconds
  pub block : e.observed_block ≡ q.observed_block
  pub block_hash : e.observed_block_hash ≡ q.observed_block_hash
  pub pool : e.position.pool_address ≡ p.position.pool_address
  pub manager : e.position.position_manager_address ≡ p.position.position_manager_address
  pub token : e.position.token_id ≡ p.position.token_id
  pub protocol : includes e.protocol m.permissions.allowed_protocols ≡ true

-- The tick has left the range, and the report says so.
pub record HasLeft (e : RebalancingEvidence) : Type 0 where
  pub outside : (e.current_tick <ℤ e.current_lower_tick) ⊎ (e.current_upper_tick ≤ℤ e.current_tick)
  pub reason : e.trigger.reason ≡ outside_current_range
  pub distance : e.trigger.distance_to_boundary_ticks ≡ 0

-- The tick is in the range, the reported distance is that to the nearer end, and the mandate takes
-- so small a distance as a trigger.
pub record IsNear (e : RebalancingEvidence) (p : RebalancingPolicy) : Type 0 where
  pub from_lower : e.current_lower_tick ≤ℤ e.current_tick
  pub to_upper : e.current_tick <ℤ e.current_upper_tick
  pub reason : e.trigger.reason ≡ near_range_boundary
  pub clear_of_lower :
      e.current_lower_tick +ℤ pos e.trigger.distance_to_boundary_ticks ≤ℤ e.current_tick
  pub clear_of_upper :
      e.current_tick +ℤ pos e.trigger.distance_to_boundary_ticks ≤ℤ e.current_upper_tick
  pub reaches :
      (e.current_lower_tick +ℤ pos e.trigger.distance_to_boundary_ticks ≡ e.current_tick)
      ⊎ (e.current_tick +ℤ pos e.trigger.distance_to_boundary_ticks ≡ e.current_upper_tick)
  pub mode : p.trigger_mode ≡ boundary_proximity
  pub close : e.trigger.distance_to_boundary_ticks ≤ p.trigger_distance_ticks

pub record TriggerHolds (e : RebalancingEvidence) (p : RebalancingPolicy) : Type 0 where
  pub fired : e.trigger.fired ≡ true
  pub cause : HasLeft e ⊎ IsNear e p

-- The proposal is the exact target range, inside the approved one.
pub record RangeHolds (e : RebalancingEvidence) (p : RebalancingPolicy) : Type 0 where
  pub lower_on_grid : rem e.current_lower_tick e.tick_spacing ≡ pos 0
  pub upper_on_grid : rem e.current_upper_tick e.tick_spacing ≡ pos 0
  pub width_on_grid : p.target_width_ticks % e.tick_spacing ≡ 0
  pub exact_lower :
      e.proposed_lower_tick ≡ expected_lower_tick e.current_tick p.target_width_ticks e.tick_spacing
  pub exact_upper : e.proposed_upper_tick ≡ e.proposed_lower_tick +ℤ pos p.target_width_ticks
  pub above_approved : p.approved_lower_tick ≤ℤ e.proposed_lower_tick
  pub below_approved : e.proposed_upper_tick ≤ℤ p.approved_upper_tick

pub record BudgetHolds (m : MarketplaceMandate) (q : MarketplaceQuote) : Type 0 where
  pub gas : q.estimates.gas_usd_micros ≤ m.budgets.max_gas_usd_micros
  pub slippage : q.estimates.slippage_bps ≤ m.budgets.max_slippage_bps
  pub exposure : q.estimates.exposure_usd_micros ≤ m.budgets.max_exposure_usd_micros

pub record PermissionsHold (m : MarketplaceMandate) (q : MarketplaceQuote) (t : ℕ) : Type 0 where
  pub spend_cap : q.permissions.spend_cap_usd_micros ≤ m.permissions.max_spend_usd_micros
  pub live : t < q.permissions.expires_at
  pub within : q.permissions.expires_at ≤ m.permissions.expires_at
  pub contracts :
      All (λ c. includes c m.permissions.allowed_contracts ≡ true) q.permissions.contracts
  pub calls : All (λ c. includes c m.permissions.allowed_calls ≡ true) q.permissions.calls

-- A quote that the mandate permits at the time of the evaluation.
pub record IsPermitted (m : MarketplaceMandate) (q : MarketplaceQuote) (t : ℕ) : Type 0 where
  pub gates : GatesPass q.verification
  pub lifetime : LifetimeHolds m q t
  pub normalized : q.normalization ≡ QuoteNormalization.normalized
  pub preview : PreviewHolds m q t q.preview
  pub evidence : RebalancingEvidence
  pub has_evidence : q.category_evidence ≡ rebalancing_evidence evidence
  pub policy : RebalancingPolicy
  pub has_policy : m.rebalancing_policy ≡ some policy
  pub matches : EvidenceMatches m q t evidence policy
  pub trigger : TriggerHolds evidence policy
  pub range : RangeHolds evidence policy
  pub budget : BudgetHolds m q
  pub permissions : PermissionsHold m q t
