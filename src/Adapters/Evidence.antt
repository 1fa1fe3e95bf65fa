-- ===== src/Adapters/Evidence.antt =====
-- tools/category-adapters/src/evidence.ts and primitives.ts: evidence documents and their schemas. Amounts,
-- decimal texts in the source, are natural numbers; literals and texts that a schema trims are left out.
use mandate_x.Base.{ℕ, Bool, ◌&&◌, List, leb, ltb, length, every, Str, ℤ, pos, negsuc, leb_ℤ}
use mandate_x.Core.Primitives.{max_safe_integer}
use mandate_x.Core.Texts.{address_schema, bytes32_schema, sha256_schema, trimmed_schema}
use mandate_x.Adapters.{BlockAnchor, ReadObservation}

-- At most 78 digits.
abbrev pub evidence_uint256_decimal_schema : ℕ → Bool
evidence_uint256_decimal_schema n =
    ltb n 1000000000000000000000000000000000000000000000000000000000000000000000000000000

abbrev pub evidence_unix_seconds_schema : ℕ → Bool
evidence_unix_seconds_schema n = leb n 4102444800

abbrev pub evidence_tick_schema : ℤ → Bool
evidence_tick_schema t = leb_ℤ (negsuc 8388607) t && leb_ℤ t (pos 8388607)

unfoldable pub read_observation_schema : ReadObservation → Bool
read_observation_schema o =
    trimmed_schema 64 o.label
    && address_schema o.target
    && sha256_schema o.request_sha256
    && sha256_schema o.response_sha256

unfoldable pub block_anchor_schema : BlockAnchor → Bool
block_anchor_schema a =
    leb a.number max_safe_integer
    && bytes32_schema a.hash
    && evidence_unix_seconds_schema a.timestamp

-- `evidenceEnvelopeShape`
unfoldable pub envelope_schema : BlockAnchor → List ReadObservation → Bool
envelope_schema anchor reads =
    block_anchor_schema anchor
    && leb 1 (length reads)
    && leb (length reads) 4
    && every read_observation_schema reads

pub record GridEvidence : Type 0 where
  pub observed : BlockAnchor
  pub pool_address : Str
  pub lower_tick : ℤ
  pub upper_tick : ℤ
  pub spot_tick : ℤ
  pub sqrt_price_x96 : ℕ
  pub reads : List ReadObservation

unfoldable pub grid_evidence_schema : GridEvidence → Bool
grid_evidence_schema e =
    envelope_schema e.observed e.reads
    && address_schema e.pool_address
    && evidence_tick_schema e.lower_tick
    && evidence_tick_schema e.upper_tick
    && evidence_tick_schema e.spot_tick
    && evidence_uint256_decimal_schema e.sqrt_price_x96

pub record YieldEvidence : Type 0 where
  pub observed : BlockAnchor
  pub vault_address : Str
  pub min_share_price_scaled : ℕ
  pub total_assets : ℕ
  pub total_supply : ℕ
  pub share_price_scaled : ℕ
  pub reads : List ReadObservation

unfoldable pub yield_evidence_schema : YieldEvidence → Bool
yield_evidence_schema e =
    envelope_schema e.observed e.reads
    && address_schema e.vault_address
    && evidence_uint256_decimal_schema e.min_share_price_scaled
    && evidence_uint256_decimal_schema e.total_assets
    && evidence_uint256_decimal_schema e.total_supply
    && evidence_uint256_decimal_schema e.share_price_scaled

pub record HealthEvidence : Type 0 where
  pub observed : BlockAnchor
  pub pool_address : Str
  pub account_address : Str
  pub min_health_factor_scaled : ℕ
  pub health_factor_scaled : ℕ
  pub total_debt_base : ℕ
  pub total_collateral_base : ℕ
  pub reads : List ReadObservation

unfoldable pub health_evidence_schema : HealthEvidence → Bool
health_evidence_schema e =
    envelope_schema e.observed e.reads
    && address_schema e.pool_address
    && address_schema e.account_address
    && evidence_uint256_decimal_schema e.min_health_factor_scaled
    && evidence_uint256_decimal_schema e.health_factor_scaled
    && evidence_uint256_decimal_schema e.total_debt_base
    && evidence_uint256_decimal_schema e.total_collateral_base

pub record VenusHealthEvidence : Type 0 where
  pub observed : BlockAnchor
  pub comptroller_address : Str
  pub account_address : Str
  pub borrow_market_address : Str
  pub min_liquidity_usd_scaled : ℕ
  pub liquidity_usd_scaled : ℕ
  pub shortfall_usd_scaled : ℕ
  pub markets_entered : ℕ
  pub borrow_balance_stored : ℕ
  pub reads : List ReadObservation

unfoldable pub venus_health_evidence_schema : VenusHealthEvidence → Bool
venus_health_evidence_schema e =
    envelope_schema e.observed e.reads
    && address_schema e.comptroller_address
    && address_schema e.account_address
    && address_schema e.borrow_market_address
    && evidence_uint256_decimal_schema e.min_liquidity_usd_scaled
    && evidence_uint256_decimal_schema e.liquidity_usd_scaled
    && evidence_uint256_decimal_schema e.shortfall_usd_scaled
    && leb e.markets_entered 1000
    && evidence_uint256_decimal_schema e.borrow_balance_stored
