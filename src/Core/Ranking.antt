-- ===== src/Core/Ranking.antt =====
-- tools/marketplace-core/src/ranking.ts, and the score's schema of schemas.ts.
pub mod Bounds
pub mod Monotone
use mandate_x.Base.{
  ℕ, ◌+◌, ◌-◌, ◌*◌, ◌/◌, min, max, Bool, true, false, ◌&&◌, ltb, leb, eqb, if◌then◌else◌, ℤ, pos,
  pos_part, leb_ℤ, ◌-ℤ◌, ◌==◌, int_eq, Result, ok, err,
}
use mandate_x.Core.Primitives.{basis_points_schema}
use mandate_x.Core.Errors.{CoreError, zod_error}
use mandate_x.Core.Mandate.{MarketplaceMandate}
use mandate_x.Core.Quote.{
  MarketplaceQuote, Preview, passed, Pricing, normalized_zero, usd_unavailable,
  evidence_observed_at,
}

unfoldable pub clamp_bps : ℕ → ℕ
clamp_bps value = max 0 (min 10000 value)

unfoldable pub ratio_score : (numerator denominator : ℤ) → ℕ
ratio_score numerator denominator =
    if leb_ℤ denominator (pos 0)
    then (if numerator == pos 0 then 10000 else 0)
    else if leb_ℤ numerator (pos 0)
    then 10000
    else if leb_ℤ denominator numerator
    then 0
    else (pos_part denominator - pos_part numerator) * 10000 / pos_part denominator

-- The age of an observation in the future is below zero in the source and 0 here: both score 10000.
unfoldable pub age_score : (age_seconds max_age_seconds : ℕ) → ℕ
age_score age_seconds max_age_seconds =
    if eqb age_seconds 0
    then 10000
    else if leb max_age_seconds age_seconds
    then 0
    else (max_age_seconds - age_seconds) * 10000 / max_age_seconds

pub record Factor : Type 0 where
  pub weight : ℕ
  pub score_bps : ℕ
  pub weighted_points : ℕ

unfoldable pub factor : (weight score_bps : ℕ) → Factor
factor weight score_bps = record {
  weight = weight;
  score_bps = clamp_bps score_bps;
  weighted_points = weight * clamp_bps score_bps;
}

pub record Factors : Type 0 where
  pub mandate_fit : Factor
  pub execution_readiness : Factor
  pub evidence_freshness : Factor
  pub risk_compatibility : Factor
  pub total_cost : Factor
  pub reputation_confidence : Factor

pub record RankingScore : Type 0 where
  pub factors : Factors
  pub weighted_total : ℕ
  pub score_bps : ℕ

-- `STRATEGY_WEIGHTS`
pub record StrategyWeights : Type 0 where
  pub mandate_fit : ℕ
  pub execution_readiness : ℕ
  pub evidence_freshness : ℕ
  pub risk_compatibility : ℕ
  pub total_cost : ℕ
  pub reputation_confidence : ℕ

abbrev pub strategy_weights : StrategyWeights
strategy_weights = record {
  mandate_fit = 30;
  execution_readiness = 20;
  evidence_freshness = 20;
  risk_compatibility = 15;
  total_cost = 10;
  reputation_confidence = 5;
}

unfoldable pub factor_schema : ℕ → Factor → Bool
factor_schema weight f =
    eqb f.weight weight
    && basis_points_schema f.score_bps
    && leb f.weighted_points (weight * 10000)
    && eqb f.weighted_points (f.weight * f.score_bps)

-- `Object.values(factors).reduce(...)`
unfoldable pub points_total : Factors → ℕ
points_total f =
    f.mandate_fit.weighted_points + f.execution_readiness.weighted_points
    + f.evidence_freshness.weighted_points + f.risk_compatibility.weighted_points
    + f.total_cost.weighted_points + f.reputation_confidence.weighted_points

unfoldable pub ranking_score_schema : RankingScore → Bool
ranking_score_schema s =
    factor_schema 30 s.factors.mandate_fit
    && factor_schema 20 s.factors.execution_readiness
    && factor_schema 20 s.factors.evidence_freshness
    && factor_schema 15 s.factors.risk_compatibility
    && factor_schema 10 s.factors.total_cost
    && factor_schema 5 s.factors.reputation_confidence
    && leb s.weighted_total 1000000
    && basis_points_schema s.score_bps
    && eqb s.weighted_total (points_total s.factors)
    && eqb s.score_bps (points_total s.factors / 100)

unfoldable pub preview_freshness : (evaluated_at max_age_seconds : ℕ) → Preview → ℕ
preview_freshness evaluated_at max_age_seconds (passed observed_at _ _) =
    age_score (evaluated_at - observed_at) max_age_seconds
preview_freshness evaluated_at max_age_seconds _ = 0

unfoldable pub evidence_freshness : MarketplaceMandate → MarketplaceQuote → ℕ → ℕ
evidence_freshness m q evaluated_at =
    min (age_score (evaluated_at - q.observed_at) m.max_evidence_age_seconds) (
      min (age_score (evaluated_at - q.estimates.observed_at) m.max_evidence_age_seconds) (
        min
          (age_score (evaluated_at - evidence_observed_at q.category_evidence)
            m.max_evidence_age_seconds)
          (min (age_score (evaluated_at - q.reputation.observed_at) m.max_evidence_age_seconds)
            (preview_freshness evaluated_at m.max_preview_age_seconds q.preview))))

abbrev pub slippage_margin : MarketplaceMandate → MarketplaceQuote → ℕ
slippage_margin m q = ratio_score (pos q.estimates.slippage_bps) (pos m.budgets.max_slippage_bps)

unfoldable pub risk_compatibility : MarketplaceMandate → MarketplaceQuote → ℕ
risk_compatibility m q =
    let permission_lifetime = pos m.permissions.expires_at -ℤ pos m.created_at in
    let requested_lifetime = pos q.permissions.expires_at -ℤ pos m.created_at in
    (ratio_score requested_lifetime permission_lifetime
      + ratio_score (pos q.permissions.spend_cap_usd_micros)
          (pos m.permissions.max_spend_usd_micros)
      + ratio_score (pos q.estimates.exposure_usd_micros) (pos m.budgets.max_exposure_usd_micros)
      + slippage_margin m q)
    / 4

-- The fee is the literal 0 where pricing is normalized, and 0n elsewhere.
unfoldable pub fee_usd_micros : Pricing → ℕ
fee_usd_micros (normalized_zero _) = 0
fee_usd_micros (usd_unavailable _ _) = 0

unfoldable pub total_cost : MarketplaceMandate → MarketplaceQuote → ℕ
unfolding fee_usd_micros
total_cost m q =
    (ratio_score (pos (fee_usd_micros q.pricing)) (pos m.budgets.max_agent_fee_usd_micros)
      + ratio_score (pos q.estimates.gas_usd_micros) (pos m.budgets.max_gas_usd_micros)
      + slippage_margin m q)
    / 3

unfoldable pub reputation_confidence : MarketplaceQuote → ℕ
reputation_confidence q =
    let sample_confidence = min 10000 (q.reputation.sample_size * 1000) in
    (q.reputation.score_bps * 50
      + q.reputation.evidence_confidence_bps * 30
      + sample_confidence * 20)
    / 100

abbrev pub is_passed : Preview → Bool
is_passed (passed _ _ _) = true
is_passed _ = false

unfoldable pub factors_of : MarketplaceMandate → MarketplaceQuote → ℕ → Factors
factors_of m q evaluated_at = record {
  mandate_fit = factor strategy_weights.mandate_fit 10000;
  execution_readiness =
      factor strategy_weights.execution_readiness (if is_passed q.preview then 10000 else 0);
  evidence_freshness =
      factor strategy_weights.evidence_freshness (evidence_freshness m q evaluated_at);
  risk_compatibility = factor strategy_weights.risk_compatibility (risk_compatibility m q);
  total_cost = factor strategy_weights.total_cost (total_cost m q);
  reputation_confidence = factor strategy_weights.reputation_confidence (reputation_confidence q);
}

-- The value that `scoreEligibleQuote` hands to its schema.
unfoldable pub score_of : MarketplaceMandate → MarketplaceQuote → ℕ → RankingScore
score_of m q evaluated_at =
    let weighted_total = points_total (factors_of m q evaluated_at) in
    record {
      factors = factors_of m q evaluated_at;
      weighted_total = weighted_total;
      score_bps = weighted_total / 100;
    }

unfoldable pub score_eligible_quote :
    MarketplaceMandate → MarketplaceQuote → ℕ → Result CoreError RankingScore
score_eligible_quote m q evaluated_at =
    if ranking_score_schema (score_of m q evaluated_at)
    then ok (score_of m q evaluated_at)
    else err zod_error
