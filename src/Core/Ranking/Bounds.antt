-- ===== src/Core/Ranking/Bounds.antt =====
-- The bounds of a score: its own schema never refuses it.
use mandate_x.Base.{ℕ, ◌*◌, ◌/◌, ◌≤◌, ◌≡◌, true, arith, ok, eqb, leb}
use mandate_x.Core.Mandate.{MarketplaceMandate}
use mandate_x.Core.Quote.{MarketplaceQuote}
use mandate_x.Core.Ranking.{
  clamp_bps, factor, factor_schema, points_total, factors_of, score_of, score_eligible_quote,
  ranking_score_schema,
}

eqb_refl : (n : ℕ) → eqb n n ≡ true
eqb_refl n = ground arith

pub clamp_bps-le : (n : ℕ) → clamp_bps n ≤ 10000
unfolding clamp_bps
clamp_bps-le n = omega arith

points_le : (w n : ℕ) → w * clamp_bps n ≤ w * 10000
points_le w n = grind (arith, clamp_bps-le n)

factor_schema-factor : (w n : ℕ) → factor_schema w (factor w n) ≡ true
unfolding factor_schema factor
factor_schema-factor w n = ground (arith, clamp_bps-le n, points_le w n)

factor_points : (w n : ℕ) → (factor w n).weighted_points ≤ w * 10000
unfolding factor
factor_points w n = points_le w n

module _ (m : MarketplaceMandate) (q : MarketplaceQuote) (evaluated_at : ℕ) where
  -- The six weights add up to 100, so the points are at most a million.
  pub points_total-le : points_total (factors_of m q evaluated_at) ≤ 1000000
  unfolding points_total factors_of
  points_total-le = omega (arith, factor_points)

  total_in_range : leb (points_total (factors_of m q evaluated_at)) 1000000 ≡ true
  total_in_range = ground (arith, points_total-le)

  share_in_range : leb (points_total (factors_of m q evaluated_at) / 100) 10000 ≡ true
  share_in_range = ground (arith, points_total-le)

  pub ranking_score_schema-score_of : ranking_score_schema (score_of m q evaluated_at) ≡ true
  unfolding ranking_score_schema score_of
  ranking_score_schema-score_of =
      simp (total_in_range, share_in_range, eqb_refl)
        (unfold factors_of in simp factor_schema-factor)

  -- For any mandate, quote and time, the score that is computed passes the schema that parses it,
  -- so that `scoreEligibleQuote` returns it.
  pub score_eligible_quote-eq-ok :
      score_eligible_quote m q evaluated_at ≡ ok (score_of m q evaluated_at)
  unfolding score_eligible_quote
  score_eligible_quote-eq-ok = rw ranking_score_schema-score_of
