-- ===== src/Core/Decide.antt =====
-- tools/marketplace-core/src/evaluate.ts: `decide`. `canonical_sha256` stands for the digest of a quote.
pub mod Outcome
pub mod Permitted
pub mod Total
pub mod Eligible
use mandate_x.Base.{
  ℕ, Bool, true, false, List, [], ◌∷◌, Option, none, some, any, Str, ◌==◌, ◌!=◌, if◌then◌else◌,
  Result, ok, err, ◌>>=◌,
}
use mandate_x.Core.Primitives.{category_eq}
use mandate_x.Core.Codes
use mandate_x.Core.Errors.{CoreError}
use mandate_x.Core.Findings.{Finding}
use mandate_x.Core.Findings
use mandate_x.Core.Mandate.{MarketplaceMandate}
use mandate_x.Core.Quote.{MarketplaceQuote, QuoteNormalization, normalized}
use mandate_x.Core.Ranking.{RankingScore, score_eligible_quote}
use mandate_x.Core.Rebalancing.{rebalancing_findings}
use mandate_x.Core.Decision.{
  EligibilityOutcome, eligible, excluded, inconclusive, unsupported, MarketplaceEligibilityDecision,
  is_exclusion, is_inconclusive, parse_decision,
}

-- The outcome of the findings of a category that is supported.
unfoldable pub outcome_of : List Finding → EligibilityOutcome
outcome_of findings =
    if any is_exclusion findings
    then excluded
    else if any is_inconclusive findings
    then inconclusive
    else eligible

module _ (canonical_sha256 : MarketplaceQuote → Str) (m : MarketplaceMandate) (q : MarketplaceQuote)
    (evaluated_at : ℕ) where
  -- The literal that each branch hands to the schema.
  abbrev pub decision_of :
      EligibilityOutcome → List Finding → Option RankingScore → MarketplaceEligibilityDecision
  decision_of outcome findings score = record {
    mandate_id = m.mandate_id;
    evaluated_at = evaluated_at;
    quote_id = q.quote_id;
    candidate = q.candidate;
    quote_sha256 = canonical_sha256 q;
    outcome = outcome;
    findings = findings;
    score = score;
  }

  unfoldable pub score_if_eligible : EligibilityOutcome → Result CoreError (Option RankingScore)
  score_if_eligible eligible = score_eligible_quote m q evaluated_at >>= λ score. ok (some score)
  score_if_eligible _ = ok none

  unfoldable pub decide_supported : Result CoreError MarketplaceEligibilityDecision
  unfolding outcome_of score_if_eligible
  decide_supported =
      let findings = rebalancing_findings m q evaluated_at in
      let outcome = outcome_of findings in
      score_if_eligible outcome >>= λ score. parse_decision (decision_of outcome findings score)

  unfoldable pub decide_by_normalization :
      QuoteNormalization → Result CoreError MarketplaceEligibilityDecision
  unfolding decide_supported
  decide_by_normalization (QuoteNormalization.unsupported code) =
      parse_decision (decision_of unsupported (Findings.unsupported code ∷ []) none)
  decide_by_normalization _ = decide_supported

  unfoldable pub decide : Result CoreError MarketplaceEligibilityDecision
  unfolding decide_by_normalization
  decide =
      if q.category != m.category
      then parse_decision
          (decision_of excluded (Findings.exclusion Codes.mandate_category_mismatch ∷ []) none)
      else decide_by_normalization q.normalization
