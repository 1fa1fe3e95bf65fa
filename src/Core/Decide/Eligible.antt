-- ===== src/Core/Decide/Eligible.antt =====
-- What `decide` means for a mandate and a quote that satisfy their schemas.
use mandate_x.Base.{ℕ, ◌≡◌, ◌≢◌, ◌↔◌, refl, sym, ◌∙◌, true, Str, some, Result, ok}
use mandate_x.Core.Primitives.{unix_seconds_schema}
use mandate_x.Core.Texts.{sha256_schema}
use mandate_x.Core.Errors.{CoreError}
use mandate_x.Core.Mandate.{MarketplaceMandate, marketplace_mandate_schema}
use mandate_x.Core.Quote.{MarketplaceQuote, QuoteNormalization}
use mandate_x.Core.QuoteSchema.{marketplace_quote_schema}
use mandate_x.Core.Ranking.{score_of}
use mandate_x.Core.Rebalancing.{rebalancing_findings}
use mandate_x.Core.Rebalancing.Spec.{IsPermitted}
use mandate_x.Core.Decision.{
  MarketplaceEligibilityDecision, EligibilityOutcome, eligible, excluded, unsupported,
}
use mandate_x.Core.Decide.{outcome_of, decide}
use mandate_x.Core.Decide.Outcome.{eligible_iff}
use mandate_x.Core.Decide.Permitted.{pushed_findings-nil}
use mandate_x.Core.Decide.Total.{
  IsDecided, decide-IsDecided, mismatched, not_supported, found, score_for,
}

not_eligible_excluded : excluded ≢ eligible
not_eligible_excluded h = cc

not_eligible_unsupported : unsupported ≢ eligible
not_eligible_unsupported h = cc

not_both : {c : _} → QuoteNormalization.unsupported c ≢ QuoteNormalization.normalized
not_both h = cc

module _ (canonical_sha256 : MarketplaceQuote → Str) (m : MarketplaceMandate) (q : MarketplaceQuote)
    (t : ℕ) (valid_mandate : marketplace_mandate_schema m ≡ true)
    (valid_quote : marketplace_quote_schema q ≡ true) where
  score_when :
      (o : EligibilityOutcome)
      → o ≡ eligible
      → score_for canonical_sha256 m q t o ≡ some (score_of m q t)
  score_when o h = rw h

  -- An eligible decision carries the score of the quote, and is made exactly of permitted quotes.
  decided_eligible :
      {r : Result CoreError MarketplaceEligibilityDecision}
      → IsDecided canonical_sha256 m q t r
      → (d : MarketplaceEligibilityDecision) × (r ≡ ok d)
        × ((d.outcome ≡ eligible) ↔ IsPermitted m q t)
        × (d.outcome ≡ eligible → d.score ≡ some (score_of m q t))
  decided_eligible (mismatched differs) = (
    _,
    refl,
    (λ h. absurd (not_eligible_excluded h), λ p. absurd (differs p.lifetime.same_category)),
    λ h. absurd (not_eligible_excluded h),
  )
  decided_eligible (not_supported code h) = (
    _,
    refl,
    (λ e. absurd (not_eligible_unsupported e), λ p. absurd (not_both (sym h ∙ p.normalized))),
    λ e. absurd (not_eligible_unsupported e),
  )
  decided_eligible found =
      let e = eligible_iff m q t in
      let p = pushed_findings-nil m q t valid_mandate valid_quote in
      (
        _,
        refl,
        (λ h. p.0 (e.0 h), λ h. e.1 (p.1 h)),
        score_when (outcome_of (rebalancing_findings m q t)),
      )

  -- For a mandate and a quote that pass their schemas, at a time that does, with a digest of the
  -- quote that is a SHA-256 text, `decide` returns a decision. It is eligible exactly when the
  -- mandate permits the quote at that time, and an eligible decision has the score of the quote.
  pub decide-IsPermitted :
      unix_seconds_schema t ≡ true
      → sha256_schema (canonical_sha256 q) ≡ true
      → (d : MarketplaceEligibilityDecision) × (decide canonical_sha256 m q t ≡ ok d)
        × ((d.outcome ≡ eligible) ↔ IsPermitted m q t)
        × (d.outcome ≡ eligible → d.score ≡ some (score_of m q t))
  decide-IsPermitted valid_time digest =
      decided_eligible
        (decide-IsDecided canonical_sha256 m q t valid_mandate valid_quote valid_time digest)
