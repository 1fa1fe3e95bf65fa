-- ===== src/Core/Decide/Outcome.antt =====
-- The outcome of a supported category is `eligible` exactly when nothing was pushed.
use mandate_x.Base.{
  ℕ, ◌≤◌, ◌≡◌, ◌↔◌, refl, sym, ap, ◌∙◌, true, false, List, [], ◌∷◌, arith, any, length,
}
use mandate_x.Core.Findings.{Finding, exclusion, inconclusive, unsupported}
use mandate_x.Core.Findings.Order.{any-sort_findings}
use mandate_x.Core.Mandate.{MarketplaceMandate}
use mandate_x.Core.Quote.{MarketplaceQuote}
use mandate_x.Core.Rebalancing.{pushed_findings, rebalancing_findings}
use mandate_x.Core.Rebalancing.Pushed.{plain-pushed_findings, length-pushed_findings}
use mandate_x.Core.Decision.{
  eligible, is_exclusion, is_inconclusive, is_unsupported, expected_outcome, findings_refinement,
  outcome_beq,
}
use mandate_x.Core.Decision.Refinement.{findings_refinement-sort_findings, length-sort_findings}
use mandate_x.Core.Decide.{outcome_of}

-- A list with a finding of no kind is empty.
nil_of_no_kind :
    (l : List Finding)
    → any is_exclusion l ≡ false
    → any is_inconclusive l ≡ false
    → any is_unsupported l ≡ false
    → l ≡ []
nil_of_no_kind [] h k n = refl
nil_of_no_kind (exclusion c ∷ fs) h k n = ground arith
nil_of_no_kind (inconclusive c ∷ fs) h k n = ground arith
nil_of_no_kind (unsupported c ∷ fs) h k n = ground arith

eligible_cases :
    (l : List Finding)
    → outcome_of l ≡ eligible
    → (any is_exclusion l ≡ false) × (any is_inconclusive l ≡ false)
unfolding outcome_of
eligible_cases l h = ground arith

module _ (m : MarketplaceMandate) (q : MarketplaceQuote) (t : ℕ) where
  pub plain-rebalancing_findings : any is_unsupported (rebalancing_findings m q t) ≡ false
  unfolding rebalancing_findings
  plain-rebalancing_findings =
      any-sort_findings is_unsupported (pushed_findings m q t) ∙ plain-pushed_findings m q t

  pub no_findings_of_eligible :
      outcome_of (rebalancing_findings m q t) ≡ eligible → rebalancing_findings m q t ≡ []
  no_findings_of_eligible h =
      let (out, open_points) = eligible_cases (rebalancing_findings m q t) h in
      nil_of_no_kind (rebalancing_findings m q t) out open_points plain-rebalancing_findings

  pushed_nil : rebalancing_findings m q t ≡ [] → pushed_findings m q t ≡ []
  unfolding rebalancing_findings
  pushed_nil h =
      nil_of_no_kind (pushed_findings m q t)
        (sym (any-sort_findings is_exclusion (pushed_findings m q t)) ∙ ap (any is_exclusion) h)
        (sym (any-sort_findings is_inconclusive (pushed_findings m q t))
          ∙ ap (any is_inconclusive) h)
        (plain-pushed_findings m q t)

  eligible_of_nil : pushed_findings m q t ≡ [] → outcome_of (rebalancing_findings m q t) ≡ eligible
  unfolding rebalancing_findings outcome_of
  eligible_of_nil h = rw (
    any-sort_findings is_exclusion (pushed_findings m q t) ∙ ap (any is_exclusion) h,
    any-sort_findings is_inconclusive (pushed_findings m q t) ∙ ap (any is_inconclusive) h,
  )

  pub eligible_iff :
      (outcome_of (rebalancing_findings m q t) ≡ eligible) ↔ (pushed_findings m q t ≡ [])
  eligible_iff = (λ h. pushed_nil (no_findings_of_eligible h), eligible_of_nil)

  -- The outcome is the one that the schema derives from the findings.
  pub outcome_of-expected_outcome :
      outcome_beq
        (outcome_of (rebalancing_findings m q t))
        (expected_outcome (rebalancing_findings m q t))
      ≡ true
  unfolding outcome_of expected_outcome
  outcome_of-expected_outcome = ground (arith, plain-rebalancing_findings)

  pub findings_refinement-rebalancing_findings :
      findings_refinement (rebalancing_findings m q t) ≡ true
  unfolding rebalancing_findings
  findings_refinement-rebalancing_findings =
      findings_refinement-sort_findings (pushed_findings m q t)

  pub length-rebalancing_findings : length (rebalancing_findings m q t) ≤ 64
  unfolding rebalancing_findings
  length-rebalancing_findings =
      omega (arith, length-sort_findings (pushed_findings m q t), length-pushed_findings m q t)
