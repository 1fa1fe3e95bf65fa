-- ===== src/Core/Rebalancing/Pushed.antt =====
-- The list of pushed findings as a whole: its kinds, its length, and when it is empty.
use mandate_x.Base.{
  ℕ, ◌≤◌, ◌≡◌, refl, Bool, false, arith, any, length, any-append, length-append, Option, none, some,
}
use mandate_x.Core.Primitives.{GateObservation}
use mandate_x.Core.Codes.{ExclusionCode, InconclusiveCode}
use mandate_x.Core.Findings.{Finding, exclusion, inconclusive}
use mandate_x.Core.Mandate.{MarketplaceMandate, RebalancingPolicy}
use mandate_x.Core.Quote.{
  MarketplaceQuote, Verification, Preview, passed, failed, unavailable, QuoteNormalization,
  CategoryEvidence, rebalancing_evidence, RebalancingEvidence, Pricing, normalized_zero,
  usd_unavailable,
}
use mandate_x.Core.Quote
use mandate_x.Core.Decision.{is_unsupported}
use mandate_x.Core.Rebalancing.{
  gate_finding, add_if, timestamp_findings, TimestampCodes, verification_findings,
  lifetime_findings, normalization_findings, preview_findings, evidence_findings, trigger_findings,
  range_findings, fee_findings, budget_findings, permission_findings, category_findings,
  pushed_findings,
}

module _ (b : Bool) where
  plain-exclusion : (c : ExclusionCode) → any is_unsupported (add_if b (exclusion c)) ≡ false
  unfolding add_if
  plain-exclusion c = ground arith

  plain-inconclusive :
      (c : InconclusiveCode) → any is_unsupported (add_if b (inconclusive c)) ≡ false
  unfolding add_if
  plain-inconclusive c = ground arith

  length-add_if : (f : Finding) → length (add_if b f) ≤ 1
  unfolding add_if
  length-add_if f = ground arith

plain-gate :
    (g : GateObservation) (c : ExclusionCode) (d : InconclusiveCode)
    → any is_unsupported (gate_finding g c d) ≡ false
unfolding gate_finding
plain-gate g c d = ground arith

length-gate :
    (g : GateObservation) (c : ExclusionCode) (d : InconclusiveCode)
    → length (gate_finding g c d) ≤ 1
unfolding gate_finding
length-gate g c d = ground arith

ruleset plain = (any-append, plain-exclusion, plain-inconclusive, plain-gate)

module _ (m : MarketplaceMandate) (t : ℕ) where
  plain-timestamp :
      (observed age : ℕ) (codes : TimestampCodes)
      → any is_unsupported (timestamp_findings m t observed age codes) ≡ false
  unfolding timestamp_findings
  plain-timestamp observed age codes = simp plain

  length-timestamp :
      (observed age : ℕ) (codes : TimestampCodes)
      → length (timestamp_findings m t observed age codes) ≤ 3
  unfolding timestamp_findings
  length-timestamp observed age codes = omega (arith, length-append {0}, length-add_if)

plain-verification : (v : Verification) → any is_unsupported (verification_findings v) ≡ false
unfolding verification_findings
plain-verification v = simp plain

length-verification : (v : Verification) → length (verification_findings v) ≤ 6
unfolding verification_findings
length-verification v = omega (arith, length-append {0}, length-gate)

module _ (m : MarketplaceMandate) (q : MarketplaceQuote) (t : ℕ) where
  plain-lifetime : any is_unsupported (lifetime_findings m q t) ≡ false
  unfolding lifetime_findings
  plain-lifetime = simp (plain, plain-timestamp)

  length-lifetime : length (lifetime_findings m q t) ≤ 16
  unfolding lifetime_findings
  length-lifetime = omega (arith, length-append {0}, length-add_if, length-timestamp)

  plain-preview : (p : Preview) → any is_unsupported (preview_findings m q t p) ≡ false
  unfolding preview_findings
  plain-preview (passed _ _ _) = simp (plain, plain-timestamp)
  plain-preview (failed _) = refl
  plain-preview unavailable = refl

  length-preview : (p : Preview) → length (preview_findings m q t p) ≤ 4
  unfolding preview_findings
  length-preview (passed _ _ _) = omega (arith, length-append {0}, length-add_if, length-timestamp)
  length-preview (failed _) = omega arith
  length-preview unavailable = omega arith

  plain-normalization :
      (n : QuoteNormalization) → any is_unsupported (normalization_findings n) ≡ false
  unfolding normalization_findings
  plain-normalization (QuoteNormalization.inconclusive c) = refl
  plain-normalization _ = refl

  length-normalization : (n : QuoteNormalization) → length (normalization_findings n) ≤ 1
  unfolding normalization_findings
  length-normalization (QuoteNormalization.inconclusive c) = omega arith
  length-normalization _ = omega arith

  plain-fee : (p : Pricing) → any is_unsupported (fee_findings m p) ≡ false
  unfolding fee_findings
  plain-fee (normalized_zero _) = simp plain
  plain-fee (usd_unavailable _ _) = refl

  length-fee : (p : Pricing) → length (fee_findings m p) ≤ 1
  unfolding fee_findings
  length-fee (normalized_zero _) = omega (arith, length-add_if)
  length-fee (usd_unavailable _ _) = omega arith

  module _ (e : RebalancingEvidence) (p : RebalancingPolicy) where
    plain-category :
        any is_unsupported (category_findings m q t (rebalancing_evidence e) (some p)) ≡ false
    unfolding category_findings evidence_findings trigger_findings range_findings budget_findings
        permission_findings
    plain-category = simp (plain, plain-timestamp, plain-fee)

    length-category : length (category_findings m q t (rebalancing_evidence e) (some p)) ≤ 22
    unfolding category_findings evidence_findings trigger_findings range_findings budget_findings
        permission_findings
    length-category = omega (arith, length-append {0}, length-add_if, length-timestamp, length-fee)

  plain-category_any :
      (e : CategoryEvidence) (p : Option RebalancingPolicy)
      → any is_unsupported (category_findings m q t e p) ≡ false
  plain-category_any (rebalancing_evidence e) (some p) = plain-category e p
  plain-category_any (rebalancing_evidence e) none = unfold category_findings in refl
  plain-category_any (Quote.grid_evidence _) p = unfold category_findings in refl
  plain-category_any (Quote.yield_evidence _) p = unfold category_findings in refl
  plain-category_any (Quote.health_evidence _) p = unfold category_findings in refl

  length-category_any :
      (e : CategoryEvidence) (p : Option RebalancingPolicy)
      → length (category_findings m q t e p) ≤ 22
  length-category_any (rebalancing_evidence e) (some p) = length-category e p
  length-category_any (rebalancing_evidence e) none = unfold category_findings in omega arith
  length-category_any (Quote.grid_evidence _) p = unfold category_findings in omega arith
  length-category_any (Quote.yield_evidence _) p = unfold category_findings in omega arith
  length-category_any (Quote.health_evidence _) p = unfold category_findings in omega arith

  -- No finding of a supported category says that the category is unsupported.
  pub plain-pushed_findings : any is_unsupported (pushed_findings m q t) ≡ false
  unfolding pushed_findings
  plain-pushed_findings = simp (
    plain, plain-verification, plain-lifetime, plain-normalization, plain-preview,
    plain-category_any,
  )

  -- There are fewer findings than a decision has room for.
  pub length-pushed_findings : length (pushed_findings m q t) ≤ 64
  unfolding pushed_findings
  length-pushed_findings = omega (
    arith,
    length-append {0},
    length-verification,
    length-lifetime,
    length-normalization,
    length-preview,
    length-category_any,
  )
