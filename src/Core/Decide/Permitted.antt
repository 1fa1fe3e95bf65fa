-- ===== src/Core/Decide/Permitted.antt =====
-- Nothing is pushed exactly when the mandate permits the quote.
use mandate_x.Base.{
  ℕ, ◌<◌, ◌≡◌, ◌↔◌, refl, sym, ap, ap₂, ◌∙◌, subst, true, [], arith, Option, none, some,
  concat₅-nil,
}
use mandate_x.Core.Primitives.{rebalancing, category_beq_iff}
use mandate_x.Core.Mandate.{
  MarketplaceMandate, RebalancingPolicy, marketplace_mandate_schema, mandate_fields_schema,
  mandate_refinement, policy_refinement, rebalancing_policy_schema,
}
use mandate_x.Core.Quote.{
  MarketplaceQuote, QuoteNormalization, CategoryEvidence, rebalancing_evidence, grid_evidence,
  yield_evidence, health_evidence, RebalancingEvidence, evidence_category, Pricing,
}
use mandate_x.Core.QuoteSchema.{
  marketplace_quote_schema, category_evidence_schema, rebalancing_evidence_schema,
  normalization_refinement, supported_normalization,
}
use mandate_x.Core.Rebalancing.{normalization_findings, category_findings, pushed_findings}
use mandate_x.Core.Rebalancing.Spec.{
  IsPermitted, EvidenceMatches, TriggerHolds, RangeHolds, BudgetHolds, PermissionsHold,
}
use mandate_x.Core.Rebalancing.Groups.{
  verification_findings-nil, lifetime_findings-nil, preview_findings-nil, evidence_findings-nil,
  budget_findings-nil, permission_findings-nil,
}
use mandate_x.Core.Rebalancing.Trigger.{trigger_findings-nil}
use mandate_x.Core.Rebalancing.Proposal.{range_findings-nil}

-- What the schemas of a rebalancing mandate and quote guarantee.
record IsRebalancing (m : MarketplaceMandate) (q : MarketplaceQuote) : Type 0 where
  evidence : RebalancingEvidence
  policy : RebalancingPolicy
  has_evidence : q.category_evidence ≡ rebalancing_evidence evidence
  has_policy : m.rebalancing_policy ≡ some policy
  spacing_pos : 0 < evidence.tick_spacing
  width_pos : 0 < policy.target_width_ticks

evidence_of :
    (c : CategoryEvidence)
    → evidence_category c ≡ rebalancing
    → category_evidence_schema c ≡ true
    → (e : RebalancingEvidence) × (c ≡ rebalancing_evidence e) × (0 < e.tick_spacing)
unfolding category_evidence_schema rebalancing_evidence_schema
evidence_of (rebalancing_evidence e) h k = (e, refl, ground arith)
evidence_of (grid_evidence _) h k = cc
evidence_of (yield_evidence _) h k = cc
evidence_of (health_evidence _) h k = cc

policy_of :
    (p : Option RebalancingPolicy)
    → policy_refinement rebalancing p ≡ true
    → rebalancing_policy_schema p ≡ true
    → (r : RebalancingPolicy) × (p ≡ some r) × (0 < r.target_width_ticks)
unfolding policy_refinement rebalancing_policy_schema
policy_of none h k = cc
policy_of (some r) h k = (r, refl, ground arith)

normalized_of :
    (pricing : Pricing) (n : QuoteNormalization)
    → supported_normalization pricing n ≡ true
    → normalization_findings n ≡ []
    → n ≡ QuoteNormalization.normalized
unfolding normalization_findings supported_normalization
normalized_of pricing QuoteNormalization.normalized s h = refl
normalized_of pricing (QuoteNormalization.inconclusive c) s h = cc
normalized_of pricing (QuoteNormalization.unsupported c) s h = cc

spacing_of :
    (e : RebalancingEvidence)
    → category_evidence_schema (rebalancing_evidence e) ≡ true
    → 0 < e.tick_spacing
unfolding category_evidence_schema rebalancing_evidence_schema
spacing_of e h = ground arith

width_of :
    (p : RebalancingPolicy) → rebalancing_policy_schema (some p) ≡ true → 0 < p.target_width_ticks
unfolding rebalancing_policy_schema
width_of p h = ground arith

module _ (m : MarketplaceMandate) (q : MarketplaceQuote) (t : ℕ) where
  -- The findings of the category, for the evidence and the policy that are there.
  category_findings-nil :
      (e : RebalancingEvidence) (p : RebalancingPolicy)
      → 0 < e.tick_spacing
      → 0 < p.target_width_ticks
      → (category_findings m q t (rebalancing_evidence e) (some p) ≡ []) ↔ (
          EvidenceMatches m q t e p
          × TriggerHolds e p
          × RangeHolds e p
          × BudgetHolds m q
          × PermissionsHold m q t)
  unfolding category_findings
  category_findings-nil e p s w = (
    λ h.
        let (a, b, c, d, f) = concat₅-nil.0 h in
        (
          (evidence_findings-nil m q t e p).0 a,
          (trigger_findings-nil e p).0 b,
          (range_findings-nil e p s w).0 c,
          (budget_findings-nil m q).0 d,
          (permission_findings-nil m q t).0 f,
        ),
    λ h. concat₅-nil.1 (
      (evidence_findings-nil m q t e p).1 h.0,
      (trigger_findings-nil e p).1 h.1,
      (range_findings-nil e p s w).1 h.2,
      (budget_findings-nil m q).1 h.3,
      (permission_findings-nil m q t).1 h.4,
    ),
  )

  module _ (valid_mandate : marketplace_mandate_schema m ≡ true)
      (valid_quote : marketplace_quote_schema q ≡ true) where
    evidence_parts :
        (category_evidence_schema q.category_evidence ≡ true)
        × (q.category ≡ evidence_category q.category_evidence)
    unfolding marketplace_quote_schema
    evidence_parts =
        ground (arith, category_beq_iff q.category (evidence_category q.category_evidence))

    policy_parts :
        (rebalancing_policy_schema m.rebalancing_policy ≡ true)
        × (policy_refinement m.category m.rebalancing_policy ≡ true)
    unfolding marketplace_mandate_schema mandate_fields_schema mandate_refinement
    policy_parts = ground arith

    refined : normalization_refinement q.category q.pricing q.normalization ≡ true
    unfolding marketplace_quote_schema
    refined = ground arith

    supported_normalization_of :
        q.category ≡ rebalancing → supported_normalization q.pricing q.normalization ≡ true
    unfolding normalization_refinement
    supported_normalization_of h =
        subst (λ c. normalization_refinement c q.pricing q.normalization ≡ true) h refined

    rebalancing_parts : m.category ≡ rebalancing → q.category ≡ m.category → IsRebalancing m q
    rebalancing_parts h k =
        let category = sym evidence_parts.1 ∙ k ∙ h in
        let refinement =
          subst (λ c. policy_refinement c m.rebalancing_policy ≡ true) h policy_parts.1 in
        let (e, has_evidence, spacing_pos) =
          evidence_of q.category_evidence category evidence_parts.0 in
        let (p, has_policy, width_pos) = policy_of m.rebalancing_policy refinement policy_parts.0 in
        record {
          evidence = e;
          policy = p;
          has_evidence = has_evidence;
          has_policy = has_policy;
          spacing_pos = spacing_pos;
          width_pos = width_pos;
        }

    IsPermitted-of_nil : pushed_findings m q t ≡ [] → IsPermitted m q t
    unfolding pushed_findings
    IsPermitted-of_nil h =
        let (gates, lifetime, normal, preview, category) = concat₅-nil.0 h in
        let life = (lifetime_findings-nil m q t).0 lifetime in
        let parts = rebalancing_parts life.category life.same_category in
        let found : category_findings m q t (rebalancing_evidence parts.evidence)
              (some parts.policy)
            ≡ [] =
          rw (← parts.has_evidence, ← parts.has_policy) category in
        let (a, b, c, d, f) =
          (category_findings-nil parts.evidence parts.policy parts.spacing_pos parts.width_pos).0
            found in
        record {
          gates = (verification_findings-nil q.verification).0 gates;
          lifetime = life;
          normalized =
              normalized_of q.pricing q.normalization
                (supported_normalization_of (life.same_category ∙ life.category)) normal;
          preview = (preview_findings-nil m q t q.preview).0 preview;
          evidence = parts.evidence;
          has_evidence = parts.has_evidence;
          policy = parts.policy;
          has_policy = parts.has_policy;
          matches = a;
          trigger = b;
          range = c;
          budget = d;
          permissions = f;
        }

    nil_of_permitted : IsPermitted m q t → pushed_findings m q t ≡ []
    unfolding pushed_findings normalization_findings
    nil_of_permitted r =
        let spacing =
          spacing_of r.evidence
            (subst (λ c. category_evidence_schema c ≡ true) r.has_evidence evidence_parts.0) in
        let width =
          width_of r.policy
            (subst (λ p. rebalancing_policy_schema p ≡ true) r.has_policy policy_parts.0) in
        let found =
          (category_findings-nil r.evidence r.policy spacing width).1
            (r.matches, r.trigger, r.range, r.budget, r.permissions) in
        let category : category_findings m q t q.category_evidence m.rebalancing_policy ≡ [] =
          ap₂ (category_findings m q t) r.has_evidence r.has_policy ∙ found in
        concat₅-nil.1 (
          (verification_findings-nil q.verification).1 r.gates,
          (lifetime_findings-nil m q t).1 r.lifetime,
          ap normalization_findings r.normalized,
          (preview_findings-nil m q t q.preview).1 r.preview,
          category,
        )

    pub pushed_findings-nil : (pushed_findings m q t ≡ []) ↔ IsPermitted m q t
    pushed_findings-nil = (IsPermitted-of_nil, nil_of_permitted)
