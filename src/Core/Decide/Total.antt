-- ===== src/Core/Decide/Total.antt =====
-- `decide` returns: the literal of every branch satisfies the schema that parses it.
use mandate_x.Base.{
  ℕ, ◌≤◌, ◌≡◌, ◌≢◌, refl, true, false, List, [], ◌∷◌, arith, length, Str, Option, none, some,
  Result, ok, Bool-cases, inl, inr, ◌==◌,
}
use mandate_x.Core.Primitives.{
  unix_seconds_schema, category_eq, MarketplaceCategory, category_beq_iff,
}
use mandate_x.Core.Texts.{canonical_identifier_schema, sha256_schema}
use mandate_x.Core.Errors.{CoreError}
use mandate_x.Core.Findings.{Finding, exclusion}
use mandate_x.Core.Findings
use mandate_x.Core.Codes
use mandate_x.Core.Codes.{UnsupportedCode}
use mandate_x.Core.Mandate.{MarketplaceMandate, marketplace_mandate_schema, mandate_fields_schema}
use mandate_x.Core.Quote.{MarketplaceQuote, QuoteNormalization}
use mandate_x.Core.QuoteSchema.{candidate_schema, marketplace_quote_schema, quote_fields_schema}
use mandate_x.Core.Ranking.{RankingScore, score_of}
use mandate_x.Core.Ranking.Bounds.{score_eligible_quote-eq-ok, ranking_score_schema-score_of}
use mandate_x.Core.Rebalancing.{rebalancing_findings}
use mandate_x.Core.Decision.{
  MarketplaceEligibilityDecision, EligibilityOutcome, eligible, excluded, inconclusive, unsupported,
  expected_outcome, findings_refinement, outcome_beq, score_refinement,
  marketplace_eligibility_decision_schema, decision_fields_schema, score_schema, parse_decision,
}
use mandate_x.Core.Decision.Refinement.{findings_refinement_of_IsAscending}
use mandate_x.Core.Decide.{
  outcome_of, decision_of, score_if_eligible, decide_supported, decide_by_normalization, decide,
}
use mandate_x.Core.Decide.Outcome.{
  outcome_of-expected_outcome, findings_refinement-rebalancing_findings,
  length-rebalancing_findings, no_findings_of_eligible,
}

parse_decision_of_schema :
    (d : MarketplaceEligibilityDecision)
    → marketplace_eligibility_decision_schema d ≡ true
    → parse_decision d ≡ ok d
unfolding parse_decision
parse_decision_of_schema d h = rw h refl

pub cons_ne : (f : Finding) (fs : List Finding) → f ∷ fs ≢ []
cons_ne f fs h = cc

pub outcome_nil : (fs : List Finding) → fs ≡ [] → outcome_of fs ≡ eligible
unfolding outcome_of
outcome_nil fs h = rw h refl

category_ne : (a b : MarketplaceCategory) → (a == b) ≡ false → a ≢ b
category_ne a b h e = ground (arith, category_beq_iff a b)

module _ (canonical_sha256 : MarketplaceQuote → Str) (m : MarketplaceMandate) (q : MarketplaceQuote)
    (t : ℕ) where
  -- The score that goes with an outcome.
  abbrev pub score_for : EligibilityOutcome → Option RankingScore
  score_for eligible = some (score_of m q t)
  score_for _ = none

  -- The decision on a quote of a category that is supported.
  abbrev pub decision_found : MarketplaceEligibilityDecision
  decision_found =
      let findings = rebalancing_findings m q t in
      decision_of canonical_sha256 m q t (outcome_of findings) findings
        (score_for (outcome_of findings))

  -- What `decide` returns: the exclusion of a quote of another category, the one finding on a quote of
  -- a category that is not supported, or what the checks found.
  pub data IsDecided : Result CoreError MarketplaceEligibilityDecision → Type 0 where
    mismatched :
        q.category ≢ m.category
        → IsDecided (
            ok (
              decision_of canonical_sha256 m q t excluded
                (exclusion Codes.mandate_category_mismatch ∷ [])
                none))
    not_supported :
        (code : UnsupportedCode)
        → q.normalization ≡ QuoteNormalization.unsupported code
        → IsDecided (
            ok (
              decision_of canonical_sha256 m q t unsupported (Findings.unsupported code ∷ []) none))
    found : IsDecided (ok decision_found)

module _ (canonical_sha256 : MarketplaceQuote → Str) (m : MarketplaceMandate) (q : MarketplaceQuote)
    (t : ℕ) (valid_mandate : marketplace_mandate_schema m ≡ true)
    (valid_quote : marketplace_quote_schema q ≡ true) (valid_time : unix_seconds_schema t ≡ true)
    (digest : sha256_schema (canonical_sha256 q) ≡ true) where
  mandate_id_valid : canonical_identifier_schema m.mandate_id ≡ true
  unfolding marketplace_mandate_schema mandate_fields_schema
  mandate_id_valid = ground arith

  pub quote_parts :
      (canonical_identifier_schema q.quote_id ≡ true) × (candidate_schema q.candidate ≡ true)
  unfolding marketplace_quote_schema quote_fields_schema
  quote_parts = ground arith

  pub decision_fields :
      (o : EligibilityOutcome) (fs : List Finding) (s : Option RankingScore)
      → length fs ≤ 64
      → score_schema s ≡ true
      → decision_fields_schema (decision_of canonical_sha256 m q t o fs s) ≡ true
  unfolding decision_fields_schema
  decision_fields o fs s h k = ground (arith, mandate_id_valid, quote_parts)

  -- Fields that fit together pass the schema.
  schema_holds :
      (o : EligibilityOutcome) (fs : List Finding) (s : Option RankingScore)
      → length fs ≤ 64
      → score_schema s ≡ true
      → findings_refinement fs ≡ true
      → outcome_beq o (expected_outcome fs) ≡ true
      → score_refinement o fs s ≡ true
      → marketplace_eligibility_decision_schema (decision_of canonical_sha256 m q t o fs s) ≡ true
  unfolding marketplace_eligibility_decision_schema
  schema_holds o fs s h k a b c = ground (arith, decision_fields o fs s h k)

  -- A branch that pushes one finding itself.
  parse_one-eq-ok :
      (o : EligibilityOutcome) (f : Finding)
      → outcome_beq o (expected_outcome (f ∷ [])) ≡ true
      → score_refinement o (f ∷ []) none ≡ true
      → parse_decision (decision_of canonical_sha256 m q t o (f ∷ []) none)
        ≡ ok (decision_of canonical_sha256 m q t o (f ∷ []) none)
  parse_one-eq-ok o f b c =
      parse_decision_of_schema (decision_of canonical_sha256 m q t o (f ∷ []) none) (
        schema_holds o (f ∷ []) none (omega arith) refl
          (findings_refinement_of_IsAscending (f ∷ []) (tt, tt)) b c)

  mismatch-eq-ok :
      parse_decision (
        decision_of canonical_sha256 m q t excluded
          (exclusion Codes.mandate_category_mismatch ∷ [])
          none)
      ≡ ok (
          decision_of canonical_sha256 m q t excluded
            (exclusion Codes.mandate_category_mismatch ∷ [])
            none)
  unfolding expected_outcome score_refinement
  mismatch-eq-ok = parse_one-eq-ok excluded (exclusion Codes.mandate_category_mismatch) refl refl

  unsupported-eq-ok :
      (code : UnsupportedCode)
      → parse_decision
          (decision_of canonical_sha256 m q t unsupported (Findings.unsupported code ∷ []) none)
        ≡ ok (decision_of canonical_sha256 m q t unsupported (Findings.unsupported code ∷ []) none)
  unfolding expected_outcome score_refinement
  unsupported-eq-ok code = parse_one-eq-ok unsupported (Findings.unsupported code) refl refl

  score_if_eligible-eq-ok :
      (o : EligibilityOutcome)
      → score_if_eligible canonical_sha256 m q t o ≡ ok (score_for canonical_sha256 m q t o)
  unfolding score_if_eligible
  score_if_eligible-eq-ok eligible = rw (score_eligible_quote-eq-ok m q t) refl
  score_if_eligible-eq-ok excluded = refl
  score_if_eligible-eq-ok inconclusive = refl
  score_if_eligible-eq-ok unsupported = refl

  pub score_for_schema :
      (o : EligibilityOutcome) → score_schema (score_for canonical_sha256 m q t o) ≡ true
  score_for_schema eligible = ranking_score_schema-score_of m q t
  score_for_schema excluded = refl
  score_for_schema inconclusive = refl
  score_for_schema unsupported = refl

  pub score_for_refinement :
      (o : EligibilityOutcome) (fs : List Finding)
      → (o ≡ eligible → fs ≡ [])
      → (fs ≡ [] → o ≡ eligible)
      → score_refinement o fs (score_for canonical_sha256 m q t o) ≡ true
  unfolding score_refinement
  score_for_refinement eligible [] h k = refl
  score_for_refinement eligible (f ∷ fs) h k = absurd (cons_ne f fs (h refl))
  score_for_refinement excluded [] h k = cc (k refl)
  score_for_refinement excluded (f ∷ fs) h k = refl
  score_for_refinement inconclusive [] h k = cc (k refl)
  score_for_refinement inconclusive (f ∷ fs) h k = refl
  score_for_refinement unsupported [] h k = cc (k refl)
  score_for_refinement unsupported (f ∷ fs) h k = refl

  pub decide_supported-eq-ok :
      decide_supported canonical_sha256 m q t ≡ ok (decision_found canonical_sha256 m q t)
  unfolding decide_supported
  decide_supported-eq-ok =
      let fs = rebalancing_findings m q t in
      let o = outcome_of fs in
      rw (score_if_eligible-eq-ok o) (
        parse_decision_of_schema (decision_found canonical_sha256 m q t) (
          schema_holds o fs (score_for canonical_sha256 m q t o) (length-rebalancing_findings m q t)
            (score_for_schema o) (findings_refinement-rebalancing_findings m q t)
            (outcome_of-expected_outcome m q t)
            (score_for_refinement o fs (no_findings_of_eligible m q t) (outcome_nil fs))))

  by_normalization-IsDecided :
      (n : QuoteNormalization)
      → q.normalization ≡ n
      → IsDecided canonical_sha256 m q t (decide_by_normalization canonical_sha256 m q t n)
  unfolding decide_by_normalization
  by_normalization-IsDecided QuoteNormalization.normalized h = rw decide_supported-eq-ok found
  by_normalization-IsDecided (QuoteNormalization.inconclusive c) h = rw decide_supported-eq-ok found
  by_normalization-IsDecided (QuoteNormalization.unsupported c) h =
      rw (unsupported-eq-ok c) (not_supported c h)

  pub decide-IsDecided : IsDecided canonical_sha256 m q t (decide canonical_sha256 m q t)
  unfolding decide
  decide-IsDecided = elim (Bool-cases (q.category == m.category)) [
    | inl same ↦ rw same (by_normalization-IsDecided q.normalization refl)
    | inr differs ↦
        rw (differs, mismatch-eq-ok) (mismatched (category_ne q.category m.category differs))
  ]
