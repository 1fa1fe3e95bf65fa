-- ===== src/Core/Examples/Witnesses.antt =====
-- The theorems of Marketplace Core at the mandate, the projections and the decisions of the tests.
use mandate_x.Base.{
  ◌≤◌, ◌≡◌, ◌↔◌, refl, true, List, [], ◌∷◌, map, none, some, str_eq, pos, negsuc, ◌+ℤ◌, length, any,
  arith, ok,
}
use mathlib.Core.List.{Permᴰ}
use mandate_x.Base.Sort.{sort_by, IsAscending}
use mandate_x.Base.Sets.{AreUnequal}
use mandate_x.Core.Codes.{gas_budget_exceeded, quote_stale, endpoint_check_inconclusive}
use mandate_x.Core.Candidates.{
  CandidateReference, candidate_id_eq, inspect_candidate_set, inspect_from, compare_quotes,
  validate_evaluation_time,
}
use mandate_x.Core.Candidates.Unique.{inspect_candidate_set-eq-none}
use mandate_x.Core.Findings.{Finding, exclusion, inconclusive, compare_findings, sort_findings}
use mandate_x.Core.Findings.Order.{sort_findings-IsAscending, any-sort_findings}
use mandate_x.Core.Normalize.{quote_of, normalize_display_safe_quote_projection}
use mandate_x.Core.Normalize.Total.{normalize_display_safe_quote_projection-eq-ok}
use mandate_x.Core.Ranking.{score_of, score_eligible_quote}
use mandate_x.Core.Ranking.Bounds.{score_eligible_quote-eq-ok}
use mandate_x.Core.Ranking.Monotone.{Dominates, score_of-Dominates}
use mandate_x.Core.Rebalancing.{
  range_findings, trigger_findings, lifetime_findings, evidence_findings, permission_findings,
}
use mandate_x.Core.Rebalancing.Range.{expected_lower_tick}
use mandate_x.Core.Rebalancing.Spec.{
  IsPermitted, RangeHolds, TriggerHolds, LifetimeHolds, EvidenceMatches, PermissionsHold,
}
use mandate_x.Core.Rebalancing.Target.{IsTargetRange, expected_lower_tick-IsTargetRange}
use mandate_x.Core.Rebalancing.Proposal.{range_findings-nil}
use mandate_x.Core.Rebalancing.Trigger.{trigger_findings-nil}
use mandate_x.Core.Rebalancing.Groups.{
  lifetime_findings-nil, evidence_findings-nil, permission_findings-nil,
}
use mandate_x.Core.Decision.{
  MarketplaceEligibilityDecision, eligible, is_exclusion, findings_refinement, score_refinement,
}
use mandate_x.Core.Decision.Refinement.{findings_refinement-sort_findings}
use mandate_x.Core.Decide.{decide}
use mandate_x.Core.Decide.Eligible.{decide-IsPermitted}
use mandate_x.Core.Receipt.{ranking_of, summary_of}
use mandate_x.Core.Receipt.{receipt_body}
use mandate_x.Core.Receipt.Schema.{build_receipt, receipt_of}
use mandate_x.Core.Receipt.Built.{build_receipt-eq-ok}
use mandate_x.Core.Receipt.Counts.{IsRanking, ranking_of-IsRanking, length-ranking_of}
use mandate_x.Core.Evaluate.{
  CapturedProjection, captured_key, projection_key, MarketplaceEvaluationResult,
  evaluate_marketplace, evaluate_projections,
}
use mandate_x.Core.Evaluate.Total.{AreAnswered, evaluate_projections-eq-ok}
use mandate_x.Core.Consistency.{CanonicalTexts, verify_evaluation_consistency}
use mandate_x.Core.Consistency.RoundTrip.{verify_evaluation_consistency-eq-ok}
use mandate_x.Core.Evaluate.Order.{evaluate_projections-Permᴰ}
use mandate_x.Core.Evaluate.Whole.{evaluate_marketplace-eq-ok}
use mandate_x.Core.Examples.Data.{
  mandate, policy, evidence, cheap, dear, over_budget, cheap_valid, dear_valid, over_budget_valid,
  digests, digests-IsSha256, some_digest_valid, mandate_valid, cheap_quote, dear_quote,
  cheap_quote_valid, cheap_decision, cheap_AreDecided, decisions,
}

abbrev candidates : List CapturedProjection
candidates =
    record { identity = 1; projection = cheap }
    ∷ record { identity = 2; projection = dear }
    ∷ record { identity = 3; projection = over_budget }
    ∷ []

no_issue : inspect_candidate_set (map captured_key candidates) ≡ none
unfolding inspect_candidate_set inspect_from
no_issue = refl

evaluate_marketplace-eq-ok_example :
    (r : MarketplaceEvaluationResult) × (evaluate_marketplace digests
        (3 ∷ 2 ∷ 1 ∷ [])
        (some 2005)
        mandate
        candidates
      ≡ ok r)
    × (r.quotes
        ≡ sort_by compare_quotes
            (map (quote_of digests.of_projection) (map CapturedProjection.projection candidates)))
    × AreAnswered mandate 2005 r.quotes r.decisions
    × IsRanking 0 r.receipt.body.ranking
    × (length r.receipt.body.ranking ≡ r.receipt.body.summary.eligible)
evaluate_marketplace-eq-ok_example =
    evaluate_marketplace-eq-ok digests digests-IsSha256 (3 ∷ 2 ∷ 1 ∷ []) mandate 2005 candidates
      mandate_valid refl (omega arith) (refl, (refl, (refl, tt))) no_issue
      (cheap_valid, (dear_valid, (over_budget_valid, tt)))

decide-IsPermitted_example :
    (d : MarketplaceEligibilityDecision) × (decide digests.of_quote mandate cheap_quote 2005 ≡ ok d)
    × ((d.outcome ≡ eligible) ↔ IsPermitted mandate cheap_quote 2005)
    × (d.outcome ≡ eligible → d.score ≡ some (score_of mandate cheap_quote 2005))
decide-IsPermitted_example =
    decide-IsPermitted digests.of_quote mandate cheap_quote 2005 mandate_valid cheap_quote_valid
      refl some_digest_valid

evaluate_projections-Permᴰ_example :
    evaluate_projections digests mandate 2005 (cheap ∷ dear ∷ [])
    ≡ evaluate_projections digests mandate 2005 (dear ∷ cheap ∷ [])
evaluate_projections-Permᴰ_example =
    evaluate_projections-Permᴰ digests digests-IsSha256 mandate 2005 (cheap ∷ dear ∷ [])
      (dear ∷ cheap ∷ []) (Permᴰ.swap refl refl) (cheap_valid, (dear_valid, tt))
      ((refl, tt), (tt, tt))

inspect_candidate_set-eq-none_example :
    (inspect_candidate_set (map captured_key candidates) ≡ none) ↔ (
      (length (map captured_key candidates) ≤ 8)
      × AreUnequal (map CandidateReference.candidate (map captured_key candidates))
      × AreUnequal (map CandidateReference.quote_id (map captured_key candidates)))
inspect_candidate_set-eq-none_example = inspect_candidate_set-eq-none (map captured_key candidates)

build_receipt-eq-ok_example :
    build_receipt digests mandate (cheap_quote ∷ []) (cheap_decision ∷ []) 2005
    ≡ ok (
        receipt_of digests
          (receipt_body digests mandate (cheap_quote ∷ []) (cheap_decision ∷ []) 2005))
build_receipt-eq-ok_example =
    build_receipt-eq-ok digests digests-IsSha256 mandate 2005 (cheap_quote ∷ [])
      (cheap_decision ∷ []) cheap_AreDecided mandate_valid refl

ranking_of-IsRanking_example : IsRanking 0 (ranking_of decisions)
ranking_of-IsRanking_example = ranking_of-IsRanking decisions

length-ranking_of_example : length (ranking_of decisions) ≡ (summary_of decisions).eligible
unfolding score_refinement
length-ranking_of_example = length-ranking_of decisions (refl, (refl, (refl, tt)))

score_eligible_quote-eq-ok_example :
    score_eligible_quote mandate cheap_quote 2005 ≡ ok (score_of mandate cheap_quote 2005)
score_eligible_quote-eq-ok_example = score_eligible_quote-eq-ok mandate cheap_quote 2005

cheap-Dominates : Dominates cheap_quote dear_quote
unfolding quote_of
cheap-Dominates = record {
  observed = omega arith;
  estimated = omega arith;
  evidenced = omega arith;
  reputed = omega arith;
  previewed = omega arith;
  lifetime = omega arith;
  spend_cap = omega arith;
  exposure = omega arith;
  slippage = omega arith;
  gas = omega arith;
  score = omega arith;
  confidence = omega arith;
  samples = omega arith;
}

score_of-Dominates_example :
    (score_of mandate dear_quote 2005).weighted_total
    ≤ (score_of mandate cheap_quote 2005).weighted_total
score_of-Dominates_example =
    score_of-Dominates mandate cheap_quote dear_quote 2005 cheap-Dominates (omega arith)

expected_lower_tick-IsTargetRange_example :
    IsTargetRange
      (negsuc 136)
      (expected_lower_tick (negsuc 136) 200 10)
      (expected_lower_tick (negsuc 136) 200 10 +ℤ pos 200)
      200
      10
expected_lower_tick-IsTargetRange_example =
    expected_lower_tick-IsTargetRange (negsuc 136) 200 10 (omega arith) (omega arith) refl

range_findings-nil_example : (range_findings evidence policy ≡ []) ↔ RangeHolds evidence policy
range_findings-nil_example = range_findings-nil evidence policy (omega arith) (omega arith)

trigger_findings-nil_example :
    (trigger_findings evidence policy ≡ []) ↔ TriggerHolds evidence policy
trigger_findings-nil_example = trigger_findings-nil evidence policy

lifetime_findings-nil_example :
    (lifetime_findings mandate cheap_quote 2005 ≡ []) ↔ LifetimeHolds mandate cheap_quote 2005
lifetime_findings-nil_example = lifetime_findings-nil mandate cheap_quote 2005

evidence_findings-nil_example :
    (evidence_findings mandate cheap_quote 2005 evidence policy ≡ [])
    ↔ EvidenceMatches mandate cheap_quote 2005 evidence policy
evidence_findings-nil_example = evidence_findings-nil mandate cheap_quote 2005 evidence policy

permission_findings-nil_example :
    (permission_findings mandate cheap_quote 2005 ≡ []) ↔ PermissionsHold mandate cheap_quote 2005
permission_findings-nil_example = permission_findings-nil mandate cheap_quote 2005

abbrev found : List Finding
found =
    exclusion quote_stale
    ∷ inconclusive endpoint_check_inconclusive
    ∷ exclusion gas_budget_exceeded
    ∷ exclusion quote_stale
    ∷ []

sort_findings-IsAscending_example : IsAscending compare_findings (sort_findings found)
sort_findings-IsAscending_example = sort_findings-IsAscending found

any-sort_findings_example : any is_exclusion (sort_findings found) ≡ any is_exclusion found
any-sort_findings_example = any-sort_findings is_exclusion found

findings_refinement-sort_findings_example : findings_refinement (sort_findings found) ≡ true
findings_refinement-sort_findings_example = findings_refinement-sort_findings found

normalize_display_safe_quote_projection-eq-ok_example :
    normalize_display_safe_quote_projection digests.of_projection cheap
    ≡ ok (quote_of digests.of_projection cheap)
normalize_display_safe_quote_projection-eq-ok_example =
    normalize_display_safe_quote_projection-eq-ok digests.of_projection cheap some_digest_valid
      cheap_valid

-- What an evaluation of two projections returns.
evaluated :
    (r : MarketplaceEvaluationResult) × (evaluate_projections digests mandate 2005
        (cheap ∷ dear ∷ [])
      ≡ ok r)
    × (r.quotes ≡ sort_by compare_quotes (map (quote_of digests.of_projection) (cheap ∷ dear ∷ [])))
    × AreAnswered mandate 2005 r.quotes r.decisions
    × IsRanking 0 r.receipt.body.ranking
    × (length r.receipt.body.ranking ≡ r.receipt.body.summary.eligible)
evaluated =
    evaluate_projections-eq-ok digests digests-IsSha256 mandate 2005 mandate_valid refl
      (cheap ∷ dear ∷ []) (cheap_valid, (dear_valid, tt)) (omega arith) ((refl, tt), (tt, tt))
      ((refl, tt), (tt, tt))

-- Canonical texts that tell the numbers of elements apart.
abbrev texts : CanonicalTexts
texts = record {
  of_quotes = λ qs. length qs ∷ [];
  of_decisions = λ ds. length ds ∷ [];
  of_receipt = λ r. r.receipt_id;
}

two_inspected : inspect_candidate_set (map projection_key (cheap ∷ dear ∷ [])) ≡ none
unfolding inspect_candidate_set inspect_from
two_inspected = refl

time_valid : validate_evaluation_time mandate 2005 ≡ ok tt
unfolding validate_evaluation_time
time_valid = refl

verify_evaluation_consistency-eq-ok_example :
    verify_evaluation_consistency digests texts evaluated.0 ≡ ok evaluated.0
verify_evaluation_consistency-eq-ok_example =
    verify_evaluation_consistency-eq-ok digests texts mandate 2005 (cheap ∷ dear ∷ []) evaluated.0
      mandate_valid time_valid two_inspected evaluated.1
