-- ===== src/Core/Consistency.antt =====
-- tools/marketplace-core/src/evaluate.ts: `verifyMarketplaceEvaluationConsistency`, on a result of the shape that
-- `assertIntegrityResultShape` asks for, whose artifacts are what their schemas parse them to.
pub mod RoundTrip
use mandate_x.Base.{
  ℕ, Bool, not, ◌||◌, List, map, Option, none, some, length, ltb, eqb, Str, str_eq, ◌!=◌, Result,
  ok, err, ◌>>=◌, traverse, refuse_if, for_each,
}
use mandate_x.Base.Sort.{sort_by}
use mandate_x.Core.Primitives.{max_candidates}
use mandate_x.Core.Errors.{
  CoreError, core_error, integrity_mandate_invalid, integrity_quotes_invalid,
  integrity_decisions_invalid, integrity_receipt_invalid, integrity_result_too_large,
  integrity_result_shape_invalid, integrity_result_unordered, integrity_uniqueness_invalid,
}
use mandate_x.Core.Mandate.{MarketplaceMandate, marketplace_mandate_schema}
use mandate_x.Core.Quote.{MarketplaceQuote}
use mandate_x.Core.QuoteSchema.{marketplace_quote_schema}
use mandate_x.Core.Decision.{
  MarketplaceEligibilityDecision, marketplace_eligibility_decision_schema,
}
use mandate_x.Core.Decide.{decide}
use mandate_x.Core.Candidates.{
  CandidateReference, inspect_candidate_set, validate_evaluation_time, compare_quotes,
}
use mandate_x.Core.Receipt.{MarketplaceReceipt, Digests}
use mandate_x.Core.Receipt.Schema.{marketplace_receipt_schema, build_receipt}
use mandate_x.Core.Receipt.Unique.{decision_key}
use mandate_x.Core.Receipt.Built.{quote_key}
use mandate_x.Core.Evaluate.{MarketplaceEvaluationResult}

abbrev pub IntegrityCheck : Type 0
IntegrityCheck = Result {0, 0} CoreError Unit

-- `canonicalJson` at the types of the artifacts that are compared.
pub record CanonicalTexts : Type 0 where
  pub of_quotes : List MarketplaceQuote → Str
  pub of_decisions : List MarketplaceEligibilityDecision → Str
  pub of_receipt : MarketplaceReceipt → Str

unfoldable pub assert_integrity_uniqueness : List CandidateReference → IntegrityCheck
assert_integrity_uniqueness references = elim (inspect_candidate_set references) [
  | none ↦ ok tt
  | some code ↦ err (core_error integrity_uniqueness_invalid)
]

-- The sizes and the schemas of the artifacts.
unfoldable pub parse_artifacts : MarketplaceEvaluationResult → IntegrityCheck
parse_artifacts r =
    refuse_if (not (marketplace_mandate_schema r.mandate)) (core_error integrity_mandate_invalid)
    >>= λ _.
        refuse_if (ltb max_candidates (length r.quotes) || ltb max_candidates (length r.decisions))
          (core_error integrity_result_too_large)
        >>= λ _.
            refuse_if (not (eqb (length r.quotes) (length r.decisions)))
              (core_error integrity_result_shape_invalid)
            >>= λ _.
                for_each
                  (λ q.
                    refuse_if (not (marketplace_quote_schema q))
                      (core_error integrity_quotes_invalid))
                  r.quotes
                >>= λ _.
                    for_each
                      (λ d.
                        refuse_if (not (marketplace_eligibility_decision_schema d))
                          (core_error integrity_decisions_invalid))
                      r.decisions
                    >>= λ _.
                        refuse_if (not (marketplace_receipt_schema r.receipt))
                          (core_error integrity_receipt_invalid)

module _ (digests : Digests) (texts : CanonicalTexts) where
  -- What is computed again and compared.
  unfoldable pub recompute : MarketplaceEvaluationResult → IntegrityCheck
  recompute r =
      refuse_if (texts.of_quotes r.quotes != texts.of_quotes (sort_by compare_quotes r.quotes))
        (core_error integrity_result_unordered)
      >>= λ _.
          traverse (λ q. decide digests.of_quote r.mandate q r.receipt.body.evaluated_at) r.quotes
          >>= λ expected_decisions.
              refuse_if (texts.of_decisions r.decisions != texts.of_decisions expected_decisions)
                (core_error integrity_decisions_invalid)
              >>= λ _.
                  build_receipt digests r.mandate r.quotes r.decisions r.receipt.body.evaluated_at
                  >>= λ expected_receipt.
                      refuse_if (texts.of_receipt r.receipt != texts.of_receipt expected_receipt)
                        (core_error integrity_receipt_invalid)

  unfoldable pub verify_evaluation_consistency :
      MarketplaceEvaluationResult → Result CoreError MarketplaceEvaluationResult
  verify_evaluation_consistency r = parse_artifacts r >>= λ _.
      validate_evaluation_time r.mandate r.receipt.body.evaluated_at >>= λ _.
      assert_integrity_uniqueness (map quote_key r.quotes) >>= λ _.
      assert_integrity_uniqueness (map decision_key r.decisions) >>= λ _.
      refuse_if (r.receipt.body.mandate_id != r.mandate.mandate_id)
        (core_error integrity_receipt_invalid)
      >>= λ _. recompute r >>= λ _. ok r
