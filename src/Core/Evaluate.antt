-- ===== src/Core/Evaluate.antt =====
-- tools/marketplace-core/src/evaluate.ts: `evaluateMarketplaceWithCapability`, whose last part
-- `evaluateMarketplaceV2` has too. A projection that was captured is known by its identity, a number.
pub mod Quotes
pub mod Total
pub mod Order
pub mod Whole
use mandate_x.Base.{
  ℕ, Bool, true, false, not, List, [], ◌∷◌, map, Option, includes, if◌then◌else◌, nat_eq, Result,
  ok, err, ◌>>=◌, traverse,
}
use mandate_x.Base.Sort.{sort_by}
use mandate_x.Core.Errors.{
  CoreError, core_error, mandate_invalid, display_safe_projection_not_captured_by_core,
}
use mandate_x.Core.Mandate.{MarketplaceMandate, marketplace_mandate_schema}
use mandate_x.Core.Quote.{MarketplaceQuote, DisplaySafeQuoteProjection}
use mandate_x.Core.Normalize.{normalize_display_safe_quote_projection}
use mandate_x.Core.Decision.{MarketplaceEligibilityDecision}
use mandate_x.Core.Decide.{decide}
use mandate_x.Core.Candidates.{
  CandidateReference, validate_candidate_set, read_core_clock, validate_evaluation_time,
  compare_quotes,
}
use mandate_x.Core.Receipt.{MarketplaceReceipt, Digests}
use mandate_x.Core.Receipt.Schema.{build_receipt}

pub record MarketplaceEvaluationResult : Type 0 where
  pub mandate : MarketplaceMandate
  pub quotes : List MarketplaceQuote
  pub decisions : List MarketplaceEligibilityDecision
  pub receipt : MarketplaceReceipt

pub record CapturedProjection : Type 0 where
  pub identity : ℕ
  pub projection : DisplaySafeQuoteProjection

abbrev pub projection_key : DisplaySafeQuoteProjection → CandidateReference
projection_key p = record { quote_id = p.quote_id; candidate = p.candidate.id }

unfoldable pub parse_evaluation_mandate : MarketplaceMandate → Result CoreError MarketplaceMandate
parse_evaluation_mandate m =
    if marketplace_mandate_schema m then ok m else err (core_error mandate_invalid)

-- The loop over `capability.assertCaptured`, with the identities in its `WeakSet`.
unfoldable pub assert_captured : List ℕ → List CapturedProjection → Result {0, 0} CoreError Unit
assert_captured captured [] = ok tt
assert_captured captured (c ∷ cs) =
    let rest = assert_captured captured cs in
    if includes c.identity captured
    then rest
    else err (core_error display_safe_projection_not_captured_by_core)

abbrev pub captured_key : CapturedProjection → CandidateReference
captured_key c = projection_key c.projection

unfoldable pub validate_captured_candidate_set :
    List ℕ → List CapturedProjection → Result {0, 0} CoreError Unit
validate_captured_candidate_set captured candidates = assert_captured captured candidates >>= λ _.
    validate_candidate_set (map captured_key candidates)

module _ (digests : Digests) where
  -- From the normalization of the projections on.
  unfoldable pub evaluate_projections :
      MarketplaceMandate
      → ℕ
      → List DisplaySafeQuoteProjection
      → Result CoreError MarketplaceEvaluationResult
  evaluate_projections m evaluated_at projections =
      traverse (normalize_display_safe_quote_projection digests.of_projection) projections
      >>= λ normalized_quotes.
          let quotes = sort_by compare_quotes normalized_quotes in
          traverse (λ q. decide digests.of_quote m q evaluated_at) quotes >>= λ decisions.
          build_receipt digests m quotes decisions evaluated_at >>= λ receipt.
          ok (record { mandate = m; quotes = quotes; decisions = decisions; receipt = receipt })

  unfoldable pub evaluate_marketplace :
      List ℕ
      → Option ℕ
      → MarketplaceMandate
      → List CapturedProjection
      → Result CoreError MarketplaceEvaluationResult
  evaluate_marketplace captured clock input candidates = parse_evaluation_mandate input >>= λ m.
      read_core_clock clock >>= λ evaluated_at. validate_evaluation_time m evaluated_at >>= λ _.
      validate_captured_candidate_set captured candidates >>= λ _.
      evaluate_projections m evaluated_at (map CapturedProjection.projection candidates)
