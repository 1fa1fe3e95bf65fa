-- ===== src/Core/Evaluate/Total.antt =====
-- An evaluation returns, and its decisions are those that the mandate calls for.
use mandate_x.Base.{
  ℕ, ◌≤◌, ◌≡◌, ◌↔◌, refl, ap, ap₂, sym, ◌∙◌, subst, true, List, [], ◌∷◌, map, All, length,
  length-map, str_eq, Equality, Result, ok, traverse, arith,
}
use mandate_x.Base.Sort.{sort_by, All-sort_by, length-sort_by}
use mandate_x.Base.Sets.{AreUnequal}
use mandate_x.Base.Pairwise.{AreUnequal-sort_by}
use mandate_x.Core.Primitives.{unix_seconds_schema}
use mandate_x.Core.Texts.{sha256_schema}
use mandate_x.Core.Errors.{CoreError}
use mandate_x.Core.Mandate.{MarketplaceMandate, marketplace_mandate_schema}
use mandate_x.Core.Quote.{MarketplaceQuote, DisplaySafeQuoteProjection}
use mandate_x.Core.QuoteSchema.{marketplace_quote_schema, display_safe_quote_projection_schema}
use mandate_x.Core.Normalize.{quote_of}
use mandate_x.Core.Rebalancing.{rebalancing_findings}
use mandate_x.Core.Rebalancing.Spec.{IsPermitted}
use mandate_x.Core.Decision.{MarketplaceEligibilityDecision, eligible, score_refinement}
use mandate_x.Core.Decide.{decide, outcome_of}
use mandate_x.Core.Decide.Outcome.{no_findings_of_eligible}
use mandate_x.Core.Decide.Total.{
  IsDecided, decide-IsDecided, mismatched, not_supported, found, quote_parts, score_for_schema,
  score_for_refinement, outcome_nil,
}
use mandate_x.Core.Decide.Eligible.{decide-IsPermitted}
use mandate_x.Core.Candidates.{CandidateReference, candidate_id_eq, compare_quotes}
use mandate_x.Core.Receipt.{Digests, receipt_body}
use mandate_x.Core.Receipt.Counts.{IsRanking, ranking_of-IsRanking, length-ranking_of}
use mandate_x.Core.Receipt.Unique.{decision_key}
use mandate_x.Core.Receipt.Total.{IsSha256, IsReferable}
use mandate_x.Core.Receipt.Schema.{receipt_of}
use mandate_x.Core.Receipt.Built.{
  quote_key, map-after, IsConsistent-All, AreDecided, build_receipt-eq-ok,
}
use mandate_x.Core.Evaluate.Quotes.{valid-All, keys_of_quotes, normalized-All}
use mandate_x.Core.Evaluate.{MarketplaceEvaluationResult, projection_key, evaluate_projections}

-- One decision on each quote, in their order, eligible exactly where the mandate permits the quote.
abbrev pub AreAnswered :
    MarketplaceMandate → ℕ → List MarketplaceQuote → List MarketplaceEligibilityDecision → Type 0
AreAnswered m t [] [] = Unit
AreAnswered m t (q ∷ qs) (d ∷ ds) =
    (decision_key d ≡ quote_key q)
    × ((d.outcome ≡ eligible) ↔ IsPermitted m q t)
    × AreAnswered m t qs ds
AreAnswered m t _ _ = ⊥

ok_inj :
    {r : Result CoreError MarketplaceEligibilityDecision} {d e : MarketplaceEligibilityDecision}
    → r ≡ ok d
    → r ≡ ok e
    → d ≡ e
ok_inj h k = cc

module _ (digests : Digests) (sha256 : IsSha256 digests) (m : MarketplaceMandate) (t : ℕ)
    (valid_mandate : marketplace_mandate_schema m ≡ true)
    (valid_time : unix_seconds_schema t ≡ true) where
  decided-IsReferable :
      (q : MarketplaceQuote) (valid_quote : marketplace_quote_schema q ≡ true)
      (digest : sha256_schema (digests.of_quote q) ≡ true)
      {r : Result CoreError MarketplaceEligibilityDecision}
      → IsDecided digests.of_quote m q t r
      → (d : MarketplaceEligibilityDecision) × (r ≡ ok d)
        × (decision_key d ≡ quote_key q)
        × IsReferable d
  unfolding score_refinement
  decided-IsReferable q v h (mismatched differs) =
      let (id, candidate) = quote_parts digests.of_quote m q t valid_mandate v valid_time h in
      (
        _,
        refl,
        refl,
        record { quote_id = id; candidate = candidate; score = refl; consistent = refl },
      )
  decided-IsReferable q v h (not_supported code e) =
      let (id, candidate) = quote_parts digests.of_quote m q t valid_mandate v valid_time h in
      (
        _,
        refl,
        refl,
        record { quote_id = id; candidate = candidate; score = refl; consistent = refl },
      )
  decided-IsReferable q v h found =
      let (id, candidate) = quote_parts digests.of_quote m q t valid_mandate v valid_time h in
      let fs = rebalancing_findings m q t in
      (
        _,
        refl,
        refl,
        record {
          quote_id = id;
          candidate = candidate;
          score =
              score_for_schema digests.of_quote m q t valid_mandate v valid_time h (outcome_of fs);
          consistent =
              score_for_refinement digests.of_quote m q t valid_mandate v valid_time h
                (outcome_of fs) fs (no_findings_of_eligible m q t) (outcome_nil fs);
        },
      )

  decide_one :
      (q : MarketplaceQuote)
      → marketplace_quote_schema q ≡ true
      → (d : MarketplaceEligibilityDecision) × (decide digests.of_quote m q t ≡ ok d)
        × (decision_key d ≡ quote_key q)
        × IsReferable d
        × ((d.outcome ≡ eligible) ↔ IsPermitted m q t)
  decide_one q v =
      let h = sha256.of_quote q in
      let (d, r, named, referable) =
        decided-IsReferable q v h
          (decide-IsDecided digests.of_quote m q t valid_mandate v valid_time h) in
      let (d', r', permitted, _) =
        decide-IsPermitted digests.of_quote m q t valid_mandate v valid_time h in
      let same : d' ≡ d = ok_inj r' r in
      (
        d,
        r,
        named,
        referable,
        subst (λ (d : MarketplaceEligibilityDecision). (d.outcome ≡ eligible) ↔ IsPermitted m q t)
            same permitted,
      )

  decide-All :
      (qs : List MarketplaceQuote)
      → All (λ q. marketplace_quote_schema q ≡ true) qs
      → (ds : List MarketplaceEligibilityDecision) × (traverse
            (λ q. decide digests.of_quote m q t)
            qs
          ≡ ok ds)
        × All IsReferable ds
        × (map decision_key ds ≡ map quote_key qs)
        × AreAnswered m t qs ds
  decide-All [] h = ([], refl, tt, refl, tt)
  decide-All (q ∷ qs) h =
      let (d, r, named, referable, permitted) = decide_one q h.0 in
      let (ds, rs, more_referable, more_named, more_answered) = decide-All qs h.1 in
      (
        d ∷ ds,
        rw (r, rs) refl,
        (referable, more_referable),
        ap₂ ◌∷◌ named more_named,
        (named, permitted, more_answered),
      )

  module _ (ps : List DisplaySafeQuoteProjection)
      (valid : All (λ p. display_safe_quote_projection_schema p ≡ true) ps) (few : length ps ≤ 8)
      (candidates : AreUnequal (map CandidateReference.candidate (map projection_key ps)))
      (quote_ids : AreUnequal (map CandidateReference.quote_id (map projection_key ps))) where
    abbrev quotes : List MarketplaceQuote
    quotes = sort_by compare_quotes (map (quote_of digests.of_projection) ps)

    valid_quotes : All (λ q. marketplace_quote_schema q ≡ true) quotes
    valid_quotes =
        All-sort_by compare_quotes (λ q. marketplace_quote_schema q ≡ true)
          (map (quote_of digests.of_projection) ps) (valid-All digests sha256 ps valid)

    unequal_quotes {ℓ} :
        {A : Type ℓ} ⦃e : Equality A⦄ (f : CandidateReference → A)
        → AreUnequal (map f (map projection_key ps))
        → AreUnequal (map f (map quote_key quotes))
    unequal_quotes f h =
        let normalized = map (quote_of digests.of_projection) ps in
        let of_quotes =
          subst AreUnequal
            (ap (map f) (sym (keys_of_quotes digests sha256 ps)) ∙ map-after f quote_key normalized)
            h in
        subst AreUnequal (sym (map-after f quote_key quotes))
          (AreUnequal-sort_by (λ q. f (quote_key q)) compare_quotes normalized of_quotes)

    decided :
        {ds : List MarketplaceEligibilityDecision}
        → All IsReferable ds
        → map decision_key ds ≡ map quote_key quotes
        → AreDecided quotes ds
    decided referable in_order = record {
      valid_quotes = valid_quotes;
      referable = referable;
      in_order = in_order;
      limit = omega (
        arith,
        length-sort_by compare_quotes (map (quote_of digests.of_projection) ps),
        length-map (quote_of digests.of_projection) ps,
      );
      candidates = unequal_quotes CandidateReference.candidate candidates;
      quote_ids = unequal_quotes CandidateReference.quote_id quote_ids;
    }

    pub evaluate_projections-eq-ok :
        (r : MarketplaceEvaluationResult) × (evaluate_projections digests m t ps ≡ ok r)
        × (r.quotes ≡ sort_by compare_quotes (map (quote_of digests.of_projection) ps))
        × AreAnswered m t r.quotes r.decisions
        × IsRanking 0 r.receipt.body.ranking
        × (length r.receipt.body.ranking ≡ r.receipt.body.summary.eligible)
    unfolding evaluate_projections receipt_body
    evaluate_projections-eq-ok =
        let (ds, returned, referable, in_order, answered) = decide-All quotes valid_quotes in
        let built =
          build_receipt-eq-ok digests sha256 m t quotes ds (decided referable in_order)
            valid_mandate valid_time in
        (
          record {
            mandate = m;
            quotes = quotes;
            decisions = ds;
            receipt = receipt_of digests (receipt_body digests m quotes ds t);
          },
          rw (normalized-All digests sha256 ps valid, returned, built) refl,
          refl,
          answered,
          ranking_of-IsRanking ds,
          length-ranking_of ds (IsConsistent-All ds referable),
        )
