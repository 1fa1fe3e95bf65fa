-- ===== src/Core/Evaluate/Whole.antt =====
-- `evaluateMarketplace`, from its checks of the input to its result.
use mandate_x.Base.{
  ℕ, ◌≤◌, ◌≡◌, refl, ap, sym, ◌∙◌, subst, str_eq, true, List, [], ◌∷◌, map, All, length, length-map,
  includes, some, none, nat_eq, ok, arith,
}
use mandate_x.Base.Sort.{sort_by}
use mandate_x.Base.Sets.{AreUnequal}
use mandate_x.Core.Primitives.{unix_seconds_schema}
use mandate_x.Core.Mandate.{MarketplaceMandate, marketplace_mandate_schema}
use mandate_x.Core.QuoteSchema.{display_safe_quote_projection_schema}
use mandate_x.Core.Normalize.{quote_of}
use mandate_x.Core.Candidates.{
  CandidateReference, candidate_id_eq, inspect_candidate_set, validate_candidate_set,
  read_core_clock, validate_evaluation_time, compare_quotes,
}
use mandate_x.Core.Candidates.Unique.{inspect_candidate_set-eq-none}
use mandate_x.Core.Receipt.{Digests}
use mandate_x.Core.Receipt.Counts.{IsRanking}
use mandate_x.Core.Receipt.Total.{IsSha256}
use mandate_x.Core.Evaluate.{
  MarketplaceEvaluationResult, CapturedProjection, captured_key, projection_key,
  parse_evaluation_mandate, assert_captured, validate_captured_candidate_set, evaluate_projections,
  evaluate_marketplace,
}
use mandate_x.Core.Evaluate.Total.{AreAnswered, evaluate_projections-eq-ok}

clock_returns : (t : ℕ) → unix_seconds_schema t ≡ true → read_core_clock (some t) ≡ ok t
unfolding read_core_clock
clock_returns t h = ground arith

time_passes :
    (m : MarketplaceMandate) (t : ℕ)
    → unix_seconds_schema t ≡ true
    → m.created_at ≤ t
    → validate_evaluation_time m t ≡ ok tt
unfolding validate_evaluation_time
time_passes m t h k = ground arith

All-captured :
    (captured : List ℕ) (cs : List CapturedProjection)
    → All (λ (c : CapturedProjection). includes c.identity captured ≡ true) cs
    → assert_captured captured cs ≡ ok tt
unfolding assert_captured
All-captured captured [] h = refl
All-captured captured (c ∷ cs) h = rw (h.0, All-captured captured cs h.1) refl

set_passes :
    (ks : List CandidateReference)
    → inspect_candidate_set ks ≡ none
    → validate_candidate_set ks ≡ ok tt
unfolding validate_candidate_set
set_passes ks h = rw (validate_candidate_set, h) refl

candidates_pass :
    (captured : List ℕ) (cs : List CapturedProjection)
    → All (λ (c : CapturedProjection). includes c.identity captured ≡ true) cs
    → inspect_candidate_set (map captured_key cs) ≡ none
    → validate_captured_candidate_set captured cs ≡ ok tt
unfolding validate_captured_candidate_set
candidates_pass captured cs h k =
    rw (All-captured captured cs h) (set_passes (map captured_key cs) k)

keys_of_captured :
    (cs : List CapturedProjection)
    → map projection_key (map CapturedProjection.projection cs) ≡ map captured_key cs
keys_of_captured [] = refl
keys_of_captured (c ∷ cs) = ap (λ l. captured_key c ∷ l) (keys_of_captured cs)

few_projections :
    (cs : List CapturedProjection)
    → length (map captured_key cs) ≤ 8
    → length (map CapturedProjection.projection cs) ≤ 8
few_projections cs h =
    omega (arith, length-map captured_key cs, length-map CapturedProjection.projection cs)

module _ (digests : Digests) (sha256 : IsSha256 digests) where
  checks_pass :
      (captured : List ℕ) (m : MarketplaceMandate) (t : ℕ) (cs : List CapturedProjection)
      → marketplace_mandate_schema m ≡ true
      → unix_seconds_schema t ≡ true
      → m.created_at ≤ t
      → All (λ (c : CapturedProjection). includes c.identity captured ≡ true) cs
      → inspect_candidate_set (map captured_key cs) ≡ none
      → evaluate_marketplace digests captured (some t) m cs
        ≡ evaluate_projections digests m t (map CapturedProjection.projection cs)
  unfolding evaluate_marketplace parse_evaluation_mandate
  checks_pass captured m t cs a b c d e =
      rw (a, clock_returns t b, time_passes m t b c, candidates_pass captured cs d e) refl

  -- Where every digest is a SHA-256 text, the mandate and all projections pass their schemas, the
  -- clock returns a time of the schema that is not before the mandate, every candidate was
  -- captured and the inspection of the candidate set finds nothing, an evaluation returns a
  -- result. Its quotes are the normalized projections in canonical order, it has one decision on
  -- each quote, in that order, that is eligible exactly where the mandate permits the quote, the
  -- ranks of its receipt count up from one with no total below a later one, and as many candidates
  -- are ranked as are counted eligible.
  pub evaluate_marketplace-eq-ok :
      (captured : List ℕ) (m : MarketplaceMandate) (t : ℕ) (cs : List CapturedProjection)
      → marketplace_mandate_schema m ≡ true
      → unix_seconds_schema t ≡ true
      → m.created_at ≤ t
      → All (λ (c : CapturedProjection). includes c.identity captured ≡ true) cs
      → inspect_candidate_set (map captured_key cs) ≡ none
      → All
          (λ p. display_safe_quote_projection_schema p ≡ true)
          (map CapturedProjection.projection cs)
      → (r : MarketplaceEvaluationResult) × (evaluate_marketplace digests captured (some t) m cs
          ≡ ok r)
        × (r.quotes
            ≡ sort_by compare_quotes
                (map (quote_of digests.of_projection) (map CapturedProjection.projection cs)))
        × AreAnswered m t r.quotes r.decisions
        × IsRanking 0 r.receipt.body.ranking
        × (length r.receipt.body.ranking ≡ r.receipt.body.summary.eligible)
  evaluate_marketplace-eq-ok captured m t cs a b c d e valid =
      let ps = map CapturedProjection.projection cs in
      let (few, candidates, quote_ids) =
        (inspect_candidate_set-eq-none (map captured_key cs)).0 e in
      let keys = sym (keys_of_captured cs) in
      let (r, returned, quotes, answered, ranking, counted) =
        evaluate_projections-eq-ok digests sha256 m t a b ps valid (few_projections cs few)
          (subst (λ ks. AreUnequal (map CandidateReference.candidate ks)) keys candidates)
          (subst (λ ks. AreUnequal (map CandidateReference.quote_id ks)) keys quote_ids) in
      (r, checks_pass captured m t cs a b c d e ∙ returned, quotes, answered, ranking, counted)
