-- ===== src/Core/Consistency/RoundTrip.antt =====
-- tools/marketplace-core/src/evaluate.ts: the consistency of what an evaluation returns.
use mandate_x.Base.{
  ℕ, ◌≤◌, ◌≡◌, refl, ap, ap₂, sym, ◌∙◌, subst, Bool, true, false, List, [], ◌∷◌, map, All, length,
  length-map, Option, none, Bool-cases, inl, inr, if◌then◌else◌, Str, str_eq, str_beq_iff, ◌!=◌,
  Result, ok, err, ◌>>=◌, >>=-eq-ok, ok-injective, traverse, for_each, not, refuse_if, ltb, eqb,
  ◌||◌, arith,
}
use mandate_x.Base.Sort.{
  sort_by, All-sort_by, length-sort_by, sort_by-IsSorted, sort_by_of_IsSorted,
}
use mandate_x.Base.Sets.{AreUnequal}
use mandate_x.Base.Pairwise.{AreUnequal-sort_by}
use mandate_x.Core.Errors.{
  CoreError, core_error, integrity_quotes_invalid, integrity_decisions_invalid,
}
use mandate_x.Core.Mandate.{MarketplaceMandate, marketplace_mandate_schema}
use mandate_x.Core.Quote.{MarketplaceQuote, QuoteNormalization, DisplaySafeQuoteProjection}
use mandate_x.Core.QuoteSchema.{marketplace_quote_schema}
use mandate_x.Core.Normalize.{quote_of, normalize_display_safe_quote_projection}
use mandate_x.Core.Decision.{
  MarketplaceEligibilityDecision, EligibilityOutcome, marketplace_eligibility_decision_schema,
  parse_decision,
}
use mandate_x.Core.Ranking.{RankingScore}
use mandate_x.Core.Decide.{
  decide, decide_by_normalization, decide_supported, decision_of, score_if_eligible, outcome_of,
}
use mandate_x.Core.Findings.{Finding}
use mandate_x.Core.Findings
use mandate_x.Core.Codes
use mandate_x.Core.Primitives.{category_eq, max_candidates}
use mandate_x.Core.Rebalancing.{rebalancing_findings}
use mandate_x.Core.Candidates.{
  CandidateReference, candidate_id_eq, inspect_candidate_set, validate_evaluation_time,
  compare_quotes, compare_quotes-IsComparator,
}
use mandate_x.Core.Candidates.Unique.{inspect_candidate_set-eq-none}
use mandate_x.Core.Receipt.{MarketplaceReceipt, Digests, receipt_body}
use mandate_x.Core.Receipt.Schema.{marketplace_receipt_schema, build_receipt}
use mandate_x.Core.Receipt.Unique.{decision_key}
use mandate_x.Core.Receipt.Built.{quote_key, map-after}
use mandate_x.Core.Evaluate.{MarketplaceEvaluationResult, projection_key, evaluate_projections}
use mandate_x.Core.Consistency.{
  CanonicalTexts, assert_integrity_uniqueness, parse_artifacts, recompute,
  verify_evaluation_consistency,
}

-- What a parse that returns says.
chosen_lem {ℓ} :
    {A : Type ℓ} (b : Bool) (thrown : CoreError) (x y : A)
    → (if b then ok x else err thrown) ≡ ok y
    → (b ≡ true) × (y ≡ x)
chosen_lem b thrown x y h = ground arith

normalized_lem :
    (f : DisplaySafeQuoteProjection → Str) (p : DisplaySafeQuoteProjection) (q : MarketplaceQuote)
    → normalize_display_safe_quote_projection f p ≡ ok q
    → (marketplace_quote_schema q ≡ true) × (quote_key q ≡ projection_key p)
unfolding normalize_display_safe_quote_projection quote_of
normalized_lem f p q h = let c = chosen_lem _ _ _ q h in (rw c.1 c.0, rw c.1 refl)

-- A decision that passes its schema and is on the quote.
abbrev IsDecisionOn : MarketplaceQuote → MarketplaceEligibilityDecision → Type 0
IsDecisionOn q d =
    (marketplace_eligibility_decision_schema d ≡ true) × (decision_key d ≡ quote_key q)

module _ (f : MarketplaceQuote → Str) (m : MarketplaceMandate) (q : MarketplaceQuote) (t : ℕ) where
  parsed_lem :
      (outcome : EligibilityOutcome) (fs : List Finding) (score : Option RankingScore)
      (d : MarketplaceEligibilityDecision)
      → parse_decision (decision_of f m q t outcome fs score) ≡ ok d
      → IsDecisionOn q d
  unfolding parse_decision
  parsed_lem outcome fs score d h = let c = chosen_lem _ _ _ d h in (rw c.1 c.0, rw c.1 refl)

  supported_lem :
      (d : MarketplaceEligibilityDecision) → decide_supported f m q t ≡ ok d → IsDecisionOn q d
  unfolding decide_supported
  supported_lem d h =
      let fs = rebalancing_findings m q t in
      let s =
        >>=-eq-ok (score_if_eligible f m q t (outcome_of fs))
          (λ score. parse_decision (decision_of f m q t (outcome_of fs) fs score)) d h in
      parsed_lem (outcome_of fs) fs s.0 d s.1.1

  by_normalization_lem :
      (n : QuoteNormalization) (d : MarketplaceEligibilityDecision)
      → decide_by_normalization f m q t n ≡ ok d
      → IsDecisionOn q d
  unfolding decide_by_normalization
  by_normalization_lem (QuoteNormalization.unsupported code) d h =
      parsed_lem EligibilityOutcome.unsupported (Findings.unsupported code ∷ []) none d h
  by_normalization_lem (QuoteNormalization.inconclusive code) d h = supported_lem d h
  by_normalization_lem QuoteNormalization.normalized d h = supported_lem d h

  decided_lem : (d : MarketplaceEligibilityDecision) → decide f m q t ≡ ok d → IsDecisionOn q d
  unfolding decide
  decided_lem d h = elim (Bool-cases (q.category != m.category)) [
    | inl e ↦
        parsed_lem EligibilityOutcome.excluded
          (Findings.exclusion Codes.mandate_category_mismatch ∷ []) none d (ground arith)
    | inr e ↦ by_normalization_lem q.normalization d (ground arith)
  ]

-- What a traversal returns, element by element.
traverse-All {ℓ κ} :
    {A : Type ℓ} {B : Type κ} (f : A → Result CoreError B) (P : B → Type 0)
    (k : A → CandidateReference) (l : B → CandidateReference)
    (step : (a : A) (b : B) → f a ≡ ok b → P b × (l b ≡ k a)) (xs : List A) (bs : List B)
    → traverse f xs ≡ ok bs
    → All P bs × (map l bs ≡ map k xs)
traverse-All f P k l step [] bs h = let same = ok-injective [] bs h in (rw same tt, rw same refl)
traverse-All f P k l step (a ∷ xs) bs h =
    let first = >>=-eq-ok (f a) (λ y. traverse f xs >>= λ ys. ok (y ∷ ys)) bs h in
    let rest = >>=-eq-ok (traverse f xs) (λ ys. ok (first.0 ∷ ys)) bs first.1.1 in
    let same = ok-injective (first.0 ∷ rest.0) bs rest.1.1 in
    let one = step a first.0 first.1.0 in
    let more = traverse-All f P k l step xs rest.0 rest.1.0 in
    (rw same (one.0, more.0), rw same (ap₂ ◌∷◌ one.1 more.1))

same_length {ℓ κ} :
    {A : Type ℓ} {B : Type κ} (f : A → CandidateReference) (g : B → CandidateReference)
    (xs : List A) (bs : List B)
    → map f xs ≡ map g bs
    → length xs ≡ length bs
same_length f g xs bs e = sym (length-map f xs) ∙ ap length e ∙ length-map g bs

module _ (digests : Digests) (texts : CanonicalTexts) where
  -- What `evaluate_projections` returned, part by part.
  record Evaluated (m : MarketplaceMandate) (t : ℕ) (ps : List DisplaySafeQuoteProjection)
      (r : MarketplaceEvaluationResult) : Type 0 where
    normalized_quotes : List MarketplaceQuote
    normalized :
        traverse (normalize_display_safe_quote_projection digests.of_projection) ps
        ≡ ok normalized_quotes
    decided :
        traverse (λ q. decide digests.of_quote m q t) (sort_by compare_quotes normalized_quotes)
        ≡ ok r.decisions
    built :
        build_receipt digests m (sort_by compare_quotes normalized_quotes) r.decisions t
        ≡ ok r.receipt
    quotes : r.quotes ≡ sort_by compare_quotes normalized_quotes
    mandate : r.mandate ≡ m

  evaluated_lem :
      (m : MarketplaceMandate) (t : ℕ) (ps : List DisplaySafeQuoteProjection)
      (r : MarketplaceEvaluationResult)
      → evaluate_projections digests m t ps ≡ ok r
      → Evaluated m t ps r
  unfolding evaluate_projections
  evaluated_lem m t ps r h =
      let n =
        >>=-eq-ok (traverse (normalize_display_safe_quote_projection digests.of_projection) ps) _ r
          h in
      let qs = sort_by compare_quotes n.0 in
      let d = >>=-eq-ok (traverse (λ q. decide digests.of_quote m q t) qs) _ r n.1.1 in
      let b = >>=-eq-ok (build_receipt digests m qs d.0 t) _ r d.1.1 in
      let same =
        ok-injective (record { mandate = m; quotes = qs; decisions = d.0; receipt = b.0 }) r
          b.1.1 in
      record {
        normalized_quotes = n.0;
        normalized = n.1.0;
        decided = rw same d.1.0;
        built = rw same b.1.0;
        quotes = ap MarketplaceEvaluationResult.quotes same;
        mandate = ap MarketplaceEvaluationResult.mandate same;
      }

  built_lem :
      (m : MarketplaceMandate) (qs : List MarketplaceQuote)
      (ds : List MarketplaceEligibilityDecision) (t : ℕ) (receipt : MarketplaceReceipt)
      → build_receipt digests m qs ds t ≡ ok receipt
      → (marketplace_receipt_schema receipt ≡ true)
        × (receipt.body.evaluated_at ≡ t)
        × (receipt.body.mandate_id ≡ m.mandate_id)
  unfolding build_receipt receipt_body
  built_lem m qs ds t receipt h =
      let c = chosen_lem _ _ _ receipt h in (rw c.1 c.0, rw c.1 refl, rw c.1 refl)

  same_text : (s : Str) → (s != s) ≡ false
  same_text s = ground (arith, str_beq_iff s s)

  recompute_lem :
      (r : MarketplaceEvaluationResult)
      → sort_by compare_quotes r.quotes ≡ r.quotes
      → traverse (λ q. decide digests.of_quote r.mandate q r.receipt.body.evaluated_at) r.quotes
        ≡ ok r.decisions
      → build_receipt digests r.mandate r.quotes r.decisions r.receipt.body.evaluated_at
        ≡ ok r.receipt
      → recompute digests texts r ≡ ok tt
  unfolding recompute
  recompute_lem r sorted decided built =
      rw
        (
          sorted,
          same_text (texts.of_quotes r.quotes),
          decided,
          same_text (texts.of_decisions r.decisions),
          built,
          same_text (texts.of_receipt r.receipt),
        )
        refl

  unique_lem :
      (l : List CandidateReference)
      → inspect_candidate_set l ≡ none
      → assert_integrity_uniqueness l ≡ ok tt
  unfolding assert_integrity_uniqueness
  unique_lem l h = rw (assert_integrity_uniqueness, h) refl

  pass {ℓ} :
      {A : Type ℓ} (p : A → Bool) (thrown : CoreError) (l : List A)
      → All (λ a. p a ≡ true) l
      → for_each (λ a. refuse_if (not (p a)) thrown) l ≡ ok tt
  pass p thrown [] h = refl
  pass p thrown (a ∷ l) h = rw h.0 (pass p thrown l h.1)

  parse_lem :
      (r : MarketplaceEvaluationResult)
      → marketplace_mandate_schema r.mandate ≡ true
      → length r.quotes ≤ 8
      → length r.quotes ≡ length r.decisions
      → All (λ q. marketplace_quote_schema q ≡ true) r.quotes
      → All (λ d. marketplace_eligibility_decision_schema d ≡ true) r.decisions
      → marketplace_receipt_schema r.receipt ≡ true
      → parse_artifacts r ≡ ok tt
  unfolding parse_artifacts
  parse_lem r a b c d e f =
      let quotes = pass marketplace_quote_schema (core_error integrity_quotes_invalid) r.quotes d in
      let decisions =
        pass marketplace_eligibility_decision_schema (core_error integrity_decisions_invalid)
          r.decisions e in
      let few : (ltb max_candidates (length r.quotes) || ltb max_candidates (length r.decisions))
          ≡ false =
        (ground arith) in
      let same : eqb (length r.quotes) (length r.decisions) ≡ true = (ground arith) in
      rw (a, few, same, quotes, decisions, f) refl

  -- The keys of the quotes are as unequal as those of the projections, whatever their order.
  inspected_lem :
      (ps : List DisplaySafeQuoteProjection) (ns : List MarketplaceQuote)
      → inspect_candidate_set (map projection_key ps) ≡ none
      → map quote_key ns ≡ map projection_key ps
      → (inspect_candidate_set (map quote_key (sort_by compare_quotes ns)) ≡ none)
        × (length (sort_by compare_quotes ns) ≤ 8)
  inspected_lem ps ns unique keys =
      let (few, candidates, quote_ids) =
        (inspect_candidate_set-eq-none (map quote_key ns)).0 (rw keys unique) in
      let qs = sort_by compare_quotes ns in
      let limit : length qs ≤ 8 =
        (omega (arith, length-sort_by compare_quotes ns, length-map quote_key ns)) in
      (
        (inspect_candidate_set-eq-none (map quote_key qs)).1 (
          omega (arith, length-map quote_key qs),
          subst AreUnequal (sym (map-after CandidateReference.candidate quote_key qs)) (
              AreUnequal-sort_by (λ q. (quote_key q).candidate) compare_quotes ns
                (subst AreUnequal (map-after CandidateReference.candidate quote_key ns)
                  candidates)),
          subst AreUnequal (sym (map-after CandidateReference.quote_id quote_key qs)) (
              AreUnequal-sort_by (λ q. (quote_key q).quote_id) compare_quotes ns
                (subst AreUnequal (map-after CandidateReference.quote_id quote_key ns) quote_ids)),
        ),
        limit,
      )

  same_id : (a b : Str) → a ≡ b → (a != b) ≡ false
  same_id a b h = ground (arith, str_beq_iff a b)

  -- Where the mandate passes its schema, the time is one for it and the inspection of the
  -- projections finds nothing, whatever `evaluate_projections` returns passes the consistency
  -- check, for any digests and any canonical texts.
  pub verify_evaluation_consistency-eq-ok :
      (m : MarketplaceMandate) (t : ℕ) (ps : List DisplaySafeQuoteProjection)
      (r : MarketplaceEvaluationResult)
      → marketplace_mandate_schema m ≡ true
      → validate_evaluation_time m t ≡ ok tt
      → inspect_candidate_set (map projection_key ps) ≡ none
      → evaluate_projections digests m t ps ≡ ok r
      → verify_evaluation_consistency digests texts r ≡ ok r
  unfolding verify_evaluation_consistency
  verify_evaluation_consistency-eq-ok m t ps r valid time unique h =
      let e = evaluated_lem m t ps r h in
      let n =
        traverse-All (normalize_display_safe_quote_projection digests.of_projection)
          (λ q. marketplace_quote_schema q ≡ true) projection_key quote_key
          (normalized_lem digests.of_projection) ps e.normalized_quotes e.normalized in
      let qs = sort_by compare_quotes e.normalized_quotes in
      let d =
        traverse-All (λ q. decide digests.of_quote m q t)
          (λ d. marketplace_eligibility_decision_schema d ≡ true) quote_key decision_key
          (λ q d. decided_lem digests.of_quote m q t d) qs r.decisions e.decided in
      let b = built_lem m qs r.decisions t r.receipt e.built in
      let i = inspected_lem ps e.normalized_quotes unique n.1 in
      let counts : length r.quotes ≡ length r.decisions =
        (rw e.quotes (sym (same_length decision_key quote_key r.decisions qs d.1))) in
      let valid_quotes =
        All-sort_by compare_quotes (λ q. marketplace_quote_schema q ≡ true) e.normalized_quotes
          n.0 in
      let parsed =
        parse_lem r (rw e.mandate valid) (rw e.quotes i.1) counts (rw e.quotes valid_quotes) d.0
          b.0 in
      let timely : validate_evaluation_time r.mandate r.receipt.body.evaluated_at ≡ ok tt =
        (rw (e.mandate, b.1) time) in
      let unique_quotes = unique_lem (map quote_key r.quotes) (rw e.quotes i.0) in
      let unique_decisions = unique_lem (map decision_key r.decisions) (rw d.1 i.0) in
      let named = same_id r.receipt.body.mandate_id r.mandate.mandate_id (rw e.mandate b.2) in
      let ordered =
        sort_by_of_IsSorted compare_quotes qs
          (sort_by-IsSorted compare_quotes compare_quotes-IsComparator e.normalized_quotes) in
      let recomputed =
        recompute_lem r (rw e.quotes ordered) (rw (e.quotes, e.mandate, b.1) e.decided) (
          subst (λ u. build_receipt digests r.mandate r.quotes r.decisions u ≡ ok r.receipt)
            (sym b.1) (rw (e.quotes, e.mandate) e.built)) in
      rw (parsed, timely, unique_quotes, unique_decisions, named, recomputed) refl
