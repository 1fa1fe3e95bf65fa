-- ===== src/Core/Receipt/Built.antt =====
-- `buildReceipt` returns: the receipt that it builds satisfies the schema that parses it.
use mandate_x.Base.{
  ℕ, ◌≤◌, ◌≡◌, refl, ap, sym, ◌∙◌, subst, true, List, [], ◌∷◌, map, All, includes, every, arith,
  length, length-map, Equality, str_eq, nat_eq, ok,
}
use mandate_x.Base.Sort.{sort_by, length-sort_by}
use mandate_x.Base.Sets.{AreUnequal}
use mandate_x.Core.Primitives.{unix_seconds_schema}
use mandate_x.Core.Texts.{canonical_identifier_schema}
use mandate_x.Core.CategoryPolicy.{category_policies}
use mandate_x.Core.Mandate.{MarketplaceMandate, marketplace_mandate_schema, mandate_fields_schema}
use mandate_x.Core.Quote.{MarketplaceQuote}
use mandate_x.Core.QuoteSchema.{candidate_schema, marketplace_quote_schema, quote_fields_schema}
use mandate_x.Core.Decision.{
  MarketplaceEligibilityDecision, eligible, excluded, inconclusive, unsupported,
}
use mandate_x.Core.Candidates.{CandidateReference, candidate_id_eq}
use mandate_x.Core.Receipt.{
  Digests, ReceiptBody, scored_decisions, compare_scored, ranking_of, summary_of, has_outcome,
  quote_reference, decision_reference, receipt_body,
}
use mandate_x.Core.Receipt.Schema.{
  artifact_key, ranked_key, has_unique_references, reference_eq, reference_beq_iff,
  has_contiguous_ranks, adapter_refinement, summary_refinement, reference_refinement,
  receipt_fields_schema, artifact_reference_schema, ranked_candidate_schema,
  marketplace_receipt_schema, build_receipt, receipt_of, summary_schema,
}
use mandate_x.Core.Receipt.Counts.{
  IsConsistent, summary_of-sum, length-ranking_of, length-with_ranks,
}
use mandate_x.Core.Receipt.Unique.{decision_key, All-ranking_of, AreUnequal-ranking_of}
use mandate_x.Core.Receipt.Total.{
  IsSha256, IsReferable, unique_of, same_refl, contiguous, adapter_refl, ranking_entries,
  every_of_All, length-keep, length-scored,
}

abbrev pub quote_key : MarketplaceQuote → CandidateReference
quote_key q = record { quote_id = q.quote_id; candidate = q.candidate.id }

-- What the evaluation hands to `buildReceipt`: quotes that pass their schema, at most eight, of
-- unequal candidates and quote ids, and one decision on each, in their order.
pub record AreDecided (qs : List MarketplaceQuote) (ds : List MarketplaceEligibilityDecision)
    : Type 0 where
  pub valid_quotes : All (λ q. marketplace_quote_schema q ≡ true) qs
  pub referable : All IsReferable ds
  pub in_order : map decision_key ds ≡ map quote_key qs
  pub limit : length qs ≤ 8
  pub candidates : AreUnequal (map CandidateReference.candidate (map quote_key qs))
  pub quote_ids : AreUnequal (map CandidateReference.quote_id (map quote_key qs))

pub map-after {ℓ κ μ} :
    {A : Type ℓ} {B : Type κ} {C : Type μ} (f : B → C) (g : A → B) (l : List A)
    → map f (map g l) ≡ map (λ a. f (g a)) l
map-after f g [] = refl
map-after f g (x ∷ xs) = ap (λ l. f (g x) ∷ l) (map-after f g xs)

includes_cons :
    (a : CandidateReference) (keys more : List CandidateReference)
    → All (λ k. includes k keys ≡ true) more
    → All (λ k. includes k (a ∷ keys) ≡ true) more
includes_cons a keys [] h = tt
includes_cons a keys (k ∷ more) h = (ground arith, includes_cons a keys more h.1)

includes_self : (keys : List CandidateReference) → All (λ k. includes k keys ≡ true) keys
includes_self [] = tt
includes_self (k ∷ keys) =
    (ground (arith, reference_beq_iff k k), includes_cons k keys keys (includes_self keys))

quote_entry :
    (q : MarketplaceQuote)
    → marketplace_quote_schema q ≡ true
    → (canonical_identifier_schema q.quote_id ≡ true) × (candidate_schema q.candidate ≡ true)
unfolding marketplace_quote_schema quote_fields_schema
quote_entry q h = ground arith

pub IsConsistent-All :
    (ds : List MarketplaceEligibilityDecision) → All IsReferable ds → All IsConsistent ds
IsConsistent-All [] h = tt
IsConsistent-All (d ∷ ds) h = let first = h.0 in (first.consistent, IsConsistent-All ds h.1)

summary_in_range :
    (ds : List MarketplaceEligibilityDecision)
    → length ds ≤ 8
    → summary_schema (summary_of ds) ≡ true
unfolding summary_of
summary_in_range ds h = ground (
  arith,
  length-keep (has_outcome eligible) ds,
  length-keep (has_outcome excluded) ds,
  length-keep (has_outcome inconclusive) ds,
  length-keep (has_outcome unsupported) ds,
)

mandate_id_valid :
    (m : MarketplaceMandate)
    → marketplace_mandate_schema m ≡ true
    → canonical_identifier_schema m.mandate_id ≡ true
unfolding marketplace_mandate_schema mandate_fields_schema
mandate_id_valid m h = ground arith

length-ranking-le : (ds : List MarketplaceEligibilityDecision) → length (ranking_of ds) ≤ length ds
unfolding ranking_of
length-ranking-le ds = omega (
  arith,
  length-with_ranks 0 (sort_by compare_scored (scored_decisions ds)),
  length-sort_by compare_scored (scored_decisions ds),
  length-scored ds,
)

module _ (digests : Digests) (sha256 : IsSha256 digests) where
  quote_references :
      (qs : List MarketplaceQuote)
      → All (λ q. marketplace_quote_schema q ≡ true) qs
      → every artifact_reference_schema (map (quote_reference digests) qs) ≡ true
  quote_references [] h = refl
  quote_references (q ∷ qs) h =
      ground (arith, quote_entry q h.0, sha256.of_quote q, quote_references qs h.1)

  decision_references :
      (ds : List MarketplaceEligibilityDecision)
      → All IsReferable ds
      → every artifact_reference_schema (map (decision_reference digests) ds) ≡ true
  decision_references [] h = refl
  decision_references (d ∷ ds) h =
      let first = h.0 in
      let a = first.quote_id in
      let b = first.candidate in
      ground (arith, a, b, sha256.of_decision d, decision_references ds h.1)

  quote_keys :
      (qs : List MarketplaceQuote)
      → map artifact_key (map (quote_reference digests) qs) ≡ map quote_key qs
  quote_keys [] = refl
  quote_keys (q ∷ qs) = ap (λ l. quote_key q ∷ l) (quote_keys qs)

  decision_keys :
      (ds : List MarketplaceEligibilityDecision)
      → map artifact_key (map (decision_reference digests) ds) ≡ map decision_key ds
  decision_keys [] = refl
  decision_keys (d ∷ ds) = ap (λ l. decision_key d ∷ l) (decision_keys ds)

  module _ (m : MarketplaceMandate) (t : ℕ) (qs : List MarketplaceQuote)
      (ds : List MarketplaceEligibilityDecision) (decided : AreDecided qs ds) where
    same_length : length ds ≡ length qs
    same_length =
        let order = decided.in_order in
        sym (length-map decision_key ds) ∙ ap length order ∙ length-map quote_key qs

    -- A field of the keys, unequal in the quotes, is unequal in the ranking.
    ranking_unequal {ℓ} :
        {A : Type ℓ} ⦃e : Equality A⦄ (f : CandidateReference → A)
        → AreUnequal (map f (map quote_key qs))
        → AreUnequal (map f (map ranked_key (ranking_of ds)))
    ranking_unequal f h =
        let order = decided.in_order in
        let in_decisions =
          subst AreUnequal (ap (map f) (sym order) ∙ map-after f decision_key ds) h in
        subst AreUnequal (sym (map-after f ranked_key (ranking_of ds)))
          (AreUnequal-ranking_of f ds in_decisions)

    ranking_unique : has_unique_references (map ranked_key (ranking_of ds)) ≡ true
    ranking_unique =
        unique_of (map ranked_key (ranking_of ds))
          (ranking_unequal CandidateReference.candidate decided.candidates)
          (ranking_unequal CandidateReference.quote_id decided.quote_ids)

    ranking_known :
        every (λ k. includes k (map quote_key qs)) (map ranked_key (ranking_of ds)) ≡ true
    ranking_known =
        let order = decided.in_order in
        let known : CandidateReference → Type 0 = λ k. includes k (map quote_key qs) ≡ true in
        every_of_All (λ k. includes k (map quote_key qs)) (map ranked_key (ranking_of ds))
          (All-ranking_of known ds
            (subst (All known) (sym order) (includes_self (map quote_key qs))))

    abbrev body : ReceiptBody
    body = receipt_body digests m qs ds t

    references_hold : reference_refinement body ≡ true
    unfolding reference_refinement receipt_body
    references_hold =
        let order = decided.in_order in
        let unique = unique_of (map quote_key qs) decided.candidates decided.quote_ids in
        rw
          (
            quote_keys qs,
            decision_keys ds,
            order,
            unique,
            ranking_unique,
            same_refl (map quote_key qs),
            ranking_known,
          )
          refl

    summary_count : (summary_of ds).candidates ≡ length ds
    unfolding summary_of
    summary_count = refl

    summary_holds : summary_refinement body ≡ true
    unfolding summary_refinement receipt_body
    summary_holds =
        let consistent = IsConsistent-All ds decided.referable in
        ground (
          arith,
          same_length,
          length-map (quote_reference digests) qs,
          length-map (decision_reference digests) ds,
          summary_count,
          summary_of-sum ds,
          length-ranking_of ds consistent,
        )

    ranks_hold : has_contiguous_ranks 0 body.ranking ≡ true
    unfolding receipt_body ranking_of
    ranks_hold = contiguous 0 (sort_by compare_scored (scored_decisions ds))

    adapter_holds : adapter_refinement (category_policies body.category) body.adapter ≡ true
    unfolding receipt_body
    adapter_holds = adapter_refl (category_policies m.category)

    fields_hold :
        marketplace_mandate_schema m ≡ true
        → unix_seconds_schema t ≡ true
        → receipt_fields_schema (receipt_of digests body) ≡ true
    unfolding receipt_fields_schema receipt_body
    fields_hold h k =
        let limit = decided.limit in
        let referable = decided.referable in
        let few : length ds ≤ 8 = omega (arith, same_length) in
        ground (
          arith,
          sha256.of_receipt_body body,
          sha256.of_mandate m,
          sha256.of_quotes qs,
          sha256.of_decisions ds,
          sha256.of_ranking (ranking_of ds),
          mandate_id_valid m h,
          length-map (quote_reference digests) qs,
          length-map (decision_reference digests) ds,
          quote_references qs decided.valid_quotes,
          decision_references ds referable,
          length-ranking-le ds,
          every_of_All ranked_candidate_schema (ranking_of ds) (ranking_entries ds few referable),
          summary_in_range ds few,
        )

    schema_holds :
        marketplace_mandate_schema m ≡ true
        → unix_seconds_schema t ≡ true
        → marketplace_receipt_schema (receipt_of digests body) ≡ true
    unfolding marketplace_receipt_schema
    schema_holds h k =
        ground (arith, fields_hold h k, references_hold, summary_holds, ranks_hold, adapter_holds)

    -- Where every digest is a SHA-256 text, the mandate passes its schema and the time does, and
    -- there are at most eight valid quotes of unequal candidates and quote ids with one referable
    -- decision on each, in their order, `buildReceipt` returns the receipt that it builds: no
    -- check of the receipt schema refuses it.
    pub build_receipt-eq-ok :
        marketplace_mandate_schema m ≡ true
        → unix_seconds_schema t ≡ true
        → build_receipt digests m qs ds t ≡ ok (receipt_of digests body)
    unfolding build_receipt
    build_receipt-eq-ok h k = rw (schema_holds h k) refl
