-- ===== src/Core/Receipt/Total.antt =====
-- The parts of a receipt, against the parts of the schema.
use mandate_x.Base.{
  ℕ, suc, ◌+◌, ◌≤◌, ◌≡◌, refl, Bool, true, List, [], ◌∷◌, map, All, every, eqb, arith, length, keep,
  str_eq, nat_eq,
}
use mandate_x.Base.Sort.{sort_by, All-sort_by, length-sort_by}
use mandate_x.Base.Sets.{AreUnequal, set_size_of_unequal}
use mandate_x.Core.Texts.{canonical_identifier_schema, sha256_schema}
use mandate_x.Core.CategoryPolicy.{ReceiptAdapter}
use mandate_x.Core.Mandate.{MarketplaceMandate}
use mandate_x.Core.Quote.{MarketplaceQuote, DisplaySafeQuoteProjection}
use mandate_x.Core.QuoteSchema.{candidate_schema}
use mandate_x.Core.Ranking.{ranking_score_schema}
use mandate_x.Core.Decision.{MarketplaceEligibilityDecision, score_schema}
use mandate_x.Core.Candidates.{CandidateReference, candidate_id_eq}
use mandate_x.Core.Receipt.{
  Digests, ReceiptBody, ScoredDecision, RankedCandidate, scored_decision, scored_decisions,
  compare_scored, with_ranks, ranking_of,
}
use mandate_x.Core.Receipt.Schema.{
  has_unique_references, reference_eq, reference_beq_iff, are_same_references, has_contiguous_ranks,
  adapter_refinement, ranked_candidate_schema,
}
use mandate_x.Core.Receipt.Counts.{IsConsistent}

-- A digest is a text of 64 hexadecimal digits.
pub record IsSha256 (digests : Digests) : Type 0 where
  pub of_projection :
      (p : DisplaySafeQuoteProjection) → sha256_schema (digests.of_projection p) ≡ true
  pub of_mandate : (m : MarketplaceMandate) → sha256_schema (digests.of_mandate m) ≡ true
  pub of_quote : (q : MarketplaceQuote) → sha256_schema (digests.of_quote q) ≡ true
  pub of_quotes : (qs : List MarketplaceQuote) → sha256_schema (digests.of_quotes qs) ≡ true
  pub of_decision :
      (d : MarketplaceEligibilityDecision) → sha256_schema (digests.of_decision d) ≡ true
  pub of_decisions :
      (ds : List MarketplaceEligibilityDecision) → sha256_schema (digests.of_decisions ds) ≡ true
  pub of_ranking : (rs : List RankedCandidate) → sha256_schema (digests.of_ranking rs) ≡ true
  pub of_receipt_body : (b : ReceiptBody) → sha256_schema (digests.of_receipt_body b) ≡ true

-- What a decision needs for its place in a receipt.
pub record IsReferable (d : MarketplaceEligibilityDecision) : Type 0 where
  pub quote_id : canonical_identifier_schema d.quote_id ≡ true
  pub candidate : candidate_schema d.candidate ≡ true
  pub score : score_schema d.score ≡ true
  pub consistent : IsConsistent d

pub eqb_of_eq : (a b : ℕ) → a ≡ b → eqb a b ≡ true
eqb_of_eq a b h = ground arith

pub unique_of :
    (keys : List CandidateReference)
    → AreUnequal (map CandidateReference.candidate keys)
    → AreUnequal (map CandidateReference.quote_id keys)
    → has_unique_references keys ≡ true
unfolding has_unique_references
unique_of keys h k =
    rw
      (
        set_size_of_unequal (map CandidateReference.candidate keys) h,
        set_size_of_unequal (map CandidateReference.quote_id keys) k,
      )
      (ground arith)

pub same_refl : (keys : List CandidateReference) → are_same_references keys keys ≡ true
same_refl [] = refl
same_refl (k ∷ keys) = ground (arith, reference_beq_iff k k, same_refl keys)

pub contiguous : (i : ℕ) (l : List ScoredDecision) → has_contiguous_ranks i (with_ranks i l) ≡ true
unfolding with_ranks
contiguous i [] = refl
contiguous i (d ∷ ds) = ground (arith, contiguous (suc i) ds)

pub adapter_refl : (a : ReceiptAdapter) → adapter_refinement a a ≡ true
unfolding adapter_refinement
adapter_refl a = ground arith

module _ {ℓ} {A : Type ℓ} (p : A → Bool) where
  pub every_of_All : (l : List A) → All (λ a. p a ≡ true) l → every p l ≡ true
  every_of_All [] h = refl
  every_of_All (x ∷ xs) h = ground (arith, every_of_All xs h.1)

  pub length-keep : (l : List A) → length (keep p l) ≤ length l
  length-keep [] = omega arith
  length-keep (x ∷ xs) = ground (arith, length-keep xs)

-- A decision that is listed has fields that its schema accepted.
IsEntry : ScoredDecision → Type 0
IsEntry s =
    (canonical_identifier_schema s.quote_id ≡ true)
    × (candidate_schema s.candidate ≡ true)
    × (ranking_score_schema s.score ≡ true)

scored_entries :
    (ds : List MarketplaceEligibilityDecision)
    → All IsReferable ds
    → All IsEntry (scored_decisions ds)
unfolding scored_decisions scored_decision IsEntry
scored_entries [] h = tt
scored_entries (d ∷ ds) h =
    let first = h.0 in
    let a = first.quote_id in
    let b = first.candidate in let c = first.score in ground (arith, a, b, c, scored_entries ds h.1)

ranked_entries :
    (i : ℕ) (l : List ScoredDecision)
    → i + length l ≤ 8
    → All IsEntry l
    → All (λ r. ranked_candidate_schema r ≡ true) (with_ranks i l)
unfolding with_ranks IsEntry
ranked_entries i [] h e = tt
ranked_entries i (d ∷ ds) h e = (ground arith, ranked_entries (suc i) ds (omega arith) e.1)

pub length-scored :
    (ds : List MarketplaceEligibilityDecision) → length (scored_decisions ds) ≤ length ds
unfolding scored_decisions scored_decision
length-scored [] = omega arith
length-scored (d ∷ ds) = ground (arith, length-scored ds)

pub ranking_entries :
    (ds : List MarketplaceEligibilityDecision)
    → length ds ≤ 8
    → All IsReferable ds
    → All (λ r. ranked_candidate_schema r ≡ true) (ranking_of ds)
unfolding ranking_of
ranking_entries ds h e =
    ranked_entries 0 (sort_by compare_scored (scored_decisions ds))
      (omega (arith, length-sort_by compare_scored (scored_decisions ds), length-scored ds))
      (All-sort_by compare_scored IsEntry (scored_decisions ds) (scored_entries ds e))
