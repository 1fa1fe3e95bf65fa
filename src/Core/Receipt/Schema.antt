-- ===== src/Core/Receipt/Schema.antt =====
-- tools/marketplace-core/src/schemas.ts: `marketplaceReceiptSchema`, and `buildReceipt`, which parses by it.
use mandate_x.Base.{
  ℕ, suc, ◌+◌, Bool, true, false, ◌&&◌, List, [], ◌∷◌, map, length, every, includes, eqb, leb,
  if◌then◌else◌, Equality, str_eq, nat_eq, ◌==◌, ◌≡◌, ◌↔◌, arith, Result, ok, err, str_beq_iff,
}
use mandate_x.Base.Sets.{set_size}
use mandate_x.Core.Primitives.{candidate_id_beq, unix_seconds_schema}
use mandate_x.Core.Texts.{canonical_identifier_schema, sha256_schema}
use mandate_x.Core.CategoryPolicy.{ReceiptAdapter, supported, category_policies}
use mandate_x.Core.Errors.{CoreError, zod_error}
use mandate_x.Core.Mandate.{MarketplaceMandate}
use mandate_x.Core.Quote.{MarketplaceQuote}
use mandate_x.Core.QuoteSchema.{candidate_schema, unsupported_beq}
use mandate_x.Core.Ranking.{ranking_score_schema}
use mandate_x.Core.Decision.{MarketplaceEligibilityDecision}
use mandate_x.Core.Candidates.{CandidateReference, candidate_id_eq}
use mandate_x.Core.Receipt.{
  ArtifactReference, RankedCandidate, Summary, Commitments, ReceiptBody, MarketplaceReceipt,
  Digests, receipt_body,
}

-- `referenceKey`: the texts are equal when all three parts are.
abbrev pub reference_beq : CandidateReference → CandidateReference → Bool
reference_beq a b = candidate_id_beq a.candidate b.candidate && a.quote_id == b.quote_id

pub reference_beq_iff : (a b : CandidateReference) → (reference_beq a b ≡ true) ↔ (a ≡ b)
reference_beq_iff a b = ground (arith, str_beq_iff a.quote_id b.quote_id)

instance abbrev pub reference_eq : Equality CandidateReference
reference_eq = record { same = reference_beq; same_iff = reference_beq_iff }

abbrev pub artifact_key : ArtifactReference → CandidateReference
artifact_key r = record { quote_id = r.quote_id; candidate = r.candidate.id }

abbrev pub ranked_key : RankedCandidate → CandidateReference
ranked_key r = record { quote_id = r.quote_id; candidate = r.candidate.id }

abbrev pub artifact_reference_schema : ArtifactReference → Bool
artifact_reference_schema r =
    canonical_identifier_schema r.quote_id && candidate_schema r.candidate && sha256_schema r.sha256

abbrev pub ranked_candidate_schema : RankedCandidate → Bool
ranked_candidate_schema r =
    leb 1 r.rank
    && leb r.rank 8
    && canonical_identifier_schema r.quote_id
    && candidate_schema r.candidate
    && ranking_score_schema r.score

abbrev pub summary_schema : Summary → Bool
summary_schema s =
    leb s.candidates 8
    && leb s.eligible 8
    && leb s.excluded 8
    && leb s.inconclusive 8
    && leb s.unsupported 8

abbrev pub receipt_commitments_schema : Commitments → Bool
receipt_commitments_schema c =
    sha256_schema c.mandate_sha256
    && sha256_schema c.quotes_sha256
    && sha256_schema c.decisions_sha256
    && sha256_schema c.ranking_sha256

unfoldable pub receipt_fields_schema : MarketplaceReceipt → Bool
receipt_fields_schema r =
    sha256_schema r.receipt_id
    && unix_seconds_schema r.body.evaluated_at
    && canonical_identifier_schema r.body.mandate_id
    && receipt_commitments_schema r.body.commitments
    && leb (length r.body.quotes) 8
    && every artifact_reference_schema r.body.quotes
    && leb (length r.body.decisions) 8
    && every artifact_reference_schema r.body.decisions
    && leb (length r.body.ranking) 8
    && every ranked_candidate_schema r.body.ranking
    && summary_schema r.body.summary

-- `assertUniqueReferences`
unfoldable pub has_unique_references : List CandidateReference → Bool
has_unique_references references =
    let candidate_keys = map CandidateReference.candidate references in
    let quote_ids = map CandidateReference.quote_id references in
    eqb (set_size candidate_keys) (length candidate_keys)
    && eqb (set_size quote_ids) (length quote_ids)

-- As many keys, and each the one at its index.
abbrev pub are_same_references : List CandidateReference → List CandidateReference → Bool
are_same_references [] [] = true
are_same_references (a ∷ more) (b ∷ others) = a == b && are_same_references more others
are_same_references _ _ = false

abbrev pub has_contiguous_ranks : ℕ → List RankedCandidate → Bool
has_contiguous_ranks index [] = true
has_contiguous_ranks index (r ∷ rs) = eqb r.rank (index + 1) && has_contiguous_ranks (suc index) rs

unfoldable pub adapter_refinement : ReceiptAdapter → ReceiptAdapter → Bool
adapter_refinement (ReceiptAdapter.unsupported expected) (ReceiptAdapter.unsupported code) =
    unsupported_beq code expected
adapter_refinement supported supported = true
adapter_refinement _ _ = false

unfoldable pub summary_refinement : ReceiptBody → Bool
summary_refinement b =
    eqb b.summary.candidates (length b.quotes)
    && eqb (length b.quotes) (length b.decisions)
    && eqb
        (b.summary.eligible + b.summary.excluded + b.summary.inconclusive + b.summary.unsupported)
        b.summary.candidates
    && eqb (length b.ranking) b.summary.eligible

unfoldable pub reference_refinement : ReceiptBody → Bool
reference_refinement b =
    let quote_keys = map artifact_key b.quotes in
    let decision_keys = map artifact_key b.decisions in
    let ranking_keys = map ranked_key b.ranking in
    has_unique_references quote_keys
    && has_unique_references decision_keys
    && has_unique_references ranking_keys
    && are_same_references quote_keys decision_keys
    && every (λ k. includes k quote_keys) ranking_keys

unfoldable pub marketplace_receipt_schema : MarketplaceReceipt → Bool
marketplace_receipt_schema r =
    receipt_fields_schema r
    && reference_refinement r.body
    && summary_refinement r.body
    && has_contiguous_ranks 0 r.body.ranking
    && adapter_refinement (category_policies r.body.category) r.body.adapter

module _ (digests : Digests) where
  abbrev pub receipt_of : ReceiptBody → MarketplaceReceipt
  receipt_of body = record { receipt_id = digests.of_receipt_body body; body = body }

  unfoldable pub build_receipt :
      MarketplaceMandate
      → List MarketplaceQuote
      → List MarketplaceEligibilityDecision
      → ℕ
      → Result CoreError MarketplaceReceipt
  build_receipt m quotes decisions evaluated_at =
      let receipt = receipt_of (receipt_body digests m quotes decisions evaluated_at) in
      if marketplace_receipt_schema receipt then ok receipt else err zod_error
