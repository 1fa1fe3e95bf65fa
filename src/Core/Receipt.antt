-- ===== src/Core/Receipt.antt =====
-- tools/marketplace-core/src/schemas.ts and evaluate.ts: the receipt of an evaluation.
pub mod Counts
pub mod Schema
pub mod Unique
pub mod Total
pub mod Built
use mandate_x.Base.{
  ℕ, suc, ◌+◌, Bool, true, false, not, ◌&&◌, ◌||◌, List, [], ◌∷◌, ◌++◌, map, Option, none, some,
  Ordering, Str, length, keep, any, every, includes, eqb, leb, compare, if◌then◌else◌, Equality,
  str_eq, nat_eq, ◌==◌, ◌≡◌, ◌↔◌, arith, Result, ok, err,
}
use mandate_x.Base.Order.{or_else}
use mandate_x.Base.Sort.{sort_by}
use mandate_x.Base.Sets.{set_size}
use mandate_x.Core.Primitives.{
  MarketplaceCategory, CandidateKey, unix_seconds_schema, compare_candidate_keys,
  compare_canonical_strings,
}
use mandate_x.Core.Texts.{canonical_identifier_schema, sha256_schema}
use mandate_x.Core.CategoryPolicy.{ReceiptAdapter, supported, category_policies}
use mandate_x.Core.CategoryPolicy
use mandate_x.Core.Errors.{CoreError, zod_error}
use mandate_x.Core.Mandate.{MarketplaceMandate}
use mandate_x.Core.Quote.{MarketplaceQuote, MarketplaceCandidate, DisplaySafeQuoteProjection}
use mandate_x.Core.QuoteSchema.{candidate_schema, unsupported_beq}
use mandate_x.Core.Ranking.{RankingScore, ranking_score_schema}
use mandate_x.Core.Decision.{
  MarketplaceEligibilityDecision, EligibilityOutcome, eligible, excluded, inconclusive, unsupported,
  outcome_beq,
}
use mandate_x.Core.Candidates.{CandidateReference, candidate_id_eq}

pub record ArtifactReference : Type 0 where
  pub quote_id : Str
  pub candidate : MarketplaceCandidate
  pub sha256 : Str

-- A decision with its score, which `filter` has found.
pub record ScoredDecision : Type 0 where
  pub quote_id : Str
  pub candidate : MarketplaceCandidate
  pub score : RankingScore

pub record RankedCandidate : Type 0 where
  pub rank : ℕ
  pub quote_id : Str
  pub candidate : MarketplaceCandidate
  pub score : RankingScore

pub record Summary : Type 0 where
  pub candidates : ℕ
  pub eligible : ℕ
  pub excluded : ℕ
  pub inconclusive : ℕ
  pub unsupported : ℕ

pub record Commitments : Type 0 where
  pub mandate_sha256 : Str
  pub quotes_sha256 : Str
  pub decisions_sha256 : Str
  pub ranking_sha256 : Str

-- `receiptBody`
pub record ReceiptBody : Type 0 where
  pub evaluated_at : ℕ
  pub mandate_id : Str
  pub category : MarketplaceCategory
  pub adapter : ReceiptAdapter
  pub commitments : Commitments
  pub quotes : List ArtifactReference
  pub decisions : List ArtifactReference
  pub ranking : List RankedCandidate
  pub summary : Summary

pub record MarketplaceReceipt : Type 0 where
  pub receipt_id : Str
  pub body : ReceiptBody

-- `canonicalSha256` at each of the types that it is applied to.
pub record Digests : Type 0 where
  pub of_projection : DisplaySafeQuoteProjection → Str
  pub of_mandate : MarketplaceMandate → Str
  pub of_quote : MarketplaceQuote → Str
  pub of_quotes : List MarketplaceQuote → Str
  pub of_decision : MarketplaceEligibilityDecision → Str
  pub of_decisions : List MarketplaceEligibilityDecision → Str
  pub of_ranking : List RankedCandidate → Str
  pub of_receipt_body : ReceiptBody → Str

-- The filter: decisions that are eligible and have a score.
unfoldable pub scored_decision : MarketplaceEligibilityDecision → List ScoredDecision
scored_decision d = elim d.score [
  | some score ↦
      if outcome_beq d.outcome eligible
      then record { quote_id = d.quote_id; candidate = d.candidate; score = score } ∷ []
      else []
  | none ↦ []
]

unfoldable pub scored_decisions : List MarketplaceEligibilityDecision → List ScoredDecision
scored_decisions [] = []
scored_decisions (d ∷ ds) = scored_decision d ++ scored_decisions ds

-- Higher totals first, then candidates and quote ids in their order.
unfoldable pub compare_scored : ScoredDecision → ScoredDecision → Ordering
compare_scored left right = or_else (compare right.score.weighted_total left.score.weighted_total) (
    or_else (compare_candidate_keys left.candidate.id right.candidate.id)
      (compare_canonical_strings left.quote_id right.quote_id))

abbrev pub ranked_at : ℕ → ScoredDecision → RankedCandidate
ranked_at index d = record {
  rank = index + 1;
  quote_id = d.quote_id;
  candidate = d.candidate;
  score = d.score;
}

-- `.map((decision, index) => ...)`, from an index on.
unfoldable pub with_ranks : ℕ → List ScoredDecision → List RankedCandidate
with_ranks index [] = []
with_ranks index (d ∷ ds) = ranked_at index d ∷ with_ranks (suc index) ds

unfoldable pub ranking_of : List MarketplaceEligibilityDecision → List RankedCandidate
ranking_of decisions = with_ranks 0 (sort_by compare_scored (scored_decisions decisions))

abbrev pub has_outcome : EligibilityOutcome → MarketplaceEligibilityDecision → Bool
has_outcome o d = outcome_beq d.outcome o

unfoldable pub summary_of : List MarketplaceEligibilityDecision → Summary
summary_of decisions = record {
  candidates = length decisions;
  eligible = length (keep (has_outcome eligible) decisions);
  excluded = length (keep (has_outcome excluded) decisions);
  inconclusive = length (keep (has_outcome inconclusive) decisions);
  unsupported = length (keep (has_outcome unsupported) decisions);
}

module _ (digests : Digests) where
  abbrev pub quote_reference : MarketplaceQuote → ArtifactReference
  quote_reference q = record {
    quote_id = q.quote_id;
    candidate = q.candidate;
    sha256 = digests.of_quote q;
  }

  abbrev pub decision_reference : MarketplaceEligibilityDecision → ArtifactReference
  decision_reference d = record {
    quote_id = d.quote_id;
    candidate = d.candidate;
    sha256 = digests.of_decision d;
  }

  unfoldable pub receipt_body :
      MarketplaceMandate
      → List MarketplaceQuote
      → List MarketplaceEligibilityDecision
      → ℕ
      → ReceiptBody
  receipt_body m quotes decisions evaluated_at = record {
    evaluated_at = evaluated_at;
    mandate_id = m.mandate_id;
    category = m.category;
    adapter = category_policies m.category;
    commitments = record {
      mandate_sha256 = digests.of_mandate m;
      quotes_sha256 = digests.of_quotes quotes;
      decisions_sha256 = digests.of_decisions decisions;
      ranking_sha256 = digests.of_ranking (ranking_of decisions);
    };
    quotes = map quote_reference quotes;
    decisions = map decision_reference decisions;
    ranking = ranking_of decisions;
    summary = summary_of decisions;
  }
