-- ===== src/Core/Receipt/Counts.antt =====
-- The ranking and the summary of a receipt.
use mandate_x.Base.{
  ℕ, suc, ◌+◌, ◌<◌, ◌≤◌, ◌≡◌, ◌≢◌, refl, ap, ◌∙◌, true, List, [], ◌∷◌, All, Ordering, length, keep,
  arith,
}
use mandate_x.Base.Order.{
  IsComparator, or_else-IsComparator, on_key-IsComparator, descending-IsComparator,
  compare-IsComparator,
}
use mandate_x.Base.Sort.{sort_by, IsSorted, sort_by-IsSorted, length-sort_by}
use mandate_x.Core.Primitives.{
  compare_candidate_keys-IsComparator, compare_canonical_strings-IsComparator,
}
use mandate_x.Core.Decision.{MarketplaceEligibilityDecision, eligible, score_refinement}
use mandate_x.Core.Receipt.{
  ScoredDecision, RankedCandidate, scored_decision, scored_decisions, compare_scored, ranked_at,
  with_ranks, ranking_of, has_outcome, summary_of,
}

-- The four counts of a summary add up to the number of decisions.
pub summary_of-sum :
    (ds : List MarketplaceEligibilityDecision)
    → (summary_of ds).eligible
        + (summary_of ds).excluded
        + (summary_of ds).inconclusive
        + (summary_of ds).unsupported
      ≡ (summary_of ds).candidates
unfolding summary_of
summary_of-sum [] = refl
summary_of-sum (d ∷ ds) = ground (arith, summary_of-sum ds)

pub length-with_ranks : (i : ℕ) (l : List ScoredDecision) → length (with_ranks i l) ≡ length l
unfolding with_ranks
length-with_ranks i [] = refl
length-with_ranks i (d ∷ ds) = ap suc (length-with_ranks (suc i) ds)

abbrev pub IsConsistent : MarketplaceEligibilityDecision → Type 0
IsConsistent d = score_refinement d.outcome d.findings d.score ≡ true

length-scored_decisions :
    (ds : List MarketplaceEligibilityDecision)
    → All IsConsistent ds
    → length (scored_decisions ds) ≡ length (keep (has_outcome eligible) ds)
unfolding scored_decisions scored_decision score_refinement
length-scored_decisions [] h = refl
length-scored_decisions (d ∷ ds) h = ground (arith, length-scored_decisions ds h.1)

-- Where each decision has a score exactly when it is eligible, as its schema asks, the ranking has
-- as many entries as the summary counts eligible decisions.
pub length-ranking_of :
    (ds : List MarketplaceEligibilityDecision)
    → All IsConsistent ds
    → length (ranking_of ds) ≡ (summary_of ds).eligible
unfolding ranking_of summary_of
length-ranking_of ds h =
    length-with_ranks 0 (sort_by compare_scored (scored_decisions ds))
    ∙ length-sort_by compare_scored (scored_decisions ds)
    ∙ length-scored_decisions ds h

pub compare_scored-IsComparator : IsComparator compare_scored
unfolding compare_scored
compare_scored-IsComparator =
    or_else-IsComparator
      (descending-IsComparator
        (on_key-IsComparator (λ (d : ScoredDecision). d.score.weighted_total) compare-IsComparator))
      (or_else-IsComparator
        (on_key-IsComparator (λ (d : ScoredDecision). d.candidate.id)
          compare_candidate_keys-IsComparator)
        (on_key-IsComparator ScoredDecision.quote_id compare_canonical_strings-IsComparator))

-- Of two entries the earlier has the smaller rank and no smaller a total.
abbrev pub IsBefore : RankedCandidate → RankedCandidate → Type 0
IsBefore a b = (a.rank < b.rank) × (b.score.weighted_total ≤ a.score.weighted_total)

-- The ranks count up from one, and no entry is before one with a higher total.
abbrev pub IsRanking : ℕ → List RankedCandidate → Type 0
IsRanking index [] = Unit
IsRanking index (r ∷ rs) = (r.rank ≡ suc index) × All (IsBefore r) rs × IsRanking (suc index) rs

total_le :
    (a b : ScoredDecision)
    → compare_scored a b ≢ Ordering.gt
    → b.score.weighted_total ≤ a.score.weighted_total
unfolding compare_scored
total_le a b h = ground arith

IsBefore-All :
    (r : RankedCandidate) (d : ScoredDecision) (i : ℕ) (l : List ScoredDecision)
    → r.rank ≤ i
    → r.score.weighted_total ≡ d.score.weighted_total
    → All (λ e. compare_scored d e ≢ Ordering.gt) l
    → All (IsBefore r) (with_ranks i l)
unfolding with_ranks
IsBefore-All r d i [] h k s = tt
IsBefore-All r d i (e ∷ es) h k s = (
  (omega arith, omega (arith, total_le d e s.0)),
  IsBefore-All r d (suc i) es (omega arith) k s.1,
)

with_ranks-IsRanking :
    (i : ℕ) (l : List ScoredDecision) → IsSorted compare_scored l → IsRanking i (with_ranks i l)
unfolding with_ranks
with_ranks-IsRanking i [] s = tt
with_ranks-IsRanking i (d ∷ ds) s = (
  omega arith,
  IsBefore-All (ranked_at i d) d (suc i) ds (omega arith) refl s.0,
  with_ranks-IsRanking (suc i) ds s.1,
)

-- The ranks of a ranking count up from one, and no entry is before one with a higher total.
pub ranking_of-IsRanking : (ds : List MarketplaceEligibilityDecision) → IsRanking 0 (ranking_of ds)
unfolding ranking_of
ranking_of-IsRanking ds =
    with_ranks-IsRanking 0 (sort_by compare_scored (scored_decisions ds))
      (sort_by-IsSorted compare_scored compare_scored-IsComparator (scored_decisions ds))
