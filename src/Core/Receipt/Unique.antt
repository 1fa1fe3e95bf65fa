-- ===== src/Core/Receipt/Unique.antt =====
-- The ranking names each candidate and each quote once, and none that was not decided on.
use mandate_x.Base.{
  ℕ, suc, ◌≡◌, refl, ap, sym, subst, false, List, [], ◌∷◌, map, All, ◌==◌, arith, Equality, str_eq,
  nat_eq,
}
use mandate_x.Base.Sort.{sort_by, All-sort_by}
use mandate_x.Base.Sets.{AreUnequal}
use mandate_x.Base.Pairwise.{AreUnequal-sort_by, All-map}
use mandate_x.Core.Decision.{MarketplaceEligibilityDecision}
use mandate_x.Core.Candidates.{CandidateReference, candidate_id_eq}
use mandate_x.Core.Receipt.{
  ScoredDecision, scored_decision, scored_decisions, compare_scored, with_ranks, ranking_of,
}
use mandate_x.Core.Receipt.Schema.{ranked_key, reference_eq}

abbrev pub decision_key : MarketplaceEligibilityDecision → CandidateReference
decision_key d = record { quote_id = d.quote_id; candidate = d.candidate.id }

abbrev pub scored_key : ScoredDecision → CandidateReference
scored_key d = record { quote_id = d.quote_id; candidate = d.candidate.id }

module _ {ℓ} (P : CandidateReference → Type ℓ) where
  pub All-scored_decisions :
      (ds : List MarketplaceEligibilityDecision)
      → All (λ d. P (decision_key d)) ds
      → All (λ s. P (scored_key s)) (scored_decisions ds)
  unfolding scored_decisions scored_decision
  All-scored_decisions [] h = tt
  All-scored_decisions (d ∷ ds) h = ground (arith, All-scored_decisions ds h.1)

module _ {ℓ} (P : CandidateReference → Type ℓ) where
  All-with_ranks :
      (i : ℕ) (l : List ScoredDecision)
      → All (λ s. P (scored_key s)) l
      → All P (map ranked_key (with_ranks i l))
  unfolding with_ranks
  All-with_ranks i [] h = tt
  All-with_ranks i (d ∷ ds) h = (h.0, All-with_ranks (suc i) ds h.1)

  -- What holds of every key that was decided on holds of every key that is ranked.
  pub All-ranking_of :
      (ds : List MarketplaceEligibilityDecision)
      → All P (map decision_key ds)
      → All P (map ranked_key (ranking_of ds))
  unfolding ranking_of
  All-ranking_of ds h = All-with_ranks 0 (sort_by compare_scored (scored_decisions ds)) (
      All-sort_by compare_scored (λ s. P (scored_key s)) (scored_decisions ds)
        (All-scored_decisions P ds ((All-map P decision_key ds).0 h)))

module _ {ℓ} {A : Type ℓ} ⦃e : Equality A⦄ (f : CandidateReference → A) where
  unequal_scored :
      (ds : List MarketplaceEligibilityDecision)
      → AreUnequal (map (λ d. f (decision_key d)) ds)
      → AreUnequal (map (λ s. f (scored_key s)) (scored_decisions ds))
  unfolding scored_decisions scored_decision
  unequal_scored [] h = tt
  unequal_scored (d ∷ ds) h =
      let rest = unequal_scored ds h.1 in
      let apart =
        All-scored_decisions (λ k. (f (decision_key d) == f k) ≡ false) ds
          ((All-map _ (λ c. f (decision_key c)) ds).0 h.0) in
      let heads =
        (All-map (λ a. (f (decision_key d) == a) ≡ false) (λ s. f (scored_key s))
            (scored_decisions ds)).1
          apart in
      ground (arith, rest, heads)

  map-with_ranks :
      (i : ℕ) (l : List ScoredDecision)
      → map (λ r. f (ranked_key r)) (with_ranks i l) ≡ map (λ s. f (scored_key s)) l
  unfolding with_ranks
  map-with_ranks i [] = refl
  map-with_ranks i (d ∷ ds) = ap (λ l. f (scored_key d) ∷ l) (map-with_ranks (suc i) ds)

  pub AreUnequal-ranking_of :
      (ds : List MarketplaceEligibilityDecision)
      → AreUnequal (map (λ d. f (decision_key d)) ds)
      → AreUnequal (map (λ r. f (ranked_key r)) (ranking_of ds))
  unfolding ranking_of
  AreUnequal-ranking_of ds h =
      subst AreUnequal (sym (map-with_ranks 0 (sort_by compare_scored (scored_decisions ds)))) (
        AreUnequal-sort_by (λ s. f (scored_key s)) compare_scored (scored_decisions ds)
          (unequal_scored ds h))
