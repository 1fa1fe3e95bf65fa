-- ===== src/Core/Candidates/Unique.antt =====
-- The inspection of a candidate set finds nothing exactly when there is nothing to find.
use mandate_x.Base.{
  ◌≤◌, ◌≡◌, ◌↔◌, refl, false, List, [], ◌∷◌, map, none, All, length, includes, ◌==◌, str_eq,
  str_beq_iff, Str, arith,
}
use mandate_x.Base.Sets.{AreUnequal}
use mandate_x.Core.Primitives.{CandidateKey}
use mandate_x.Core.Candidates.{
  CandidateReference, candidate_id_eq, inspect_from, inspect_candidate_set,
}

-- What no candidate of a list has been seen as.
abbrev IsFresh : List CandidateReference → List CandidateKey → List Str → Type 0
IsFresh [] ids qs = Unit
IsFresh (c ∷ cs) ids qs =
    (includes c.candidate ids ≡ false) × (includes c.quote_id qs ≡ false) × IsFresh cs ids qs

IsFresh-cons :
    (c : CandidateReference) (cs : List CandidateReference) (ids : List CandidateKey)
    (qs : List Str)
    → IsFresh cs (c.candidate ∷ ids) (c.quote_id ∷ qs) ↔ (
        IsFresh cs ids qs
        × All (λ k. (c.candidate == k) ≡ false) (map CandidateReference.candidate cs)
        × All (λ k. (c.quote_id == k) ≡ false) (map CandidateReference.quote_id cs))
IsFresh-cons c [] ids qs = ground arith
IsFresh-cons c (d ∷ ds) ids qs = ground (
  arith,
  str_beq_iff c.quote_id d.quote_id,
  str_beq_iff d.quote_id c.quote_id,
  IsFresh-cons c ds ids qs,
)

pub inspect_from-eq-none :
    (cs : List CandidateReference) (ids : List CandidateKey) (qs : List Str)
    → (inspect_from ids qs cs ≡ none) ↔ (
        IsFresh cs ids qs
        × AreUnequal (map CandidateReference.candidate cs)
        × AreUnequal (map CandidateReference.quote_id cs))
unfolding inspect_from
inspect_from-eq-none [] ids qs = ground arith
inspect_from-eq-none (c ∷ cs) ids qs =
    ground (
      arith,
      inspect_from-eq-none cs (c.candidate ∷ ids) (c.quote_id ∷ qs),
      IsFresh-cons c cs ids qs,
    )

IsFresh-nil : (cs : List CandidateReference) → IsFresh cs [] []
IsFresh-nil [] = tt
IsFresh-nil (c ∷ cs) = (refl, refl, IsFresh-nil cs)

-- The inspection of a candidate set finds nothing exactly when it has at most eight candidates, no
-- two of one identity and no two of one quote id.
pub inspect_candidate_set-eq-none :
    (cs : List CandidateReference)
    → (inspect_candidate_set cs ≡ none) ↔ (
        (length cs ≤ 8)
        × AreUnequal (map CandidateReference.candidate cs)
        × AreUnequal (map CandidateReference.quote_id cs))
unfolding inspect_candidate_set
inspect_candidate_set-eq-none cs = ground (arith, inspect_from-eq-none cs [] [], IsFresh-nil cs)
