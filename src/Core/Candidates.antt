-- ===== src/Core/Candidates.antt =====
-- tools/marketplace-core/src/evaluate.ts: the candidate set and the time of an evaluation.
pub mod Unique
use mandate_x.Base.{
  ℕ, Bool, true, false, List, [], ◌∷◌, Option, none, some, Ordering, Str, ◌≡◌, ◌↔◌, arith, length,
  includes, ltb, leb, ◌||◌, not, if◌then◌else◌, Equality, str_eq, nat_eq, ◌==◌, ◌&&◌, Result, ok,
  err,
}
use mandate_x.Base.Order.{IsComparator, or_else, or_else-IsComparator, on_key-IsComparator}
use mandate_x.Core.Primitives.{
  CandidateKey, candidate_id, candidate_id_beq, max_candidates, max_safe_integer,
  compare_candidate_keys, compare_canonical_strings, compare_candidate_keys-IsComparator,
  compare_canonical_strings-IsComparator,
}
use mandate_x.Core.Errors.{
  MarketplaceErrorCode, candidate_limit_exceeded, duplicate_candidate, duplicate_quote_id,
  evaluated_at_invalid, evaluated_at_before_mandate, core_clock_invalid, CoreError, core_error,
}
use mandate_x.Core.Mandate.{MarketplaceMandate}
use mandate_x.Core.Quote.{MarketplaceQuote}

-- `CandidateReference`
pub record CandidateReference : Type 0 where
  pub quote_id : Str
  pub candidate : CandidateKey

pub candidate_id_beq_iff : (a b : CandidateKey) → (candidate_id_beq a b ≡ true) ↔ (a ≡ b)
candidate_id_beq_iff a b = ground arith

instance abbrev pub candidate_id_eq : Equality CandidateKey
candidate_id_eq = record { same = candidate_id_beq; same_iff = candidate_id_beq_iff }

-- The loop, with the identities and the quote ids that it has seen.
unfoldable pub inspect_from :
    List CandidateKey → List Str → List CandidateReference → Option MarketplaceErrorCode
inspect_from identities quote_ids [] = none
inspect_from identities quote_ids (c ∷ cs) =
    let rest = inspect_from (candidate_id c.candidate ∷ identities) (c.quote_id ∷ quote_ids) cs in
    if includes (candidate_id c.candidate) identities
    then some duplicate_candidate
    else if includes c.quote_id quote_ids
    then some duplicate_quote_id
    else rest

unfoldable pub inspect_candidate_set : List CandidateReference → Option MarketplaceErrorCode
inspect_candidate_set candidates =
    if ltb max_candidates (length candidates)
    then some candidate_limit_exceeded
    else inspect_from [] [] candidates

-- What `CandidateSetError` is thrown for.
unfoldable pub validate_candidate_set : List CandidateReference → Result {0, 0} CoreError Unit
validate_candidate_set candidates = elim (inspect_candidate_set candidates) [
  | some code ↦ err (core_error code)
  | none ↦ ok tt
]

-- What the clock returned: `none` where it threw, or returned anything but a number that is a natural
-- number.
unfoldable pub read_core_clock : Option ℕ → Result CoreError ℕ
read_core_clock none = err (core_error core_clock_invalid)
read_core_clock (some value) =
    if not (leb value max_safe_integer) || leb value 0
    then err (core_error core_clock_invalid)
    else ok value

unfoldable pub validate_evaluation_time : MarketplaceMandate → ℕ → Result {0, 0} CoreError Unit
validate_evaluation_time m evaluated_at =
    if not (leb evaluated_at max_safe_integer) || leb evaluated_at 0
    then err (core_error evaluated_at_invalid)
    else if ltb evaluated_at m.created_at
    then err (core_error evaluated_at_before_mandate)
    else ok tt

unfoldable pub compare_quotes : MarketplaceQuote → MarketplaceQuote → Ordering
compare_quotes left right =
    or_else (compare_candidate_keys left.candidate.id right.candidate.id)
      (compare_canonical_strings left.quote_id right.quote_id)

pub compare_quotes-IsComparator : IsComparator compare_quotes
unfolding compare_quotes
compare_quotes-IsComparator =
    or_else-IsComparator
      (on_key-IsComparator (λ (q : MarketplaceQuote). q.candidate.id)
        compare_candidate_keys-IsComparator)
      (on_key-IsComparator MarketplaceQuote.quote_id compare_canonical_strings-IsComparator)
