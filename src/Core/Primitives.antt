-- ===== src/Core/Primitives.antt =====
-- tools/marketplace-core/src/primitives.ts. Numbers that the source keeps as canonical decimal texts
-- (token ids, USD micros) are the numbers: such a text has no sign and no leading zero.
use mandate_x.Base.{
  ℕ, ◌^◌, ◌≡◌, sym, ◌∙◌, subst, fun_ext, ◌↔◌, Bool, true, false, ◌&&◌, arith, ltb, leb, Ordering,
  compare, if◌then◌else◌, Str, order, ℤ, pos, negsuc, leb_ℤ, Equality, order-IsComparator, order-eq,
  nat_eq, ◌==◌,
}
use mandate_x.Base.Order.{
  IsComparator, or_else, or_else-IsComparator, compare-IsComparator, on_key-IsComparator,
}

pub data MarketplaceCategory : Type 0 where
  rebalancing grid yield health : MarketplaceCategory

abbrev pub category_beq : MarketplaceCategory → MarketplaceCategory → Bool
category_beq rebalancing rebalancing = true
category_beq grid grid = true
category_beq yield yield = true
category_beq health health = true
category_beq _ _ = false

pub category_beq_iff : (a b : MarketplaceCategory) → (category_beq a b ≡ true) ↔ (a ≡ b)
category_beq_iff a b = ground arith

instance abbrev pub category_eq : Equality MarketplaceCategory
category_eq = record { same = category_beq; same_iff = category_beq_iff }

pub data GateObservation : Type 0 where
  pass fail unknown : GateObservation

abbrev pub max_candidates : ℕ
max_candidates = 8

abbrev pub max_safe_integer : ℕ
max_safe_integer = 9007199254740991

-- The ranges of the numeric schemas.
abbrev pub unix_seconds_schema : ℕ → Bool
unix_seconds_schema n = leb 1 n && leb n max_safe_integer

abbrev pub block_number_schema : ℕ → Bool
block_number_schema n = leb n max_safe_integer

unfoldable pub uint256_decimal_schema : ℕ → Bool
uint256_decimal_schema n = ltb n (2 ^ 256)

abbrev pub basis_points_schema : ℕ → Bool
basis_points_schema n = leb n 10000

abbrev pub tick_schema : ℤ → Bool
tick_schema t = leb_ℤ (negsuc 887271) t && leb_ℤ t (pos 887272)

abbrev pub str_lt : Str → Str → Bool
str_lt s t = elim (order s t) [ Ordering.lt ↦ true | _ ↦ false ]

unfoldable pub compare_canonical_strings : Str → Str → Ordering
compare_canonical_strings left right =
    if str_lt left right
    then Ordering.lt
    else if str_lt right left
    then Ordering.gt
    else Ordering.eq

pub record CandidateKey : Type 0 where
  pub chain_id : ℕ
  pub token_id : ℕ

-- `${chainId}:${tokenId}`: two such texts are equal when both numbers are.
abbrev pub candidate_id : CandidateKey → CandidateKey
candidate_id k = k

abbrev pub candidate_id_beq : CandidateKey → CandidateKey → Bool
candidate_id_beq a b = a.chain_id == b.chain_id && a.token_id == b.token_id

unfoldable pub compare_candidate_keys : CandidateKey → CandidateKey → Ordering
compare_candidate_keys left right =
    or_else (compare left.chain_id right.chain_id) (compare left.token_id right.token_id)

pub compare_canonical_strings-order : (s t : Str) → compare_canonical_strings s t ≡ order s t
unfolding compare_canonical_strings
compare_canonical_strings-order s t = ground (arith, order-IsComparator.flip s t)

pub compare_candidate_keys-IsComparator : IsComparator compare_candidate_keys
unfolding compare_candidate_keys
compare_candidate_keys-IsComparator =
    or_else-IsComparator (on_key-IsComparator CandidateKey.chain_id compare-IsComparator)
      (on_key-IsComparator CandidateKey.token_id compare-IsComparator)

pub compare_canonical_strings-eq : (s t : Str) → compare_canonical_strings s t ≡ Ordering.eq → s ≡ t
compare_canonical_strings-eq s t h = order-eq s t (sym (compare_canonical_strings-order s t) ∙ h)

pub compare_canonical_strings-IsComparator : IsComparator compare_canonical_strings
compare_canonical_strings-IsComparator =
    subst IsComparator (sym (fun_ext λ s. fun_ext (compare_canonical_strings-order s)))
      order-IsComparator
