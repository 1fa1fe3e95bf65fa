-- ===== src/Core/Decision/Refinement.antt =====
-- Sorted findings satisfy what a decision's schema asks of their keys.
use mandate_x.Base.{
  ℕ, suc, ◌+◌, ◌≤◌, ◌≡◌, ◌≢◌, refl, true, false, List, [], ◌∷◌, map, arith, All, length, Str,
  str_eq, str_beq_iff, ◌==◌, Ordering, eqb,
}
use mandate_x.Base.Sort.{IsSorted, IsAscending, sort_by_of_IsSorted, length-sort_by}
use mandate_x.Base.Sets.{set_size, AreUnequal, set_size_of_unequal}
use mandate_x.Core.Primitives.{compare_canonical_strings, compare_canonical_strings-IsComparator}
use mandate_x.Core.Findings.{Finding, key, compare_findings, sort_findings, unique_from, put}
use mandate_x.Core.Findings.Order.{sort_findings-IsAscending}
use mandate_x.Core.Decision.{findings_refinement, same_texts}

same_texts_refl : (l : List Str) → same_texts l l ≡ true
same_texts_refl [] = refl
same_texts_refl (s ∷ ss) = ground (arith, str_beq_iff s s, same_texts_refl ss)

unequal_of_lt : (s t : Str) → compare_canonical_strings s t ≡ Ordering.lt → (s == t) ≡ false
unequal_of_lt s t h =
    ground (arith, str_beq_iff s t, compare_canonical_strings-IsComparator.flip s t)

keys_above :
    (f : Finding) (l : List Finding)
    → All (λ g. compare_findings f g ≡ Ordering.lt) l
    → All (λ k. compare_canonical_strings (key f) k ≢ Ordering.gt) (map key l)
      × All (λ k. (key f == k) ≡ false) (map key l)
keys_above f [] h = (tt, tt)
keys_above f (g ∷ gs) h =
    let (above, apart) = keys_above f gs h.1 in
    ((ground arith, above), (unequal_of_lt (key f) (key g) h.0, apart))

keys-IsSorted :
    (l : List Finding)
    → IsAscending compare_findings l
    → IsSorted compare_canonical_strings (map key l) × AreUnequal (map key l)
keys-IsSorted [] h = (tt, tt)
keys-IsSorted (f ∷ fs) h =
    let (above, apart) = keys_above f fs h.0 in
    let (sorted, unequal) = keys-IsSorted fs h.1 in ((above, sorted), (apart, unequal))

eqb_of_eq : (a b : ℕ) → a ≡ b → eqb a b ≡ true
eqb_of_eq a b h = ground arith

-- Findings in ascending order of their keys are unique and in canonical order.
pub findings_refinement_of_IsAscending :
    (l : List Finding) → IsAscending compare_findings l → findings_refinement l ≡ true
unfolding findings_refinement
findings_refinement_of_IsAscending l h =
    let (sorted, unequal) = keys-IsSorted l h in
    let in_order = sort_by_of_IsSorted compare_canonical_strings (map key l) sorted in
    let no_twice =
      eqb_of_eq (set_size (map key l)) (length (map key l))
        (set_size_of_unequal (map key l) unequal) in
    rw (in_order, no_twice) (same_texts_refl (map key l))

-- Sorted findings pass the checks of uniqueness and of canonical order that the decision schema
-- makes.
pub findings_refinement-sort_findings :
    (findings : List Finding) → findings_refinement (sort_findings findings) ≡ true
findings_refinement-sort_findings findings =
    findings_refinement_of_IsAscending (sort_findings findings) (sort_findings-IsAscending findings)

length-put : (f : Finding) (l : List Finding) → length (put f l) ≤ suc (length l)
unfolding put
length-put f [] = omega arith
length-put f (g ∷ gs) = ground (arith, length-put f gs)

length-unique_from : (l fs : List Finding) → length (unique_from l fs) ≤ length l + length fs
unfolding unique_from
length-unique_from l [] = omega arith
length-unique_from l (f ∷ fs) = omega (arith, length-unique_from (put f l) fs, length-put f l)

pub length-sort_findings :
    (findings : List Finding) → length (sort_findings findings) ≤ length findings
unfolding sort_findings
length-sort_findings findings = omega (
  arith,
  length-sort_by {0} compare_findings (unique_from [] findings),
  length-unique_from [] findings,
)
