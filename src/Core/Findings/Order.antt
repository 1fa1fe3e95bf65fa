-- ===== src/Core/Findings/Order.antt =====
-- What `sort_findings` keeps, and the order of its result.
use mandate_x.Base.{
  ◌≡◌, ◌≢◌, refl, ◌∙◌, Bool, ◌||◌, List, [], ◌∷◌, arith, All, any, str_eq, str_beq_iff, Ordering,
}
use mandate_x.Base.Order.{IsComparator, on_key-IsComparator}
use mandate_x.Base.Sort.{
  any-sort_by, sort_by-IsSorted, sort_by-AreDistinct, AreDistinct, IsAscending,
  IsAscending-of_distinct,
}
use mandate_x.Core.Primitives.{compare_canonical_strings-IsComparator, compare_canonical_strings-eq}
use mandate_x.Core.Findings.{Finding, key, put, unique_from, sort_findings, compare_findings}
use mandate_x.Core.Findings.Keys.{key_inj}

any-put : (p : Finding → Bool) (f : Finding) (l : List Finding) → any p (put f l) ≡ (p f || any p l)
unfolding put
any-put p f [] = refl
any-put p f (g ∷ gs) = ground (arith, str_beq_iff (key g) (key f), key_inj g f, any-put p f gs)

any-unique_from :
    (p : Finding → Bool) (l fs : List Finding) → any p (unique_from l fs) ≡ (any p l || any p fs)
unfolding unique_from
any-unique_from p l [] = ground arith
any-unique_from p l (f ∷ fs) = ground (arith, any-unique_from p (put f l) fs, any-put p f l)

-- A test holds of some sorted finding exactly when it holds of some finding that was pushed.
pub any-sort_findings :
    (p : Finding → Bool) (findings : List Finding) → any p (sort_findings findings) ≡ any p findings
unfolding sort_findings
any-sort_findings p findings =
    any-sort_by compare_findings p (unique_from [] findings) ∙ any-unique_from p [] findings

pub compare_findings-IsComparator : IsComparator compare_findings
compare_findings-IsComparator = on_key-IsComparator key compare_canonical_strings-IsComparator

All-put : (P : Finding → Type 0) (f : Finding) (l : List Finding) → P f → All P l → All P (put f l)
unfolding put
All-put P f [] p h = (p, tt)
All-put P f (g ∷ gs) p h = ground (arith, All-put P f gs p h.1)

put-AreDistinct :
    (f : Finding) (l : List Finding)
    → AreDistinct compare_findings l
    → AreDistinct compare_findings (put f l)
unfolding put
put-AreDistinct f [] d = (tt, tt)
put-AreDistinct f (g ∷ gs) d = ground (
  arith,
  str_beq_iff (key g) (key f),
  key_inj g f,
  compare_canonical_strings-eq (key g) (key f),
  All-put (λ h. compare_findings g h ≢ Ordering.eq) f gs,
  put-AreDistinct f gs d.1,
)

unique_from-AreDistinct :
    (l fs : List Finding)
    → AreDistinct compare_findings l
    → AreDistinct compare_findings (unique_from l fs)
unfolding unique_from
unique_from-AreDistinct l [] d = d
unique_from-AreDistinct l (f ∷ fs) d = unique_from-AreDistinct (put f l) fs (put-AreDistinct f l d)

-- Sorted findings are in strictly ascending order of their keys: each of them once.
pub sort_findings-IsAscending :
    (findings : List Finding) → IsAscending compare_findings (sort_findings findings)
unfolding sort_findings
sort_findings-IsAscending findings =
    let c = compare_findings-IsComparator in
    let d = unique_from-AreDistinct [] findings tt in
    IsAscending-of_distinct compare_findings (sort_findings findings)
      (sort_by-IsSorted compare_findings c (unique_from [] findings))
      (sort_by-AreDistinct compare_findings c (unique_from [] findings) d)
