-- ===== src/Trust/Verify/Uniqueness.antt =====
-- tools/marketplace-core/src/trust-bundle.ts: lists that `assertSortedUniqueIds` accepts are maps.
use mandate_x.Base.{
  ◌≡◌, refl, sym, subst, false, not_true, All-imp, List, [], ◌∷◌, map, All, none, some, Str, str_eq,
  str_beq_iff, ◌==◌, Ordering, ok, arith,
}
use mandate_x.Core.Primitives.{compare_canonical_strings, compare_canonical_strings-IsComparator}
use mandate_x.Trust.{TrustError}
use mandate_x.Trust.Lookup.{map_get}
use mandate_x.Trust.Transition.Consistency.{assert_sorted_unique}

module _ {ℓ} {A : Type ℓ} (key : A → Str) where
  abbrev pub HasOwnName : List A → A → Type ℓ
  HasOwnName l a = map_get key (key a) l ≡ some a

  abbrev Follow : A → List A → Type 0
  Follow x l = All (λ y. compare_canonical_strings (key x) (key y) ≡ Ordering.lt) l

  Follow-on :
      (x y : A) (l : List A)
      → compare_canonical_strings (key x) (key y) ≡ Ordering.lt
      → Follow y l
      → Follow x l
  Follow-on x y [] h f = tt
  Follow-on x y (z ∷ l) h f = (
    compare_canonical_strings-IsComparator.trans (key x) (key y) (key z) h (ground (arith, f.0)),
    Follow-on x y l h f.1,
  )

  sorted_unique-tail :
      (code : TrustError) (x : A) (l : List A)
      → assert_sorted_unique code (key x ∷ map key l) ≡ ok tt
      → Follow x l × (assert_sorted_unique code (map key l) ≡ ok tt)
  unfolding assert_sorted_unique
  sorted_unique-tail code x [] h = (tt, refl)
  sorted_unique-tail code x (y ∷ l) h =
      let before : compare_canonical_strings (key x) (key y) ≡ Ordering.lt = (ground arith) in
      let rest : assert_sorted_unique code (key y ∷ map key l) ≡ ok tt = (ground arith) in
      let next = sorted_unique-tail code y l rest in ((before, Follow-on x y l before next.0), rest)

  Follow-unnamed : (x : A) (l : List A) → Follow x l → map_get key (key x) l ≡ none
  unfolding map_get
  Follow-unnamed x [] f = refl
  Follow-unnamed x (y ∷ l) f =
      let c = compare_canonical_strings-IsComparator in
      let other : (key y == key x) ≡ false =
        (not_true (key y == key x) (λ e.
          let same = (str_beq_iff (key y) (key x)).0 e in
          let before : compare_canonical_strings (key x) (key x) ≡ Ordering.lt =
            (rw (sym same)
              (subst (λ k. compare_canonical_strings k (key y) ≡ Ordering.lt) (sym same) f.0)) in
          ground (arith, c.flip (key x) (key x)))) in
      ground (arith, Follow-unnamed x l f.1)

  HasOwnName-cons : (x y : A) (l : List A) → HasOwnName l y → HasOwnName (x ∷ l) y
  unfolding map_get
  HasOwnName-cons x y l h = rw h refl

  HasOwnName-head : (x : A) (l : List A) → Follow x l → HasOwnName (x ∷ l) x
  unfolding map_get
  HasOwnName-head x l f = ground (arith, Follow-unnamed x l f, str_beq_iff (key x) (key x))

  -- In a list that is sorted by unique names, each entry is what its name gives.
  pub sorted_unique-HasOwnName :
      (code : TrustError) (l : List A)
      → assert_sorted_unique code (map key l) ≡ ok tt
      → All (HasOwnName l) l
  sorted_unique-HasOwnName code [] h = tt
  sorted_unique-HasOwnName code (x ∷ l) h =
      let t = sorted_unique-tail code x l h in
      (
        HasOwnName-head x l t.0,
        All-imp (λ y. HasOwnName-cons x y l) l (sorted_unique-HasOwnName code l t.1),
      )
