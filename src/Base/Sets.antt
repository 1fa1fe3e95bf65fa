-- ===== src/Base/Sets.antt =====
-- `new Set(values)`, of which the code uses the size alone.
use Prim.Native.Nat.{ℕ, ◌+◌}
use mathlib.Core.Path.{◌≡◌, refl}
use mathlib.Core.Bool.{true, false, ◌||◌}
use mathlib.Core.List.{List, [], ◌∷◌, ◌++◌}
use native.Mathlib.Omega.{arith}
use mandate_x.Base.Tests.{Equality, ◌==◌, if◌then◌else◌}
use mandate_x.Base.Lists.{length, includes, All}

module _ {ℓ} {A : Type ℓ} ⦃e : Equality A⦄ where
  unfoldable pub set_from : List A → List A → List A
  set_from set [] = set
  set_from set (x ∷ xs) = set_from (if includes x set then set else x ∷ set) xs

  unfoldable pub set_size : List A → ℕ
  unfolding set_from
  set_size xs = length (set_from [] xs)

  abbrev pub AreUnequal : List A → Type 0
  AreUnequal [] = Unit
  AreUnequal (x ∷ xs) = All (λ y. (x == y) ≡ false) xs × AreUnequal xs

  -- What is not in the set yet, one by one.
  abbrev AreNew : List A → List A → Type 0
  AreNew xs set = All (λ x. includes x set ≡ false) xs

  AreNew-add :
      (x : A) (xs set : List A)
      → All (λ y. (x == y) ≡ false) xs
      → AreNew xs set
      → AreNew xs (x ∷ set)
  AreNew-add x [] set h k = tt
  AreNew-add x (y ∷ ys) set h k = (ground arith, AreNew-add x ys set h.1 k.1)

  length-set_from :
      (xs set : List A)
      → AreUnequal xs
      → AreNew xs set
      → length (set_from set xs) ≡ length set + length xs
  unfolding set_from
  length-set_from [] set u n = omega arith
  length-set_from (x ∷ xs) set u n =
      rw n.0 (omega (arith, length-set_from xs (x ∷ set) u.1 (AreNew-add x xs set u.0 n.1)))

  nothing_in_empty : (xs : List A) → AreNew xs []
  nothing_in_empty [] = tt
  nothing_in_empty (x ∷ xs) = (refl, nothing_in_empty xs)

  -- Unequal values fill a set of their number.
  pub set_size_of_unequal : (xs : List A) → AreUnequal xs → set_size xs ≡ length xs
  unfolding set_size
  set_size_of_unequal xs u = omega (arith, length-set_from xs [] u (nothing_in_empty xs))

  -- `[...new Set(values)]`, in the order in which the values came.
  unfoldable pub set_values_from : List A → List A → List A
  set_values_from set [] = set
  set_values_from set (x ∷ xs) = set_values_from (if includes x set then set else set ++ x ∷ []) xs

  unfoldable pub set_values : List A → List A
  unfolding set_values_from
  set_values xs = set_values_from [] xs

  includes-append :
      (a : A) (xs ys : List A) → includes a (xs ++ ys) ≡ (includes a xs || includes a ys)
  includes-append a [] ys = refl
  includes-append a (x ∷ xs) ys = ground (arith, includes-append a xs ys)

  -- What a list has, a longer one has.
  pub includes-append_left :
      (a : A) (xs ys : List A) → includes a xs ≡ true → includes a (xs ++ ys) ≡ true
  includes-append_left a xs ys h = ground (arith, includes-append a xs ys)

  includes-set_values_from :
      (a : A) (set xs : List A)
      → includes a (set_values_from set xs) ≡ (includes a set || includes a xs)
  unfolding set_values_from
  includes-set_values_from a set [] = ground arith
  includes-set_values_from a set (x ∷ xs) = ground (
    arith,
    includes-set_values_from a set xs,
    includes-set_values_from a (set ++ x ∷ []) xs,
    includes-append a set (x ∷ []),
    e.same_iff x a,
  )

  -- A set has the values that it was made of.
  pub includes-set_values : (a : A) (xs : List A) → includes a (set_values xs) ≡ includes a xs
  unfolding set_values
  includes-set_values a xs = includes-set_values_from a [] xs
