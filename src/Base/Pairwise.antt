-- ===== src/Base/Pairwise.antt =====
-- A relation between any two elements of a list, kept by a sort and by a map.
use Prim.Native.Nat.{Ordering}
use mathlib.Core.Bool.{false}
use mathlib.Core.Path.{◌≡◌}
use mathlib.Core.Logic.{◌↔◌}
use mathlib.Core.List.{List, [], ◌∷◌, map}
use native.Mathlib.Omega.{arith}
use mandate_x.Base.Tests.{Equality, ◌==◌}
use mandate_x.Base.Lists.{All}
use mandate_x.Base.Sort.{insert_by, sort_by, All-insert_by, All-sort_by}
use mandate_x.Base.Sets.{AreUnequal}

module _ {ℓ κ} {A : Type ℓ} (R : A → A → Type κ) where
  abbrev pub IsPairwise : List A → Type κ
  IsPairwise [] = Unit
  IsPairwise (x ∷ xs) = All (R x) xs × IsPairwise xs

module _ {ℓ κ} {A : Type ℓ} {R : A → A → Type κ} (cmp : A → A → Ordering)
    (symmetric : (a b : A) → R a b → R b a) where
  insert_by-IsPairwise :
      (x : A) (l : List A) → All (R x) l → IsPairwise R l → IsPairwise R (insert_by cmp x l)
  unfolding insert_by
  insert_by-IsPairwise x [] h d = (tt, tt)
  insert_by-IsPairwise x (y ∷ ys) h d =
      elim (cmp x y)
        as (λ o. IsPairwise R (elim o [ Ordering.gt ↦ y ∷ insert_by cmp x ys | _ ↦ x ∷ y ∷ ys ])) [
          | Ordering.gt ↦ (
            All-insert_by cmp (R y) x ys (symmetric x y h.0) d.0,
            insert_by-IsPairwise x ys h.1 d.1,
          )
          | _ ↦ (h, d)
        ]

  pub sort_by-IsPairwise : (l : List A) → IsPairwise R l → IsPairwise R (sort_by cmp l)
  unfolding sort_by
  sort_by-IsPairwise [] d = tt
  sort_by-IsPairwise (x ∷ xs) d =
      insert_by-IsPairwise x (sort_by cmp xs) (All-sort_by cmp (R x) xs d.0)
        (sort_by-IsPairwise xs d.1)

module _ {ℓ κ μ} {A : Type ℓ} {B : Type κ} (P : B → Type μ) (f : A → B) where
  pub All-map : (l : List A) → All P (map f l) ↔ All (λ a. P (f a)) l
  All-map [] = (λ h. tt, λ h. tt)
  All-map (x ∷ xs) = (λ h. (h.0, (All-map xs).0 h.1), λ h. (h.0, (All-map xs).1 h.1))

module _ {ℓ κ} {A : Type ℓ} {B : Type κ} ⦃e : Equality B⦄ (f : A → B) where
  -- Unequal keys, as a relation between the elements.
  pub AreUnequal-map :
      (l : List A) → AreUnequal (map f l) ↔ IsPairwise (λ a b. (f a == f b) ≡ false) l
  AreUnequal-map [] = (λ h. tt, λ h. tt)
  AreUnequal-map (x ∷ xs) = (
    λ h. ((All-map _ f xs).0 h.0, (AreUnequal-map xs).0 h.1),
    λ h. ((All-map _ f xs).1 h.0, (AreUnequal-map xs).1 h.1),
  )

  unequal_sym : (a b : A) → (f a == f b) ≡ false → (f b == f a) ≡ false
  unequal_sym a b h = ground (arith, e.same_iff (f a) (f b), e.same_iff (f b) (f a))

  -- Keys that are unequal stay so in a sort.
  pub AreUnequal-sort_by :
      (cmp : A → A → Ordering) (l : List A)
      → AreUnequal (map f l)
      → AreUnequal (map f (sort_by cmp l))
  AreUnequal-sort_by cmp l h =
      (AreUnequal-map (sort_by cmp l)).1
        (sort_by-IsPairwise cmp unequal_sym l ((AreUnequal-map l).0 h))
