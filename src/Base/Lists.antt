-- ===== src/Base/Lists.antt =====
-- Lists measured by native numbers, and predicates on lists by recursion.
use Prim.Native.Nat.{ℕ, suc, ◌+◌}
use mathlib.Core.Path.{◌≡◌, refl, ap}
use mathlib.Core.Bool.{Bool, true, false, ◌&&◌, ◌||◌}
use mathlib.Core.Logic.{◌↔◌}
use mathlib.Core.List.{List, [], ◌∷◌, ◌++◌, map}
use native.Mathlib.Omega.{arith}
use mandate_x.Base.Tests.{Equality, ◌==◌, if◌then◌else◌}

module _ {ℓ} {A : Type ℓ} where
  abbrev pub length : List A → ℕ
  length [] = 0
  length (x ∷ xs) = suc (length xs)

  -- `xs.some(p)` and `xs.every(p)`
  abbrev pub any : (A → Bool) → List A → Bool
  any p [] = false
  any p (x ∷ xs) = p x || any p xs

  abbrev pub every : (A → Bool) → List A → Bool
  every p [] = true
  every p (x ∷ xs) = p x && every p xs

  -- `xs.filter(p)`
  abbrev pub keep : (A → Bool) → List A → List A
  keep p [] = []
  keep p (x ∷ xs) = let rest = keep p xs in if p x then x ∷ rest else rest

  abbrev pub All {κ} : (A → Type κ) → List A → Type κ
  All P [] = Unit
  All P (x ∷ xs) = P x × All P xs

  pub length-append : (xs ys : List A) → length (xs ++ ys) ≡ length xs + length ys
  length-append [] ys = omega arith
  length-append (x ∷ xs) ys = omega (arith, length-append xs ys)

-- `xs.includes(a)`
module _ {ℓ} {A : Type ℓ} ⦃e : Equality A⦄ where
  abbrev pub includes : A → List A → Bool
  includes a [] = false
  includes a (x ∷ xs) = x == a || includes a xs

pub length-map {ℓ κ} :
    {A : Type ℓ} {B : Type κ} (f : A → B) (xs : List A) → length (map f xs) ≡ length xs
length-map f [] = refl
length-map f (x ∷ xs) = ap suc (length-map f xs)

module _ {ℓ} {A : Type ℓ} where
  -- The pushes of several steps, one after the other.
  abbrev pub concat : List (List A) → List A
  concat [] = []
  concat (l ∷ ls) = l ++ concat ls

  pub concat-nil : (ls : List (List A)) → concat ls ≡ [] → All (λ l. l ≡ []) ls
  concat-nil [] h = tt
  concat-nil ([] ∷ ls) h = (refl, concat-nil ls h)
  concat-nil ((x ∷ xs) ∷ ls) h = cc

  pub nil-concat : (ls : List (List A)) → All (λ l. l ≡ []) ls → concat ls ≡ []
  nil-concat [] h = refl
  nil-concat (l ∷ ls) h = rw (h.0, nil-concat ls h.1)

module _ {ℓ} {A : Type ℓ} where
  pub any-append : (p : A → Bool) (xs ys : List A) → any p (xs ++ ys) ≡ (any p xs || any p ys)
  any-append p [] ys = refl
  any-append p (x ∷ xs) ys = ground (arith, any-append p xs ys)

module _ {ℓ} {A : Type ℓ} where
  pub concat₅-nil :
      {a b c d e : List A}
      → (concat (a ∷ b ∷ c ∷ d ∷ e ∷ []) ≡ [])
        ↔ ((a ≡ []) × (b ≡ []) × (c ≡ []) × (d ≡ []) × (e ≡ []))
  concat₅-nil {a} {b} {c} {d} {e} = (
    λ h.
        let all = concat-nil (a ∷ b ∷ c ∷ d ∷ e ∷ []) h in
        (all.0, all.1.0, all.1.1.0, all.1.1.1.0, all.1.1.1.1.0),
    λ h. nil-concat (a ∷ b ∷ c ∷ d ∷ e ∷ []) (h.0, (h.1, (h.2, (h.3, (h.4, tt))))),
  )

pub All-imp {ℓ κ μ} :
    {A : Type ℓ} {P : A → Type κ} {Q : A → Type μ} (f : (a : A) → P a → Q a) (l : List A)
    → All P l
    → All Q l
All-imp f [] h = tt
All-imp f (a ∷ l) h = (f a h.0, All-imp f l h.1)

module _ {ℓ} {A : Type ℓ} where
  pub All-keep {κ} :
      (P : A → Type κ) (p : A → Bool) (l : List A)
      → All P l
      → All (λ a. P a × (p a ≡ true)) (keep p l)
  All-keep P p [] h = tt
  All-keep P p (a ∷ l) h = ground (arith, All-keep P p l h.1)

  pub All-append {κ} : (P : A → Type κ) (xs ys : List A) → All P xs → All P ys → All P (xs ++ ys)
  All-append P [] ys h k = k
  All-append P (x ∷ xs) ys h k = (h.0, All-append P xs ys h.1 k)

  pub keep-All : (p : A → Bool) (l : List A) → All (λ a. p a ≡ true) (keep p l)
  keep-All p [] = tt
  keep-All p (a ∷ l) = ground (arith, keep-All p l)
