-- ===== src/Base/Outcomes.antt =====
-- Results of code that throws.
use mathlib.Core.Path.{◌≡◌, refl}
use mathlib.Core.Bool.{Bool, true, false, not}
use mathlib.Core.Logic.{◌↔◌, ◌≢◌}
use native.Mathlib.Omega.{arith}
use mathlib.Core.List.{List, [], ◌∷◌, map}
use mandate_x.Base.Lists.{All}

pub data Result {ℓ κ} (E : Type ℓ) (A : Type κ) : Type (ℓ ⊔ κ) where
  ok : A → Result E A
  err : E → Result E A

infixl 5 ◌>>=◌
abbrev pub ◌>>=◌ {ℓ κ μ} :
    {E : Type ℓ} {A : Type κ} {B : Type μ} → Result E A → (A → Result E B) → Result E B
ok value >>= next = next value
err thrown >>= next = err thrown

-- A chain that ends well has a first step that does.
pub >>=-eq-ok {ℓ κ μ} :
    {E : Type ℓ} {A : Type κ} {B : Type μ} (r : Result E A) (next : A → Result E B) (b : B)
    → (r >>= next) ≡ ok b
    → (a : A) × ((r ≡ ok a) × (next a ≡ ok b))
>>=-eq-ok (ok a) next b h = (a, (refl, h))
>>=-eq-ok (err e) next b h = cc

pub ok-injective {ℓ κ} :
    {E : Type ℓ} {A : Type κ} (x y : A) → Path (Result E A) (ok x) (ok y) → y ≡ x
ok-injective x y h = cc

-- The same of a check, which gives no value.
pub check-eq-ok {ℓ μ} :
    {E : Type ℓ} {B : Type μ} (c : Result {ℓ, 0} E Unit) (rest : Result E B) (b : B)
    → (c >>= λ _. rest) ≡ ok b
    → (c ≡ ok tt) × (rest ≡ ok b)
check-eq-ok (ok tt) rest b h = (refl, h)
check-eq-ok (err e) rest b h = cc

-- `.map(f)`, where `f` may throw: the first throw ends it.
module _ {ℓ κ μ} {E : Type ℓ} {A : Type κ} {B : Type μ} where
  abbrev pub traverse : (A → Result E B) → List A → Result E (List B)
  traverse f [] = ok []
  traverse f (x ∷ xs) = f x >>= λ y. traverse f xs >>= λ ys. ok (y ∷ ys)

  -- Where the function returns a pure one's value everywhere, so does the traversal.
  pub traverse-eq-ok :
      (f : A → Result E B) (g : A → B) (l : List A)
      → All (λ a. f a ≡ ok (g a)) l
      → traverse f l ≡ ok (map g l)
  traverse-eq-ok f g [] h = refl
  traverse-eq-ok f g (x ∷ xs) h = rw (h.0, traverse-eq-ok f g xs h.1) refl

-- `if (condition) throw ...`, and `for (const x of xs) ...` with a body that may throw.
module _ {ℓ} {E : Type ℓ} where
  abbrev pub refuse_if : Bool → E → Result {ℓ, 0} E Unit
  refuse_if true thrown = err thrown
  refuse_if false thrown = ok tt

  abbrev pub for_each {κ} :
      {A : Type κ} → (A → Result {ℓ, 0} E Unit) → List A → Result {ℓ, 0} E Unit
  for_each f [] = ok tt
  for_each f (x ∷ xs) = f x >>= λ _. for_each f xs

  -- A loop runs to its end exactly when each of its rounds does.
  pub for_each-eq-ok {κ} :
      {A : Type κ} (f : A → Result {ℓ, 0} E Unit) (xs : List A)
      → (for_each f xs ≡ ok tt) ↔ All (λ x. f x ≡ ok tt) xs
  for_each-eq-ok f [] = ground arith
  for_each-eq-ok f (x ∷ xs) = ground (arith, for_each-eq-ok f xs)

  pub refuse_if-eq-ok : (b : Bool) (thrown : E) → (refuse_if b thrown ≡ ok tt) ↔ (b ≡ false)
  refuse_if-eq-ok b thrown = ground arith

  pub not_refused : (b : Bool) (thrown : E) → refuse_if (not b) thrown ≡ ok tt → b ≡ true
  not_refused b thrown h = ground arith

-- Code that never throws this.
abbrev pub Avoids {ℓ κ} : {E : Type ℓ} {A : Type κ} → E → Result E A → Type (ℓ ⊔ κ)
Avoids thrown r = r ≢ err thrown

pub >>=-Avoids {ℓ μ} :
    {E : Type ℓ} {B : Type μ} (e : E) (c : Result {ℓ, 0} E Unit) (rest : Result E B)
    → Avoids e c
    → Avoids e rest
    → Avoids e (c >>= λ _. rest)
>>=-Avoids e (ok tt) rest first second = second
>>=-Avoids e (err thrown) rest first second = λ h. first cc

module _ {ℓ} {E : Type ℓ} (e : E) where
  pub for_each-Avoids {κ} :
      {A : Type κ} (f : A → Result {ℓ, 0} E Unit) (xs : List A)
      → ((x : A) → Avoids e (f x))
      → Avoids e (for_each f xs)
  for_each-Avoids f [] each = λ h. cc
  for_each-Avoids f (x ∷ xs) each =
      >>=-Avoids e (f x) (for_each f xs) (each x) (for_each-Avoids f xs each)
