-- ===== src/Base/Sort.antt =====
-- `Array.prototype.sort(cmp)`: it is stable, and its result depends on the comparator alone.
use Prim.Native.Nat.{Ordering, suc}
use mathlib.Core.Bool.{Bool, ◌||◌}
use mathlib.Core.Path.{◌≡◌, refl, ap, ap₂, ◌∙◌, subst}
use mathlib.Core.Logic.{◌≢◌}
use mathlib.Core.List.{List, [], ◌∷◌, Perm, Permᴰ}
use mathlib.Core.List.Perm
use native.Mathlib.Omega.{arith}
use mandate_x.Base.Lists.{All, any, length}
use mandate_x.Base.Order.{IsComparator}

module _ {ℓ} {A : Type ℓ} (cmp : A → A → Ordering) where
  -- Before the first element that is not smaller: earlier elements stay before equal ones.
  unfoldable pub insert_by : A → List A → List A
  insert_by x [] = x ∷ []
  insert_by x (y ∷ ys) = elim (cmp x y) [ Ordering.gt ↦ y ∷ insert_by x ys | _ ↦ x ∷ y ∷ ys ]

  unfoldable pub sort_by : List A → List A
  unfolding insert_by
  sort_by [] = []
  sort_by (x ∷ xs) = insert_by x (sort_by xs)

  abbrev pub IsSorted : List A → Type 0
  IsSorted [] = Unit
  IsSorted (x ∷ xs) = All (λ y. cmp x y ≢ Ordering.gt) xs × IsSorted xs

  -- No two elements compare as equal.
  abbrev pub AreDistinct : List A → Type 0
  AreDistinct [] = Unit
  AreDistinct (x ∷ xs) = All (λ y. cmp x y ≢ Ordering.eq) xs × AreDistinct xs

module _ {ℓ} {A : Type ℓ} (cmp : A → A → Ordering) where
  pub All-insert_by {κ} :
      (P : A → Type κ) (x : A) (l : List A) → P x → All P l → All P (insert_by cmp x l)
  unfolding insert_by
  All-insert_by P x [] p h = (p, tt)
  All-insert_by P x (y ∷ ys) p h = ground (arith, All-insert_by P x ys p h.1)

  pub All-sort_by {κ} : (P : A → Type κ) (l : List A) → All P l → All P (sort_by cmp l)
  unfolding sort_by
  All-sort_by P [] h = tt
  All-sort_by P (x ∷ xs) h = All-insert_by P x (sort_by cmp xs) h.0 (All-sort_by P xs h.1)

  -- Whatever is not after the head of a sorted list is not after all of it.
  below-All :
      IsComparator cmp
      → (x y : A) (l : List A) → cmp x y ≢ Ordering.gt
      → All (λ z. cmp y z ≢ Ordering.gt) l
      → All (λ z. cmp x z ≢ Ordering.gt) l
  below-All c x y [] p h = tt
  below-All c x y (z ∷ zs) p h =
      (ground (arith, c.trans x y z, c.same x y z), below-All c x y zs p h.1)

  insert_by-IsSorted :
      IsComparator cmp → (x : A) (l : List A) → IsSorted cmp l → IsSorted cmp (insert_by cmp x l)
  unfolding insert_by
  insert_by-IsSorted c x [] h = (tt, tt)
  insert_by-IsSorted c x (y ∷ ys) h = ground (
    arith,
    c.flip x y,
    below-All c x y ys,
    All-insert_by (λ z. cmp y z ≢ Ordering.gt) x ys,
    insert_by-IsSorted c x ys h.1,
  )

  -- The result of a sort is in order.
  pub sort_by-IsSorted : IsComparator cmp → (l : List A) → IsSorted cmp (sort_by cmp l)
  unfolding sort_by
  sort_by-IsSorted c [] = tt
  sort_by-IsSorted c (x ∷ xs) = insert_by-IsSorted c x (sort_by cmp xs) (sort_by-IsSorted c xs)

  insert_by-perm : (x : A) (l : List A) → Perm (insert_by cmp x l) (x ∷ l)
  unfolding insert_by
  insert_by-perm x [] = Perm.rfl
  insert_by-perm x (y ∷ ys) =
      elim (cmp x y)
        as (λ o.
          Perm (elim o [ Ordering.gt ↦ y ∷ insert_by cmp x ys | _ ↦ x ∷ y ∷ ys ]) (x ∷ y ∷ ys)) [
            | Ordering.gt ↦ Perm.trans (Perm.cons y (insert_by-perm x ys)) (Perm.swap x y ys)
            | _ ↦ Perm.rfl
          ]

  -- A sort loses and invents nothing.
  pub sort_by-perm : (l : List A) → Perm (sort_by cmp l) l
  unfolding sort_by
  sort_by-perm [] = Perm.rfl
  sort_by-perm (x ∷ xs) =
      Perm.trans (insert_by-perm x (sort_by cmp xs)) (Perm.cons x (sort_by-perm xs))

  insert_by_first :
      (x : A) (l : List A) → All (λ y. cmp x y ≢ Ordering.gt) l → insert_by cmp x l ≡ x ∷ l
  unfolding insert_by
  insert_by_first x [] h = refl
  insert_by_first x (y ∷ ys) h = ground arith

  -- A list that is in order is left as it is.
  pub sort_by_of_IsSorted : (l : List A) → IsSorted cmp l → sort_by cmp l ≡ l
  unfolding sort_by
  sort_by_of_IsSorted [] h = refl
  sort_by_of_IsSorted (x ∷ xs) h =
      ap (insert_by cmp x) (sort_by_of_IsSorted xs h.1) ∙ insert_by_first x xs h.0

  insert_by_comm :
      IsComparator cmp
      → (x y : A) (l : List A) → cmp x y ≢ Ordering.eq
      → insert_by cmp x (insert_by cmp y l) ≡ insert_by cmp y (insert_by cmp x l)
  unfolding insert_by
  insert_by_comm c x y [] d = ground (arith, c.flip x y)
  insert_by_comm c x y (z ∷ zs) d = ground (
    arith,
    c.flip x y,
    c.flip x z,
    c.flip y z,
    c.trans x y z,
    c.trans y x z,
    c.trans x z y,
    c.trans y z x,
    c.same x z y,
    c.same y z x,
    c.same z x y,
    c.same z y x,
    insert_by_comm c x y zs d,
  )

pub All-Permᴰ {ℓ κ} : {A : Type ℓ} (P : A → Type κ) {l r : List A} → Permᴰ l r → All P l → All P r
All-Permᴰ P Permᴰ.nil h = h
All-Permᴰ P (Permᴰ.cons e d) h = (subst P e h.0, All-Permᴰ P d h.1)
All-Permᴰ P (Permᴰ.swap e f) h = (subst P f h.1.0, (subst P e h.0, h.1.1))
All-Permᴰ P (Permᴰ.trans d e) h = All-Permᴰ P e (All-Permᴰ P d h)

module _ {ℓ} {A : Type ℓ} (cmp : A → A → Ordering) (c : IsComparator cmp) where
  AreDistinct-Permᴰ : {l r : List A} → Permᴰ l r → AreDistinct cmp l → AreDistinct cmp r
  AreDistinct-Permᴰ Permᴰ.nil h = h
  AreDistinct-Permᴰ (Permᴰ.cons {l₂ = r} e d) h =
      let heads = All-Permᴰ (λ y. cmp _ y ≢ Ordering.eq) d h.0 in
      (subst (λ b. All (λ y. cmp b y ≢ Ordering.eq) r) e heads, AreDistinct-Permᴰ d h.1)
  AreDistinct-Permᴰ (Permᴰ.swap {a = a} {b = b} {b' = b'} {l = l} e f) h =
      let apart : cmp b a ≢ Ordering.eq = ground (arith, c.flip a b, h.0.0) in
      (
        (
          subst (λ x. cmp x b' ≢ Ordering.eq) f (subst (λ y. cmp b y ≢ Ordering.eq) e apart),
          subst (λ x. All (λ y. cmp x y ≢ Ordering.eq) l) f h.1.0,
        ),
        (subst (λ x. All (λ y. cmp x y ≢ Ordering.eq) l) e h.0.1, h.1.1),
      )
  AreDistinct-Permᴰ (Permᴰ.trans d e) h = AreDistinct-Permᴰ e (AreDistinct-Permᴰ d h)

  -- The order in which distinct elements arrive does not change the result.
  pub sort_by-Permᴰ : {l r : List A} → Permᴰ l r → AreDistinct cmp l → sort_by cmp l ≡ sort_by cmp r
  unfolding sort_by
  sort_by-Permᴰ Permᴰ.nil h = refl
  sort_by-Permᴰ (Permᴰ.cons e d) h = ap₂ (insert_by cmp) e (sort_by-Permᴰ d h.1)
  sort_by-Permᴰ (Permᴰ.swap {a = a} {b = b} {l = l} e f) h =
      insert_by_comm cmp c a b (sort_by cmp l) h.0.0
      ∙ ap₂ (λ x y. insert_by cmp x (insert_by cmp y (sort_by cmp l))) f e
  sort_by-Permᴰ (Permᴰ.trans d e) h = sort_by-Permᴰ d h ∙ sort_by-Permᴰ e (AreDistinct-Permᴰ d h)

module _ {ℓ} {A : Type ℓ} (cmp : A → A → Ordering) where
  any-insert_by : (p : A → Bool) (x : A) (l : List A) → any p (insert_by cmp x l) ≡ (p x || any p l)
  unfolding insert_by
  any-insert_by p x [] = refl
  any-insert_by p x (y ∷ ys) = ground (arith, any-insert_by p x ys)

  -- A sort keeps what holds of some element.
  pub any-sort_by : (p : A → Bool) (l : List A) → any p (sort_by cmp l) ≡ any p l
  unfolding sort_by
  any-sort_by p [] = refl
  any-sort_by p (x ∷ xs) =
      any-insert_by p x (sort_by cmp xs) ∙ ap (λ b. p x || b) (any-sort_by p xs)

  length-insert_by : (x : A) (l : List A) → length (insert_by cmp x l) ≡ suc (length l)
  unfolding insert_by
  length-insert_by x [] = refl
  length-insert_by x (y ∷ ys) = ground (arith, length-insert_by x ys)

  pub length-sort_by : (l : List A) → length (sort_by cmp l) ≡ length l
  unfolding sort_by
  length-sort_by [] = refl
  length-sort_by (x ∷ xs) = length-insert_by x (sort_by cmp xs) ∙ ap suc (length-sort_by xs)

  insert_by-AreDistinct :
      IsComparator cmp
      → (x : A) (l : List A) → All (λ y. cmp x y ≢ Ordering.eq) l
      → AreDistinct cmp l
      → AreDistinct cmp (insert_by cmp x l)
  unfolding insert_by
  insert_by-AreDistinct c x [] h d = (tt, tt)
  insert_by-AreDistinct c x (y ∷ ys) h d = ground (
    arith,
    c.flip x y,
    All-insert_by cmp (λ z. cmp y z ≢ Ordering.eq) x ys,
    insert_by-AreDistinct c x ys h.1 d.1,
  )

  pub sort_by-AreDistinct :
      IsComparator cmp → (l : List A) → AreDistinct cmp l → AreDistinct cmp (sort_by cmp l)
  unfolding sort_by
  sort_by-AreDistinct c [] d = tt
  sort_by-AreDistinct c (x ∷ xs) d =
      insert_by-AreDistinct c x (sort_by cmp xs)
        (All-sort_by cmp (λ y. cmp x y ≢ Ordering.eq) xs d.0) (sort_by-AreDistinct c xs d.1)

  -- Every element is before all that follow it.
  abbrev pub IsAscending : List A → Type 0
  IsAscending [] = Unit
  IsAscending (x ∷ xs) = All (λ y. cmp x y ≡ Ordering.lt) xs × IsAscending xs

  All-lt :
      (x : A) (l : List A)
      → All (λ y. cmp x y ≢ Ordering.gt) l
      → All (λ y. cmp x y ≢ Ordering.eq) l
      → All (λ y. cmp x y ≡ Ordering.lt) l
  All-lt x [] h d = tt
  All-lt x (y ∷ ys) h d = (ground arith, All-lt x ys h.1 d.1)

  pub IsAscending-of_distinct : (l : List A) → IsSorted cmp l → AreDistinct cmp l → IsAscending l
  IsAscending-of_distinct [] h d = tt
  IsAscending-of_distinct (x ∷ xs) h d = (All-lt x xs h.0 d.0, IsAscending-of_distinct xs h.1 d.1)

  IsSorted-of_IsAscending : (l : List A) → IsAscending l → IsSorted cmp l
  IsSorted-of_IsAscending [] h = tt
  IsSorted-of_IsAscending (x ∷ xs) h = (below x xs h.0, IsSorted-of_IsAscending xs h.1)
    where
      below :
          (x : A) (l : List A)
          → All (λ y. cmp x y ≡ Ordering.lt) l
          → All (λ y. cmp x y ≢ Ordering.gt) l
      below x [] h = tt
      below x (y ∷ ys) h = (ground arith, below x ys h.1)
