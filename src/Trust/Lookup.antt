-- ===== src/Trust/Lookup.antt =====
-- Finding a record by its name: `find`, and `new Map(entries).get`, where a later entry takes the
-- place of an earlier one of the same key.
use mandate_x.Base.{
  ◌≡◌, ◌≢◌, refl, sym, ap, Bool-cases, inl, inr, Bool, true, false, List, [], ◌∷◌, Option, none,
  some, All, any, includes, Str, str_eq, str_beq_iff, ◌==◌, arith, if◌then◌else◌,
}

module _ {ℓ} {A : Type ℓ} where
  unfoldable pub find : (A → Bool) → List A → Option A
  find p [] = none
  find p (x ∷ xs) = let rest = find p xs in if p x then some x else rest

  unfoldable pub map_get : (A → Str) → Str → List A → Option A
  map_get key k [] = none
  map_get key k (x ∷ xs) = elim (map_get key k xs) [
    | some y ↦ some y
    | none ↦ if key x == k then some x else none
  ]

  abbrev pub is_some : Option A → Bool
  is_some none = false
  is_some (some _) = true

  abbrev pub holds_for : (A → Bool) → Option A → Bool
  holds_for p none = false
  holds_for p (some a) = p a

  -- An entry is found exactly when some entry is of the name.
  pub map_get-is_some :
      (key : A → Str) (k : Str) (l : List A) → is_some (map_get key k l) ≡ any (λ a. key a == k) l
  unfolding map_get
  map_get-is_some key k [] = refl
  map_get-is_some key k (x ∷ xs) = ground (arith, map_get-is_some key k xs)

  pub find-is_some : (p : A → Bool) (l : List A) → is_some (find p l) ≡ any p l
  unfolding find
  find-is_some p [] = refl
  find-is_some p (x ∷ xs) = ground (arith, find-is_some p xs)

  -- What is found has the name, and all that holds of the list.
  pub All-map_get {κ} :
      (P : A → Type κ) (key : A → Str) (k : Str) (l : List A) (a : A)
      → All P l
      → map_get key k l ≡ some a
      → P a × (key a ≡ k)
  unfolding map_get
  All-map_get P key k [] a h e = cc
  All-map_get P key k (x ∷ xs) a h e =
      ground (arith, All-map_get P key k xs a h.1, str_beq_iff (key x) k)

  pub All-find {κ} :
      (P : A → Type κ) (p : A → Bool) (l : List A) (a : A)
      → All P l
      → find p l ≡ some a
      → P a × (p a ≡ true)
  unfolding find
  All-find P p [] a h e = cc
  All-find P p (x ∷ xs) a h e = ground (arith, All-find P p xs a h.1)

  pub find-true : (p : A → Bool) (l : List A) (a : A) → find p l ≡ some a → p a ≡ true
  unfolding find
  find-true p [] a e = cc
  find-true p (x ∷ xs) a e = ground (arith, find-true p xs a)

  -- Where each name of a list is kept, so is any name that the list has.
  pub any-kept :
      (key : A → Str) (name : Str) (old new : List A)
      → All (λ a. any (λ b. key b == key a) new ≡ true) old
      → any (λ a. key a == name) old ≡ true
      → any (λ b. key b == name) new ≡ true
  any-kept key name [] new h e = cc
  any-kept key name (a ∷ old) new h e = elim (Bool-cases (key a == name)) [
    | inl same ↦ rw (sym ((str_beq_iff (key a) name).0 same)) h.0
    | inr other ↦ any-kept key name old new h.1 (ground (arith, e))
  ]

  -- A name that no element may have is the name of none.
  pub All-unnamed :
      (key : A → Str) (is_taken : Str → Bool) (name : Str) (l : List A)
      → is_taken name ≡ true
      → All (λ a. is_taken (key a) ≡ false) l
      → All (λ a. key a ≢ name) l
  All-unnamed key is_taken name [] taken h = tt
  All-unnamed key is_taken name (a ∷ l) taken h =
      (λ e. ground (arith, ap is_taken e, h.0, taken), All-unnamed key is_taken name l taken h.1)

-- Membership by the equality of strings is `any`.
pub includes-any : (a : Str) (l : List Str) → includes a l ≡ any (λ x. x == a) l
includes-any a [] = refl
includes-any a (x ∷ xs) = ground (arith, includes-any a xs)
