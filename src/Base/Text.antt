-- ===== src/Base/Text.antt =====
-- JavaScript strings: the sequence of their UTF-16 code units. `===` and `<` on strings go unit by unit.
use Prim.Native.Nat.{ℕ, compare, Ordering}
use Prim.Native.Char.{code}
use Prim.Native.String.{String}
use mathlib.Core.Path.{◌≡◌, refl}
use mathlib.Core.Logic.{◌↔◌, ◌≢◌}
use mathlib.Core.Bool.{Bool, true, false, ◌&&◌}
use mathlib.Core.List.{List, [], ◌∷◌}
use native.Mathlib.Omega.{arith}
use mandate_x.Base.Tests.{Equality, eqb}
use mandate_x.Base.Order.{IsComparator, flip_ordering, or_else}

abbrev pub Str : Type 0
Str = List ℕ

-- The code units of an ASCII literal.
abbrev pub codes : String → Str
codes String.[] = []
codes (String.◌∷◌ c s) = code c ∷ codes s

abbrev pub str_beq : Str → Str → Bool
str_beq [] [] = true
str_beq (a ∷ s) (b ∷ t) = eqb a b && str_beq s t
str_beq _ _ = false

pub str_beq_iff : (s t : Str) → (str_beq s t ≡ true) ↔ (s ≡ t)
str_beq_iff [] [] = ground arith
str_beq_iff [] (b ∷ t) = ground arith
str_beq_iff (a ∷ s) [] = ground arith
str_beq_iff (a ∷ s) (b ∷ t) = ground (arith, str_beq_iff s t)

instance abbrev pub str_eq : Equality Str
str_eq = record { same = str_beq; same_iff = str_beq_iff }

-- How `<` and `>` order two strings.
abbrev pub order : Str → Str → Ordering
order [] [] = Ordering.eq
order [] (b ∷ t) = Ordering.lt
order (a ∷ s) [] = Ordering.gt
order (a ∷ s) (b ∷ t) = or_else (compare a b) (order s t)

order-flip : (s t : Str) → order t s ≡ flip_ordering (order s t)
order-flip [] [] = refl
order-flip [] (b ∷ t) = refl
order-flip (a ∷ s) [] = refl
order-flip (a ∷ s) (b ∷ t) = ground (arith, order-flip s t)

pub order-eq : (s t : Str) → order s t ≡ Ordering.eq → s ≡ t
order-eq [] [] h = refl
order-eq [] (b ∷ t) h = ground arith
order-eq (a ∷ s) [] h = ground arith
order-eq (a ∷ s) (b ∷ t) h = ground (arith, order-eq s t)

order_trans :
    (s t u : Str) → order s t ≡ Ordering.lt → order t u ≢ Ordering.gt → order s u ≡ Ordering.lt
order_trans [] [] u p q = ground arith
order_trans [] (b ∷ t) [] p q = ground arith
order_trans [] (b ∷ t) (c ∷ u) p q = refl
order_trans (a ∷ s) [] u p q = ground arith
order_trans (a ∷ s) (b ∷ t) [] p q = ground arith
order_trans (a ∷ s) (b ∷ t) (c ∷ u) p q = ground (arith, order_trans s t u)

pub order-IsComparator : IsComparator order
order-IsComparator = record {
  flip = order-flip;
  trans = order_trans;
  same = λ s t u h. rw (order-eq s t h);
}
