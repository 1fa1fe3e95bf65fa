-- ===== src/Base/Order.antt =====
-- Comparators, as `Array.prototype.sort` takes them, and the sort itself. Of the number that a
-- comparator returns the sort reads the sign alone: `lt` for a negative one.
use Prim.Native.Nat.{ℕ, compare, Ordering}
use mathlib.Core.Path.{◌≡◌}
use mathlib.Core.Logic.{◌≢◌}
use native.Mathlib.Omega.{arith}

abbrev pub flip_ordering : Ordering → Ordering
flip_ordering Ordering.lt = Ordering.gt
flip_ordering Ordering.eq = Ordering.eq
flip_ordering Ordering.gt = Ordering.lt

-- `byA !== 0 ? byA : byB`
abbrev pub or_else : Ordering → Ordering → Ordering
or_else Ordering.eq b = b
or_else Ordering.lt _ = Ordering.lt
or_else Ordering.gt _ = Ordering.gt

module _ {ℓ} {A : Type ℓ} where
  pub record IsComparator (cmp : A → A → Ordering) : Type ℓ where
    pub flip : (a b : A) → cmp b a ≡ flip_ordering (cmp a b)
    pub trans : (a b c : A) → cmp a b ≡ Ordering.lt → cmp b c ≢ Ordering.gt → cmp a c ≡ Ordering.lt
    pub same : (a b c : A) → cmp a b ≡ Ordering.eq → cmp a c ≡ cmp b c

pub compare-IsComparator : IsComparator {A = ℕ} compare
compare-IsComparator = record {
  flip = λ a b. ground arith;
  trans = λ a b c p q. ground arith;
  same = λ a b c p. ground arith;
}

-- Comparing by one key and, where that does not decide, by another.
module _ {ℓ} {A : Type ℓ} {first second : A → A → Ordering} where
  pub or_else-IsComparator :
      IsComparator first
      → IsComparator second
      → IsComparator (λ a b. or_else (first a b) (second a b))
  or_else-IsComparator f s = record {
    flip = λ a b. ground (arith, f.flip a b, s.flip a b);
    trans = λ a b c p q. ground (
      arith,
      f.flip a b,
      f.flip b c,
      f.trans a b c,
      f.same a b c,
      f.same c b a,
      f.flip a c,
      s.trans a b c,
    );
    same = λ a b c p. ground (arith, f.same a b c, s.same a b c);
  }

pub on_key-IsComparator {ℓ κ} :
    {A : Type ℓ} {K : Type κ} {cmp : K → K → Ordering} (key : A → K)
    → IsComparator cmp
    → IsComparator (λ a b. cmp (key a) (key b))
on_key-IsComparator key c = record {
  flip = λ a b. c.flip (key a) (key b);
  trans = λ x y z. c.trans (key x) (key y) (key z);
  same = λ x y z. c.same (key x) (key y) (key z);
}

-- `right.key - left.key`
pub descending-IsComparator {ℓ} :
    {A : Type ℓ} {cmp : A → A → Ordering} → IsComparator cmp → IsComparator (λ a b. cmp b a)
descending-IsComparator c = record {
  flip = λ a b. c.flip b a;
  trans = λ x y z p q.
      ground (arith, c.flip x y, c.flip y z, c.flip x z, c.trans z y x, c.same z y x, c.flip y x);
  same = λ x y z p. ground (arith, c.flip x y, c.same y x z, c.flip y z, c.flip x z, c.same x y z);
}
