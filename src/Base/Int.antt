-- ===== src/Base/Int.antt =====
-- Signed integers over the native numbers, under the library's names (its ℤ stands on the unary ℕ).
use Prim.Native.Nat.{ℕ, zero, suc, ◌+◌, ◌-◌, ◌*◌, ◌/◌, ◌%◌, ◌≤◌, ◌<◌}
use mathlib.Core.Path.{◌≡◌, refl, ap}
use native.Mathlib.Nat.{mul-mod_left, mod-add-div'}
use mathlib.Core.Logic.{◌↔◌}
use mathlib.Core.Bool.{Bool, true}
use native.Mathlib.Omega.{arith}
use mandate_x.Base.Tests.{ltb, leb, eqb, if◌then◌else◌, Equality}

-- `negsuc n` is -(n + 1).
pub data ℤ : Type 0 where
  pos : ℕ → ℤ
  negsuc : ℕ → ℤ

abbrev pub pos_part : ℤ → ℕ
pos_part (pos n) = n
pos_part (negsuc n) = 0

abbrev pub neg_part : ℤ → ℕ
neg_part (pos n) = 0
neg_part (negsuc n) = suc n

-- a - b, as an integer.
abbrev pub sub_ℕ : ℕ → ℕ → ℤ
sub_ℕ a b = if leb b a then pos (a - b) else negsuc (b - a - 1)

infixl 65 ◌+ℤ◌ ◌-ℤ◌
infixl 70 ◌*ℤ◌
infix 50 ◌≤ℤ◌ ◌<ℤ◌
unfoldable pub ◌+ℤ◌ : ℤ → ℤ → ℤ
a +ℤ b = sub_ℕ (pos_part a + pos_part b) (neg_part a + neg_part b)

unfoldable pub ◌-ℤ◌ : ℤ → ℤ → ℤ
a -ℤ b = sub_ℕ (pos_part a + neg_part b) (neg_part a + pos_part b)

unfoldable pub ◌*ℤ◌ : ℤ → ℤ → ℤ
a *ℤ b =
    sub_ℕ (pos_part a * pos_part b + neg_part a * neg_part b)
      (pos_part a * neg_part b + neg_part a * pos_part b)

abbrev pub ◌≤ℤ◌ : ℤ → ℤ → Type 0
a ≤ℤ b = pos_part a + neg_part b ≤ pos_part b + neg_part a

abbrev pub ◌<ℤ◌ : ℤ → ℤ → Type 0
a <ℤ b = pos_part a + neg_part b < pos_part b + neg_part a

abbrev pub ltb_ℤ : ℤ → ℤ → Bool
ltb_ℤ a b = ltb (pos_part a + neg_part b) (pos_part b + neg_part a)

abbrev pub leb_ℤ : ℤ → ℤ → Bool
leb_ℤ a b = leb (pos_part a + neg_part b) (pos_part b + neg_part a)

abbrev pub eqb_ℤ : ℤ → ℤ → Bool
eqb_ℤ a b = eqb (pos_part a + neg_part b) (pos_part b + neg_part a)

-- `Math.min` and `Math.abs`
abbrev pub min_ℤ : ℤ → ℤ → ℤ
min_ℤ a b = if leb_ℤ a b then a else b

abbrev pub abs : ℤ → ℕ
abs a = pos_part a + neg_part a

abbrev pub negate : ℕ → ℤ
negate zero = pos 0
negate (suc n) = negsuc n

-- `Math.floor(a / d)` for a positive `d`
abbrev pub floor_div : ℤ → ℕ → ℤ
floor_div (pos n) d = pos (n / d)
floor_div (negsuc n) d = negsuc (n / d)

-- `a % d` of JavaScript for a positive `d`: the remainder has the sign of `a`
abbrev pub rem : ℤ → ℕ → ℤ
rem (pos n) d = pos (n % d)
rem (negsuc n) d = negate (suc n % d)

-- One lemma for each operation lets `omega` work with the operations shut, at any depth.
pub +ℤ_parts :
    (a b : ℤ)
    → pos_part (a +ℤ b) + neg_part a + neg_part b ≡ neg_part (a +ℤ b) + pos_part a + pos_part b
unfolding ◌+ℤ◌
+ℤ_parts a b = ground arith

pub -ℤ_parts :
    (a b : ℤ)
    → pos_part (a -ℤ b) + neg_part a + pos_part b ≡ neg_part (a -ℤ b) + pos_part a + neg_part b
unfolding ◌-ℤ◌
-ℤ_parts a b = ground arith

pub eq_of_parts : (a b : ℤ) → pos_part a + neg_part b ≡ pos_part b + neg_part a → a ≡ b
eq_of_parts a b h = ground arith

pub eqb_ℤ_iff : (a b : ℤ) → (eqb_ℤ a b ≡ true) ↔ (a ≡ b)
eqb_ℤ_iff a b = ground arith

pub ltb_ℤ_iff : (a b : ℤ) → (ltb_ℤ a b ≡ true) ↔ (a <ℤ b)
ltb_ℤ_iff a b = ground arith

pub ruleset int_laws = (arith, +ℤ_parts, -ℤ_parts, eq_of_parts)

instance abbrev pub int_eq : Equality ℤ
int_eq = record { same = eqb_ℤ; same_iff = eqb_ℤ_iff }

-- Multiples of a natural number, through the multiples of the two parts.
pub *ℤ_parts :
    (a : ℤ) (s : ℕ)
    → pos_part (a *ℤ pos s) + neg_part a * s ≡ neg_part (a *ℤ pos s) + pos_part a * s
unfolding ◌*ℤ◌
*ℤ_parts (pos n) s = ground arith
*ℤ_parts (negsuc n) s = ground arith

nat_floor : (n d : ℕ) → 0 < d → (n / d * d ≤ n) × (n < n / d * d + d)
nat_floor n d h = (grind arith, grind arith)

negate_parts : (n : ℕ) → (pos_part (negate n) ≡ 0) × (neg_part (negate n) ≡ n)
negate_parts zero = (refl, refl)
negate_parts (suc n) = (refl, refl)

-- `floor_div a d` is the integer `k` with `k * d ≤ a < k * d + d`.
pub floor_div_bounds :
    (a : ℤ) (d : ℕ)
    → 0 < d
    → (pos_part (floor_div a d) * d + neg_part a ≤ pos_part a + neg_part (floor_div a d) * d)
      × (pos_part a + neg_part (floor_div a d) * d < pos_part (floor_div a d) * d + d + neg_part a)
floor_div_bounds (pos n) d h = (omega (arith, nat_floor n d h), omega (arith, nat_floor n d h))
floor_div_bounds (negsuc n) d h = (omega (arith, nat_floor n d h), omega (arith, nat_floor n d h))

rem-pos : (n s : ℕ) → n % s ≡ 0 → rem (pos n) s ≡ pos 0
rem-pos n s h = rw h

rem-negate : (n s : ℕ) → n % s ≡ 0 → rem (negate n) s ≡ pos 0
rem-negate zero s h = rw h
rem-negate (suc n) s h = rw h

pos-*ℤ : (n s : ℕ) → pos n *ℤ pos s ≡ pos (n * s)
unfolding ◌*ℤ◌
pos-*ℤ n s = ground arith

negsuc-*ℤ : (n s : ℕ) → negsuc n *ℤ pos s ≡ negate (suc n * s)
negsuc-*ℤ n s = eq_of_parts _ _ (ground (arith, *ℤ_parts (negsuc n) s, negate_parts (suc n * s)))

-- A multiple leaves no remainder.
pub rem-multiple : (a : ℤ) (s : ℕ) → rem (a *ℤ pos s) s ≡ pos 0
rem-multiple (pos n) s = rw pos-*ℤ (rem-pos (n * s) s (mul-mod_left n s))
rem-multiple (negsuc n) s = rw negsuc-*ℤ (rem-negate (suc n * s) s (mul-mod_left (suc n) s))

pub *ℤ-add : (a b : ℤ) (s : ℕ) → a *ℤ pos s +ℤ b *ℤ pos s ≡ (a +ℤ b) *ℤ pos s
*ℤ-add a b s = eq_of_parts _ _ (
    omega (
      arith,
      +ℤ_parts (a *ℤ pos s) (b *ℤ pos s),
      *ℤ_parts a s,
      *ℤ_parts b s,
      *ℤ_parts (a +ℤ b) s,
      ap (λ (t : ℕ). t * s) (+ℤ_parts a b),
    ))

-- A number with no remainder is a multiple.
pub pos_multiple : (w s : ℕ) → w % s ≡ 0 → pos w ≡ pos (w / s) *ℤ pos s
pos_multiple w s h = rw pos-*ℤ (ap pos (omega (arith, mod-add-div' w s)))
