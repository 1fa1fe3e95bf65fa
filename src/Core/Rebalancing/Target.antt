-- ===== src/Core/Rebalancing/Target.antt =====
-- The exact target range: it is on the grid, of the target width, and holds the current tick.
use mandate_x.Base.{
  ℕ, ◌+◌, ◌*◌, ◌/◌, ◌%◌, ◌≤◌, ◌<◌, ◌≡◌, refl, ap, sym, ◌∙◌, subst, arith, ℤ, pos, pos_part,
  neg_part, rem, floor_div, ◌+ℤ◌, ◌-ℤ◌, ◌*ℤ◌, ◌≤ℤ◌, ◌<ℤ◌, +ℤ_parts, -ℤ_parts, *ℤ_parts,
  floor_div_bounds, rem-multiple, *ℤ-add, pos_multiple,
}
use mandate_x.Core.Rebalancing.Range.{expected_lower_tick}

-- A range of the given width, on the grid of the given spacing, that holds the tick.
pub record IsTargetRange (tick lower upper : ℤ) (width spacing : ℕ) : Type 0 where
  pub lower_aligned : rem lower spacing ≡ pos 0
  pub upper_aligned : rem upper spacing ≡ pos 0
  pub has_width : lower +ℤ pos width ≡ upper
  pub starts_below : lower ≤ℤ tick
  pub ends_above : tick <ℤ upper
  -- twice the distance of the middle of the range from the tick is at most the spacing
  pub centred_below : pos 2 *ℤ tick ≤ℤ lower +ℤ upper +ℤ pos spacing
  pub centred_above : lower +ℤ upper ≤ℤ pos 2 *ℤ tick +ℤ pos spacing

double_parts :
    (a : ℤ) → pos_part (pos 2 *ℤ a) + 2 * neg_part a ≡ neg_part (pos 2 *ℤ a) + 2 * pos_part a
unfolding ◌*ℤ◌
double_parts a = ground arith

width_le : (w s : ℕ) → 0 < w → w % s ≡ 0 → 0 < s → s ≤ w
width_le w s h k p = grind arith

ruleset range_facts = (+ℤ_parts, -ℤ_parts)

module _ (tick : ℤ) (width spacing : ℕ) (positive : 0 < spacing) where
  abbrev numerator : ℤ
  numerator = pos 2 *ℤ tick -ℤ pos width +ℤ pos spacing

  -- 2 * lower <= 2 * tick - width + spacing < 2 * lower + 2 * spacing
  lower_bounds :
      (pos_part numerator + 2 * neg_part (expected_lower_tick tick width spacing)
        < 2 * pos_part (expected_lower_tick tick width spacing) + 2 * spacing + neg_part numerator)
      × (2 * pos_part (expected_lower_tick tick width spacing) + neg_part numerator
          ≤ pos_part numerator + 2 * neg_part (expected_lower_tick tick width spacing))
  unfolding expected_lower_tick
  lower_bounds =
      let k = floor_div numerator (2 * spacing) in
      let bounds = floor_div_bounds numerator (2 * spacing) (omega arith) in
      (omega (arith, bounds, *ℤ_parts k spacing), omega (arith, bounds, *ℤ_parts k spacing))

  lower_aligned : rem (expected_lower_tick tick width spacing) spacing ≡ pos 0
  unfolding expected_lower_tick
  lower_aligned = rem-multiple _ spacing

  upper_aligned :
      width % spacing ≡ 0
      → rem (expected_lower_tick tick width spacing +ℤ pos width) spacing ≡ pos 0
  unfolding expected_lower_tick
  upper_aligned divides =
      let k = floor_div numerator (2 * spacing) in
      subst (λ u. rem u spacing ≡ pos 0)
        (sym (*ℤ-add k (pos (width / spacing)) spacing)
          ∙ ap (λ u. k *ℤ pos spacing +ℤ u) (sym (pos_multiple width spacing divides)))
        (rem-multiple (k +ℤ pos (width / spacing)) spacing)

  -- For a positive spacing and a positive width that it divides, the range of that width from the
  -- expected lower tick is on the grid, contains the current tick, and has its middle within half
  -- a spacing of it.
  pub expected_lower_tick-IsTargetRange :
      0 < width
      → width % spacing ≡ 0
      → IsTargetRange tick
          (expected_lower_tick tick width spacing)
          (expected_lower_tick tick width spacing +ℤ pos width)
          width
          spacing
  expected_lower_tick-IsTargetRange h divides =
      let fits = width_le width spacing h divides positive in
      record {
        lower_aligned = lower_aligned;
        upper_aligned = upper_aligned divides;
        has_width = refl;
        starts_below = omega (arith, range_facts, lower_bounds, double_parts);
        ends_above = omega (arith, range_facts, lower_bounds, double_parts);
        centred_below = omega (arith, range_facts, lower_bounds, double_parts);
        centred_above = omega (arith, range_facts, lower_bounds, double_parts);
      }
