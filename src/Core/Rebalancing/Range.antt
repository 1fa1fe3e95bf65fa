-- ===== src/Core/Rebalancing/Range.antt =====
-- The tick arithmetic of a rebalance, as tools/marketplace-core/src/evaluate.ts computes it.
use mandate_x.Base.{
  ℕ, ◌*◌, Bool, ◌||◌, if◌then◌else◌, ℤ, pos, ltb_ℤ, leb_ℤ, min_ℤ, floor_div, ◌+ℤ◌, ◌-ℤ◌, ◌*ℤ◌,
}

abbrev pub is_outside : (current lower upper : ℤ) → Bool
is_outside current lower upper = ltb_ℤ current lower || leb_ℤ upper current

abbrev pub boundary_distance : (current lower upper : ℤ) → ℤ
boundary_distance current lower upper =
    if is_outside current lower upper then pos 0 else min_ℤ (current -ℤ lower) (upper -ℤ current)

-- The lower end of the range of the target width that is centred on the current tick, on the grid.
unfoldable pub expected_lower_tick : (current_tick : ℤ) (target_width_ticks tick_spacing : ℕ) → ℤ
expected_lower_tick current_tick target_width_ticks tick_spacing =
    floor_div (pos 2 *ℤ current_tick -ℤ pos target_width_ticks +ℤ pos tick_spacing)
      (2 * tick_spacing)
    *ℤ pos tick_spacing
