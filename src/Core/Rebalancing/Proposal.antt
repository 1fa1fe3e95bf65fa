-- ===== src/Core/Rebalancing/Proposal.antt =====
-- The range's findings are empty exactly when the proposal is the exact target range, inside the
-- approved one. That it is on the grid and holds the current tick follows.
use mandate_x.Base.{
  ℕ, ◌%◌, ◌<◌, ◌≡◌, ◌↔◌, true, false, [], arith, ℤ, pos, rem, ◌+ℤ◌, ◌-ℤ◌, ◌≤ℤ◌, +ℤ_parts, -ℤ_parts,
  eq_of_parts, eqb_ℤ_iff,
}
use mandate_x.Core.Mandate.{RebalancingPolicy}
use mandate_x.Core.Quote.{RebalancingEvidence}
use mandate_x.Core.Rebalancing.{
  range_findings, add_if, endpoints_aligned, target_width_aligned, range_outside_policy,
  target_width_mismatch,
}
use mandate_x.Core.Rebalancing.Range.{expected_lower_tick}
use mandate_x.Core.Rebalancing.Target.{IsTargetRange, expected_lower_tick-IsTargetRange}
use mandate_x.Core.Rebalancing.Spec.{RangeHolds}

module _ (e : RebalancingEvidence) (p : RebalancingPolicy) (spacing_pos : 0 < e.tick_spacing)
    (width_pos : 0 < p.target_width_ticks) where
  abbrev lower : ℤ
  lower = expected_lower_tick e.current_tick p.target_width_ticks e.tick_spacing

  difference : (a b : ℤ) (w : ℕ) → (b -ℤ a ≡ pos w) ↔ (b ≡ a +ℤ pos w)
  difference a b w = ground (
    arith,
    -ℤ_parts b a,
    +ℤ_parts a (pos w),
    eq_of_parts (b -ℤ a) (pos w),
    eq_of_parts b (a +ℤ pos w),
  )

  conditions : (range_findings e p ≡ []) ↔ (
      (endpoints_aligned e ≡ true)
      × (target_width_aligned e p ≡ true)
      × (range_outside_policy e p ≡ false)
      × (target_width_mismatch e p ≡ false))
  unfolding range_findings add_if
  conditions = ground arith

  aligned :
      (endpoints_aligned e ≡ true)
      → (rem e.current_lower_tick e.tick_spacing ≡ pos 0)
        × (rem e.current_upper_tick e.tick_spacing ≡ pos 0)
  unfolding endpoints_aligned
  aligned h = (
    ground (arith, eqb_ℤ_iff (rem e.current_lower_tick e.tick_spacing) (pos 0)),
    ground (arith, eqb_ℤ_iff (rem e.current_upper_tick e.tick_spacing) (pos 0)),
  )

  width_divides : target_width_aligned e p ≡ true → p.target_width_ticks % e.tick_spacing ≡ 0
  unfolding target_width_aligned
  width_divides h = ground arith

  exact :
      target_width_mismatch e p ≡ false
      → (e.proposed_lower_tick ≡ lower)
        × (e.proposed_upper_tick ≡ e.proposed_lower_tick +ℤ pos p.target_width_ticks)
  unfolding target_width_mismatch
  exact h = ground (
    arith,
    eqb_ℤ_iff e.proposed_lower_tick lower,
    eqb_ℤ_iff e.proposed_upper_tick (lower +ℤ pos p.target_width_ticks),
  )

  within :
      range_outside_policy e p ≡ false
      → (p.approved_lower_tick ≤ℤ e.proposed_lower_tick)
        × (e.proposed_upper_tick ≤ℤ p.approved_upper_tick)
  unfolding range_outside_policy
  within h = ground arith

  range_findings→RangeHolds : range_findings e p ≡ [] → RangeHolds e p
  range_findings→RangeHolds h =
      let (grid, width, inside, match) = conditions.0 h in
      record {
        lower_on_grid = (aligned grid).0;
        upper_on_grid = (aligned grid).1;
        width_on_grid = width_divides width;
        exact_lower = (exact match).0;
        exact_upper = (exact match).1;
        above_approved = (within inside).0;
        below_approved = (within inside).1;
      }

  target :
      RangeHolds e p
      → IsTargetRange e.current_tick lower
          (lower +ℤ pos p.target_width_ticks)
          p.target_width_ticks
          e.tick_spacing
  target r =
      expected_lower_tick-IsTargetRange e.current_tick p.target_width_ticks e.tick_spacing
        spacing_pos width_pos r.width_on_grid

  RangeHolds→range_findings : RangeHolds e p → range_findings e p ≡ []
  unfolding range_findings add_if endpoints_aligned target_width_aligned range_outside_policy
      target_width_mismatch
  RangeHolds→range_findings r =
      let t = target r in
      ground (
        arith,
        t.lower_aligned,
        t.upper_aligned,
        t.starts_below,
        t.ends_above,
        difference lower (lower +ℤ pos p.target_width_ticks) p.target_width_ticks,
        +ℤ_parts lower (pos p.target_width_ticks),
      )

  -- For a positive spacing and a positive target width, the range checks push nothing exactly when
  -- the current range and the width are on the grid and the proposal is the exact target range
  -- inside the approved one.
  pub range_findings-nil : (range_findings e p ≡ []) ↔ RangeHolds e p
  range_findings-nil = (range_findings→RangeHolds, RangeHolds→range_findings)
