-- ===== src/Agent/Complete.antt =====
-- When the agent proposes a range.
use mandate_x.Base.{◌%◌, ◌<◌, ◌≡◌, ◌↔◌, true, arith, pos, negsuc, ◌≤ℤ◌, ◌<ℤ◌, ok}
use mandate_x.Core.Rebalancing.Range.{expected_lower_tick}
use mandate_x.Core.Rebalancing.Target.{expected_lower_tick-IsTargetRange}
use mandate_x.Agent.Proposal.{
  RangePolicy, ObservedRange, ExactRange, derive_exact_target_range, is_triggered, is_refused_range,
  proposed, propose_range,
}

module _ (p : RangePolicy) (o : ObservedRange) where
  abbrev pub exact_range : ExactRange
  exact_range = derive_exact_target_range o.current_tick p.target_width_ticks o.tick_spacing

  contains_tick :
      0 < o.tick_spacing
      → 0 < p.target_width_ticks
      → p.target_width_ticks % o.tick_spacing ≡ 0
      → (exact_range.lower ≤ℤ o.current_tick) × (o.current_tick <ℤ exact_range.upper)
  unfolding derive_exact_target_range expected_lower_tick
  contains_tick s w d =
      let range =
        expected_lower_tick-IsTargetRange o.current_tick p.target_width_ticks o.tick_spacing s w
          d in
      (range.starts_below, range.ends_above)

  -- The limits that the target range has to keep.
  pub record KeepsLimits : Type 0 where
    pub divides : p.target_width_ticks % o.tick_spacing ≡ 0
    pub least : negsuc 887271 ≤ℤ exact_range.lower
    pub greatest : exact_range.upper ≤ℤ pos 887272
    pub above_approved : p.approved_lower_tick ≤ℤ exact_range.lower
    pub below_approved : exact_range.upper ≤ℤ p.approved_upper_tick

  -- Where the spacing and the target width are positive, the agent proposes the exact target range
  -- exactly when the trigger holds, the spacing divides the width and the range is within the tick
  -- limits and the approved range: its tests that the range contains the current tick refuse
  -- nothing.
  pub propose_range-KeepsLimits :
      0 < o.tick_spacing
      → 0 < p.target_width_ticks
      → (propose_range p o ≡ ok (proposed o exact_range))
        ↔ ((is_triggered p o ≡ true) × KeepsLimits)
  unfolding propose_range is_refused_range
  propose_range-KeepsLimits s w = ground (arith, contains_tick s w)
