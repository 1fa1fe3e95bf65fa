-- ===== src/Agent/Proposal.antt =====
-- agents/mandaterebalance/app/agent/src/rebalance.ts: the range and the trigger of `buildProposal`. The
-- modes of a trigger are those of the mandate of Marketplace Core.
use mandate_x.Base.{
  ℕ, ◌*◌, ◌%◌, Bool, true, false, not, ◌&&◌, ◌||◌, eqb, if◌then◌else◌, ℤ, pos, negsuc, ltb_ℤ, leb_ℤ,
  min_ℤ, floor_div, ◌+ℤ◌, ◌-ℤ◌, ◌*ℤ◌, Result, ok, err,
}
use mandate_x.Core.Mandate.{TriggerMode, out_of_range, boundary_proximity}
use mandate_x.Core.Quote.{TriggerReason, outside_current_range, near_range_boundary}

-- `mandate.range_policy`
pub record RangePolicy : Type 0 where
  pub approved_lower_tick : ℤ
  pub approved_upper_tick : ℤ
  pub target_width_ticks : ℕ
  pub trigger_mode : TriggerMode
  pub trigger_distance_ticks : ℕ

-- The ticks of the evidence.
pub record ObservedRange : Type 0 where
  pub current_tick : ℤ
  pub tick_spacing : ℕ
  pub position_tick_lower : ℤ
  pub position_tick_upper : ℤ

pub record ProposedRange : Type 0 where
  pub proposed_lower_tick : ℤ
  pub proposed_upper_tick : ℤ
  pub reason : TriggerReason
  pub distance_to_boundary_ticks : ℤ

pub data RefusalCode : Type 0 where
  rebalance_not_triggered range_outside_mandate : RefusalCode

pub record ExactRange : Type 0 where
  pub lower : ℤ
  pub upper : ℤ

unfoldable pub derive_exact_target_range : ℤ → ℕ → ℕ → ExactRange
derive_exact_target_range current_tick target_width_ticks tick_spacing =
    let lower =
      floor_div (pos 2 *ℤ current_tick -ℤ pos target_width_ticks +ℤ pos tick_spacing)
        (2 * tick_spacing)
      *ℤ pos tick_spacing in
    record { lower = lower; upper = lower +ℤ pos target_width_ticks }

abbrev has_left : ObservedRange → Bool
has_left o =
    ltb_ℤ o.current_tick o.position_tick_lower || leb_ℤ o.position_tick_upper o.current_tick

abbrev distance_of : ObservedRange → ℤ
distance_of o =
    if has_left o
    then pos 0
    else min_ℤ (o.current_tick -ℤ o.position_tick_lower) (o.position_tick_upper -ℤ o.current_tick)

abbrev is_boundary_proximity : TriggerMode → Bool
is_boundary_proximity boundary_proximity = true
is_boundary_proximity out_of_range = false

unfoldable pub is_triggered : RangePolicy → ObservedRange → Bool
is_triggered p o =
    has_left o
    || is_boundary_proximity p.trigger_mode && leb_ℤ (distance_of o) (pos p.trigger_distance_ticks)

-- The tests of the target range, with MIN_TICK and MAX_TICK.
unfoldable pub is_refused_range : RangePolicy → ObservedRange → ExactRange → Bool
is_refused_range p o r =
    ltb_ℤ r.lower (negsuc 887271)
    || ltb_ℤ (pos 887272) r.upper
    || ltb_ℤ r.lower p.approved_lower_tick
    || ltb_ℤ p.approved_upper_tick r.upper
    || ltb_ℤ o.current_tick r.lower
    || leb_ℤ r.upper o.current_tick

abbrev pub proposed : ObservedRange → ExactRange → ProposedRange
proposed o r = record {
  proposed_lower_tick = r.lower;
  proposed_upper_tick = r.upper;
  reason = if has_left o then outside_current_range else near_range_boundary;
  distance_to_boundary_ticks = distance_of o;
}

-- What `buildProposal` does once the limits and permissions of the mandate have passed.
unfoldable pub propose_range : RangePolicy → ObservedRange → Result RefusalCode ProposedRange
propose_range p o =
    let exact_range =
      derive_exact_target_range o.current_tick p.target_width_ticks o.tick_spacing in
    if not (is_triggered p o)
    then err rebalance_not_triggered
    else if not (eqb (p.target_width_ticks % o.tick_spacing) 0)
    then err range_outside_mandate
    else if is_refused_range p o exact_range
    then err range_outside_mandate
    else ok (proposed o exact_range)
