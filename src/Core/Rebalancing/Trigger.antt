-- ===== src/Core/Rebalancing/Trigger.antt =====
-- The trigger's findings are empty exactly when the trigger holds as the specification says.
use mandate_x.Base.{
  ℕ, ◌≡◌, ◌↔◌, ◌⊎◌, true, false, [], arith, ℤ, pos, min_ℤ, ◌+ℤ◌, ◌-ℤ◌, ◌≤ℤ◌, ◌<ℤ◌, +ℤ_parts,
  -ℤ_parts, eq_of_parts, eqb_ℤ_iff,
}
use mandate_x.Core.Mandate.{RebalancingPolicy}
use mandate_x.Core.Quote.{RebalancingEvidence}
use mandate_x.Core.Rebalancing.{trigger_findings, add_if}
use mandate_x.Core.Rebalancing.Range.{is_outside, boundary_distance}
use mandate_x.Core.Rebalancing.Spec.{TriggerHolds}

module _ (c l u : ℤ) (d : ℕ) where
  abbrev Reaches : Type 0
  Reaches = (l +ℤ pos d ≤ℤ c) × (c +ℤ pos d ≤ℤ u) × ((l +ℤ pos d ≡ c) ⊎ (c +ℤ pos d ≡ u))

  min_distance : (pos d ≡ min_ℤ (c -ℤ l) (u -ℤ c)) ↔ Reaches
  min_distance = ground (
    arith,
    -ℤ_parts c l,
    -ℤ_parts u c,
    +ℤ_parts l (pos d),
    +ℤ_parts c (pos d),
    eq_of_parts (l +ℤ pos d) c,
    eq_of_parts (c +ℤ pos d) u,
    eq_of_parts (pos d) (c -ℤ l),
    eq_of_parts (pos d) (u -ℤ c),
  )

  outside_cases : (is_outside c l u ≡ true) ↔ ((c <ℤ l) ⊎ (u ≤ℤ c))
  outside_cases = ground arith

  inside_cases : (is_outside c l u ≡ false) ↔ ((l ≤ℤ c) × (c <ℤ u))
  inside_cases = ground arith

-- The trigger checks push nothing exactly when the trigger has fired and either the tick has left
-- the range and the report says so, or it is in the range, the reported distance is that to the
-- nearer end, and the mandate takes so small a distance as a trigger.
pub trigger_findings-nil :
    (e : RebalancingEvidence) (p : RebalancingPolicy)
    → (trigger_findings e p ≡ []) ↔ TriggerHolds e p
unfolding trigger_findings add_if
trigger_findings-nil e p = ground (
  arith,
  min_distance e.current_tick e.current_lower_tick e.current_upper_tick
      e.trigger.distance_to_boundary_ticks,
  eqb_ℤ_iff (pos e.trigger.distance_to_boundary_ticks)
      (boundary_distance e.current_tick e.current_lower_tick e.current_upper_tick),
)
