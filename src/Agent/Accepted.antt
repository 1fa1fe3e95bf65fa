-- ===== src/Agent/Accepted.antt =====
-- What the agent proposes passes the checks of Marketplace Core.
use mandate_x.Base.{
  ℕ, ◌%◌, ◌<◌, ◌≡◌, refl, sym, ap, ◌∙◌, true, [], arith, if◌then◌else◌, ℤ, pos, pos_part, rem, ◌+ℤ◌,
  ◌-ℤ◌, ◌≤ℤ◌, ok, -ℤ_parts, eq_of_parts, eqb_ℤ_iff,
}
use mandate_x.Core.Mandate.{RebalancingPolicy}
use mandate_x.Core.Quote.{RebalancingEvidence, outside_current_range, near_range_boundary}
use mandate_x.Core.Rebalancing.{range_findings, trigger_findings, add_if}
use mandate_x.Core.Rebalancing.Range.{expected_lower_tick, is_outside, boundary_distance}
use mandate_x.Core.Rebalancing.Proposal.{range_findings-nil}
use mandate_x.Agent.Proposal.{
  RangePolicy, ObservedRange, ProposedRange, derive_exact_target_range, is_triggered,
  is_refused_range, propose_range,
}

-- The mandate and the evidence of Marketplace Core, as the agent sees them.
abbrev pub agent_policy : RebalancingPolicy → RangePolicy
agent_policy p = record {
  approved_lower_tick = p.approved_lower_tick;
  approved_upper_tick = p.approved_upper_tick;
  target_width_ticks = p.target_width_ticks;
  trigger_mode = p.trigger_mode;
  trigger_distance_ticks = p.trigger_distance_ticks;
}

abbrev pub agent_view : RebalancingEvidence → ObservedRange
agent_view e = record {
  current_tick = e.current_tick;
  tick_spacing = e.tick_spacing;
  position_tick_lower = e.current_lower_tick;
  position_tick_upper = e.current_upper_tick;
}

-- The evidence with what the agent proposes.
abbrev pub submitted : RebalancingEvidence → ProposedRange → RebalancingEvidence
submitted e r = record e {
  proposed_lower_tick = r.proposed_lower_tick;
  proposed_upper_tick = r.proposed_upper_tick;
  trigger = record {
    fired = true;
    reason = r.reason;
    distance_to_boundary_ticks = pos_part r.distance_to_boundary_ticks;
  };
}

exact_lower :
    (t : ℤ) (w s : ℕ) → (derive_exact_target_range t w s).lower ≡ expected_lower_tick t w s
unfolding derive_exact_target_range expected_lower_tick
exact_lower t w s = refl

exact_upper :
    (t : ℤ) (w s : ℕ) → (derive_exact_target_range t w s).upper ≡ expected_lower_tick t w s +ℤ pos w
unfolding derive_exact_target_range expected_lower_tick
exact_upper t w s = refl

distance_whole : (c l u : ℤ) → pos (pos_part (boundary_distance c l u)) ≡ boundary_distance c l u
distance_whole c l u = ground (
  arith,
  -ℤ_parts c l,
  -ℤ_parts u c,
  eq_of_parts (pos (pos_part (c -ℤ l))) (c -ℤ l),
  eq_of_parts (pos (pos_part (u -ℤ c))) (u -ℤ c),
)

module _ (e : RebalancingEvidence) (p : RebalancingPolicy) (r : ProposedRange)
    (proposes : propose_range (agent_policy p) (agent_view e) ≡ ok r) where
  accepted_range :
      (p.target_width_ticks % e.tick_spacing ≡ 0)
      × (r.proposed_lower_tick
          ≡ expected_lower_tick e.current_tick p.target_width_ticks e.tick_spacing)
      × (r.proposed_upper_tick
          ≡ expected_lower_tick e.current_tick p.target_width_ticks e.tick_spacing
            +ℤ pos p.target_width_ticks)
      × (p.approved_lower_tick ≤ℤ r.proposed_lower_tick)
      × (r.proposed_upper_tick ≤ℤ p.approved_upper_tick)
  unfolding propose_range is_refused_range
  accepted_range = ground (
    arith,
    exact_lower e.current_tick p.target_width_ticks e.tick_spacing,
    exact_upper e.current_tick p.target_width_ticks e.tick_spacing,
  )

  accepted_parts :
      (is_triggered (agent_policy p) (agent_view e) ≡ true)
      × (r.reason ≡ (
          if is_outside e.current_tick e.current_lower_tick e.current_upper_tick
          then outside_current_range
          else near_range_boundary))
      × (r.distance_to_boundary_ticks
          ≡ boundary_distance e.current_tick e.current_lower_tick e.current_upper_tick)
  unfolding propose_range
  accepted_parts = ground arith

  accepted_trigger : trigger_findings (submitted e r) p ≡ []
  unfolding trigger_findings add_if is_triggered
  accepted_trigger = ground (
    arith,
    accepted_parts,
    distance_whole e.current_tick e.current_lower_tick e.current_upper_tick,
    eqb_ℤ_iff (pos (pos_part r.distance_to_boundary_ticks))
        (boundary_distance e.current_tick e.current_lower_tick e.current_upper_tick),
  )

  -- Where the spacing and the target width are positive, the current range is on the grid and the
  -- agent proposes a range, the evidence that has that range and its trigger passes the trigger
  -- and the range checks of Marketplace Core.
  pub propose_range-accepted :
      0 < e.tick_spacing
      → 0 < p.target_width_ticks
      → rem e.current_lower_tick e.tick_spacing ≡ pos 0
      → rem e.current_upper_tick e.tick_spacing ≡ pos 0
      → (trigger_findings (submitted e r) p ≡ []) × (range_findings (submitted e r) p ≡ [])
  propose_range-accepted s w lower_on_grid upper_on_grid =
      let (divides, lower, upper, above, below) = accepted_range in
      (
        accepted_trigger,
        (range_findings-nil (submitted e r) p s w).1 (record {
          lower_on_grid = lower_on_grid;
          upper_on_grid = upper_on_grid;
          width_on_grid = divides;
          exact_lower = lower;
          exact_upper = upper ∙ ap (λ t. t +ℤ pos p.target_width_ticks) (sym lower);
          above_approved = above;
          below_approved = below;
        }),
      )
