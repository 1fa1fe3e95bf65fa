-- ===== src/Core/Examples/Runs.antt =====
-- Runs of Marketplace Core at fixed inputs.
use mandate_x.Base.{◌≡◌, refl, [], ◌∷◌, map, some, negsuc}
use mandate_x.Base.Sort.{sort_by, insert_by}
use mandate_x.Base.{◌+ℤ◌, ◌-ℤ◌, ◌*ℤ◌}
use mandate_x.Core.Primitives.{compare_canonical_strings}
use mandate_x.Core.Codes.{
  quote_stale, gas_budget_exceeded, identity_check_inconclusive, exclusion_name, inconclusive_name,
  unsupported_name,
}
use mandate_x.Core.Messages.{exclusion_message, inconclusive_message, unsupported_message}
use mandate_x.Core.Findings.{exclusion, inconclusive, message, key, put, unique_from, sort_findings}
use mandate_x.Core.Errors.{duplicate_candidate}
use mandate_x.Core.Candidates.{inspect_candidate_set, inspect_from}
use mandate_x.Core.Evaluate.{projection_key}
use mandate_x.Core.Rebalancing.Range.{expected_lower_tick}
use mandate_x.Core.Examples.Data.{cheap, dear}
use mandate_x.Base.{inl, inr, arith, ok}
use mandate_x.Core.Normalize.{quote_of, pricing_of, normalization_by}
use mandate_x.Core.CategoryPolicy.{category_policies}
use mandate_x.Core.Rebalancing.Spec.{IsPermitted, IsTimely}
use mandate_x.Core.Decision.{MarketplaceEligibilityDecision, eligible}
use mandate_x.Core.Decide.{decide}
use mandate_x.Core.Decide.Eligible.{decide-IsPermitted}
use mandate_x.Core.Examples.Data.{
  mandate, policy, evidence, cheap_quote, cheap_quote_valid, mandate_valid, digests,
  some_digest_valid,
}

timely : IsTimely mandate 2005 2000 300
timely = record { under_mandate = omega arith; not_future = omega arith; fresh = omega arith }

stale_message :
    message (exclusion quote_stale) ≡ "The quote observation is older than the mandate permits."
unfolding message exclusion_message inconclusive_message unsupported_message
stale_message = refl

one_candidate_twice :
    inspect_candidate_set (map projection_key (cheap ∷ dear ∷ cheap ∷ []))
    ≡ some duplicate_candidate
unfolding inspect_candidate_set inspect_from
one_candidate_twice = refl

three_findings :
    sort_findings (
      inconclusive identity_check_inconclusive
      ∷ exclusion quote_stale
      ∷ exclusion gas_budget_exceeded
      ∷ exclusion quote_stale
      ∷ [])
    ≡ exclusion gas_budget_exceeded
      ∷ exclusion quote_stale
      ∷ inconclusive identity_check_inconclusive
      ∷ []
unfolding sort_findings unique_from put sort_by insert_by key exclusion_name inconclusive_name
    unsupported_name compare_canonical_strings
three_findings = refl

range_below_zero : expected_lower_tick (negsuc 136) 200 10 ≡ negsuc 239
unfolding expected_lower_tick ◌+ℤ◌ ◌-ℤ◌ ◌*ℤ◌
range_below_zero = refl

-- The mandate permits the first quote.
cheap_quote-IsPermitted : IsPermitted mandate cheap_quote 2005
unfolding quote_of pricing_of normalization_by category_policies expected_lower_tick ◌+ℤ◌ ◌-ℤ◌ ◌*ℤ◌
cheap_quote-IsPermitted = record {
  gates = record {
    identity = refl;
    publisher = refl;
    endpoint = refl;
    task_interface = refl;
    category = refl;
    quote_completeness = refl;
  };
  lifetime = record {
    category = refl;
    mandate_id = refl;
    same_category = refl;
    mandate_live = omega arith;
    observed = timely;
    captured = omega arith;
    live = omega arith;
    within_mandate = omega arith;
    estimated = timely;
    reputed = timely;
  };
  normalized = refl;
  preview = (
    record { under_mandate = omega arith; not_future = omega arith; fresh = omega arith },
    refl,
    refl,
  );
  evidence = evidence;
  has_evidence = refl;
  policy = policy;
  has_policy = refl;
  matches = record {
    observed = timely;
    block = refl;
    block_hash = refl;
    pool = refl;
    manager = refl;
    token = refl;
    protocol = refl;
  };
  trigger = record {
    fired = refl;
    cause = inl (record { outside = inr (omega arith); reason = refl; distance = refl });
  };
  range = record {
    lower_on_grid = refl;
    upper_on_grid = refl;
    width_on_grid = refl;
    exact_lower = refl;
    exact_upper = refl;
    above_approved = omega arith;
    below_approved = omega arith;
  };
  budget = record { gas = omega arith; slippage = omega arith; exposure = omega arith };
  permissions = record {
    spend_cap = omega arith;
    live = omega arith;
    within = omega arith;
    contracts = (refl, tt);
    calls = (refl, tt);
  };
}

-- So the decision on it is eligible.
cheap_quote_eligible :
    (d : MarketplaceEligibilityDecision) × (decide digests.of_quote mandate cheap_quote 2005 ≡ ok d)
    × (d.outcome ≡ eligible)
cheap_quote_eligible =
    let (d, returned, permitted, _) =
      decide-IsPermitted digests.of_quote mandate cheap_quote 2005 mandate_valid cheap_quote_valid
        refl some_digest_valid in
    (d, returned, permitted.1 cheap_quote-IsPermitted)
