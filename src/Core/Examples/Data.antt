-- ===== src/Core/Examples/Data.antt =====
-- A rebalancing mandate with a week to run, two projections that it permits, and one that it does not.
use mandate_x.Base.{
  ℕ, arith, ◌≡◌, refl, true, List, [], ◌∷◌, Option, none, some, Str, codes, ◌-ℤ◌, pos, negsuc,
}
use mandate_x.Core.Primitives.{
  rebalancing, pass, category_eq, compare_canonical_strings, uint256_decimal_schema,
}
use mandate_x.Core.Texts.{
  canonical_identifier_schema, protocol_id_schema, address_schema, bytes32_schema, sha256_schema,
  trimmed_schema, call_id_schema, unique_sorted_schema,
}
use mandate_x.Core.Mandate.{
  MarketplaceMandate, RebalancingPosition, RebalancingPolicy, boundary_proximity,
  marketplace_mandate_schema, mandate_fields_schema, mandate_refinement, budgets_schema,
  mandate_permissions_schema, rebalancing_position_schema, rebalancing_policy_schema,
  policy_refinement,
}
use mandate_x.Core.Quote.{
  erc8183, passed, rebalancing_evidence, RebalancingEvidence, outside_current_range,
  DisplaySafeQuoteProjection, MarketplaceQuote,
}
use mandate_x.Core.QuoteSchema.{
  display_safe_quote_projection_schema, projection_fields_schema, projection_chronology,
  candidate_schema, commitments_schema, estimates_schema, quote_permissions_schema, preview_schema,
  reputation_schema, rebalancing_evidence_schema, category_evidence_schema, preview_captured,
}
use mandate_x.Core.Normalize.{quote_of}
use mandate_x.Core.Normalize.Total.{schema_fits}
use mandate_x.Core.QuoteSchema.{marketplace_quote_schema}
use mandate_x.Core.Codes.{gas_budget_exceeded}
use mandate_x.Core.Findings.{Finding, exclusion}
use mandate_x.Core.Ranking.{RankingScore, score_of}
use mandate_x.Core.Decision.{
  score_refinement, MarketplaceEligibilityDecision, EligibilityOutcome, eligible, excluded,
}
use mandate_x.Core.Receipt.{Digests}
use mandate_x.Core.Receipt.Built.{AreDecided}
use mandate_x.Core.Ranking.Bounds.{ranking_score_schema-score_of}
use mandate_x.Core.Receipt.Total.{IsSha256}

abbrev address_a : Str
address_a = codes "0xaaaaaaaaaaaaaaaaaaaaaaaaaaaaaaaaaaaaaaaa"

abbrev address_b : Str
address_b = codes "0xbbbbbbbbbbbbbbbbbbbbbbbbbbbbbbbbbbbbbbbb"

abbrev pub some_digest : Str
some_digest = codes "0123456789abcdef0123456789abcdef0123456789abcdef0123456789abcdef"

abbrev block_hash : Str
block_hash = codes "0x0123456789abcdef0123456789abcdef0123456789abcdef0123456789abcdef"

abbrev position : RebalancingPosition
position = record { pool_address = address_a; position_manager_address = address_b; token_id = 77 }

abbrev pub policy : RebalancingPolicy
policy = record {
  position = position;
  approved_lower_tick = negsuc 999;
  approved_upper_tick = pos 1000;
  target_width_ticks = 200;
  trigger_mode = boundary_proximity;
  trigger_distance_ticks = 10;
}

abbrev pub mandate : MarketplaceMandate
mandate = record {
  mandate_id = codes "mandate-1";
  category = rebalancing;
  created_at = 1000;
  expires_at = 605800;
  max_clock_skew_seconds = 5;
  max_evidence_age_seconds = 300;
  max_preview_age_seconds = 60;
  budgets = record {
    max_agent_fee_usd_micros = 0;
    max_gas_usd_micros = 500000;
    max_slippage_bps = 50;
    max_exposure_usd_micros = 1000000000;
  };
  permissions = record {
    allowed_protocols = codes "pancakeswap-v3" ∷ [];
    allowed_contracts = address_a ∷ address_b ∷ [];
    allowed_calls = codes "collect" ∷ codes "mint" ∷ [];
    max_spend_usd_micros = 2000000;
    expires_at = 500000;
  };
  rebalancing_policy = some policy;
}

abbrev pub evidence : RebalancingEvidence
evidence = record {
  protocol = codes "pancakeswap-v3";
  position = position;
  observed_at = 2000;
  observed_block = 900;
  observed_block_hash = block_hash;
  current_tick = pos 130;
  tick_spacing = 10;
  current_lower_tick = negsuc 99;
  current_upper_tick = pos 100;
  proposed_lower_tick = pos 30;
  proposed_upper_tick = pos 230;
  trigger = record { fired = true; reason = outside_current_range; distance_to_boundary_ticks = 0 };
}

-- The projection of a candidate, by its token and its quote, with a gas estimate.
abbrev projection_with : ℕ → Str → ℕ → DisplaySafeQuoteProjection
projection_with token quote gas = record {
  captured_at = 2001;
  source_commitments = record {
    quote_validation_sha256 = some_digest;
    preview_validation_sha256 = some_digest;
  };
  quote_id = quote;
  mandate_id = codes "mandate-1";
  category = rebalancing;
  candidate = record {
    id = record { chain_id = 56; token_id = token };
    owner = address_a;
    publisher = address_b;
    task_interface = erc8183;
  };
  observed_at = 2000;
  observed_block = 900;
  observed_block_hash = block_hash;
  expires_at = 3000;
  proposed_action = codes "Move the range to 30..230";
  price = record { amount_atomic = 0; currency = address_a };
  estimates = record {
    gas_usd_micros = gas;
    slippage_bps = 20;
    exposure_usd_micros = 500000000;
    observed_at = 2000;
  };
  permissions = record {
    contracts = address_b ∷ [];
    calls = codes "mint" ∷ [];
    spend_cap_usd_micros = 1000000;
    expires_at = 400000;
  };
  verification = record {
    identity = pass;
    publisher = pass;
    endpoint = pass;
    task_interface = pass;
    category = pass;
    quote_completeness = pass;
  };
  preview = passed 2000 900 block_hash;
  reputation = record {
    score_bps = 9000;
    sample_size = 12;
    evidence_confidence_bps = 8000;
    observed_at = 2000;
  };
  category_evidence = rebalancing_evidence evidence;
}

abbrev pub cheap : DisplaySafeQuoteProjection
cheap = projection_with 7 (codes "quote-1") 100000

abbrev pub dear : DisplaySafeQuoteProjection
dear = projection_with 5 (codes "quote-2") 400000

abbrev pub over_budget : DisplaySafeQuoteProjection
over_budget = projection_with 6 (codes "quote-3") 600000

-- One text in place of every digest.
abbrev pub digests : Digests
digests = record {
  of_projection = λ _. some_digest;
  of_mandate = λ _. some_digest;
  of_quote = λ _. some_digest;
  of_quotes = λ _. some_digest;
  of_decision = λ _. some_digest;
  of_decisions = λ _. some_digest;
  of_ranking = λ _. some_digest;
  of_receipt_body = λ _. some_digest;
}

pub some_digest_valid : sha256_schema some_digest ≡ true
unfolding sha256_schema
some_digest_valid = refl

pub digests-IsSha256 : IsSha256 digests
digests-IsSha256 = record {
  of_projection = λ _. some_digest_valid;
  of_mandate = λ _. some_digest_valid;
  of_quote = λ _. some_digest_valid;
  of_quotes = λ _. some_digest_valid;
  of_decision = λ _. some_digest_valid;
  of_decisions = λ _. some_digest_valid;
  of_ranking = λ _. some_digest_valid;
  of_receipt_body = λ _. some_digest_valid;
}

pub mandate_valid : marketplace_mandate_schema mandate ≡ true
unfolding marketplace_mandate_schema mandate_fields_schema mandate_refinement budgets_schema
    mandate_permissions_schema rebalancing_position_schema rebalancing_policy_schema
    policy_refinement canonical_identifier_schema protocol_id_schema address_schema trimmed_schema
    call_id_schema unique_sorted_schema uint256_decimal_schema compare_canonical_strings ◌-ℤ◌
mandate_valid = refl

pub cheap_valid : display_safe_quote_projection_schema cheap ≡ true
unfolding display_safe_quote_projection_schema projection_fields_schema projection_chronology
    candidate_schema commitments_schema estimates_schema quote_permissions_schema preview_schema
    reputation_schema rebalancing_evidence_schema category_evidence_schema preview_captured
    rebalancing_position_schema canonical_identifier_schema protocol_id_schema address_schema
    bytes32_schema sha256_schema trimmed_schema call_id_schema unique_sorted_schema
    uint256_decimal_schema compare_canonical_strings
cheap_valid = refl

pub dear_valid : display_safe_quote_projection_schema dear ≡ true
unfolding display_safe_quote_projection_schema projection_fields_schema projection_chronology
    candidate_schema commitments_schema estimates_schema quote_permissions_schema preview_schema
    reputation_schema rebalancing_evidence_schema category_evidence_schema preview_captured
    rebalancing_position_schema canonical_identifier_schema protocol_id_schema address_schema
    bytes32_schema sha256_schema trimmed_schema call_id_schema unique_sorted_schema
    uint256_decimal_schema compare_canonical_strings
dear_valid = refl

pub over_budget_valid : display_safe_quote_projection_schema over_budget ≡ true
unfolding display_safe_quote_projection_schema projection_fields_schema projection_chronology
    candidate_schema commitments_schema estimates_schema quote_permissions_schema preview_schema
    reputation_schema rebalancing_evidence_schema category_evidence_schema preview_captured
    rebalancing_position_schema canonical_identifier_schema protocol_id_schema address_schema
    bytes32_schema sha256_schema trimmed_schema call_id_schema unique_sorted_schema
    uint256_decimal_schema compare_canonical_strings
over_budget_valid = refl

abbrev pub cheap_quote : MarketplaceQuote
cheap_quote = quote_of digests.of_projection cheap

abbrev pub dear_quote : MarketplaceQuote
dear_quote = quote_of digests.of_projection dear

pub cheap_quote_valid : marketplace_quote_schema cheap_quote ≡ true
cheap_quote_valid = schema_fits digests.of_projection cheap some_digest_valid cheap_valid

-- The decisions on the quotes of three candidates, in the order of their tokens.
abbrev decision_with :
    ℕ
    → Str
    → EligibilityOutcome
    → List Finding
    → Option RankingScore
    → MarketplaceEligibilityDecision
decision_with token quote outcome findings score = record {
  mandate_id = mandate.mandate_id;
  evaluated_at = 2005;
  quote_id = quote;
  candidate = record {
    id = record { chain_id = 56; token_id = token };
    owner = address_a;
    publisher = address_b;
    task_interface = erc8183;
  };
  quote_sha256 = some_digest;
  outcome = outcome;
  findings = findings;
  score = score;
}

abbrev pub cheap_decision : MarketplaceEligibilityDecision
cheap_decision =
    decision_with 7 (codes "quote-1") eligible [] (some (score_of mandate cheap_quote 2005))

pub cheap_AreDecided : AreDecided (cheap_quote ∷ []) (cheap_decision ∷ [])
unfolding quote_of canonical_identifier_schema candidate_schema address_schema
    uint256_decimal_schema score_refinement
cheap_AreDecided = record {
  valid_quotes = (cheap_quote_valid, tt);
  referable = (
    record {
      quote_id = refl;
      candidate = refl;
      score = ranking_score_schema-score_of mandate cheap_quote 2005;
      consistent = refl;
    },
    tt,
  );
  in_order = refl;
  limit = omega arith;
  candidates = (tt, tt);
  quote_ids = (tt, tt);
}

abbrev pub decisions : List MarketplaceEligibilityDecision
decisions =
    decision_with 5 (codes "quote-2") eligible [] (some (score_of mandate dear_quote 2005))
    ∷ decision_with 6 (codes "quote-3") excluded (exclusion gas_budget_exceeded ∷ []) none
    ∷ cheap_decision
    ∷ []
