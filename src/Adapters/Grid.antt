-- ===== src/Adapters/Grid.antt =====
-- tools/category-adapters/src/grid.ts: `evaluateGrid`, with its configuration of policy.ts.
pub mod Verdict
use mandate_x.Base.{
  ℕ, Bool, true, false, not, ◌&&◌, ◌||◌, [], ◌∷◌, Option, none, some, ltb, Str, codes, ℤ, pos,
  negsuc, leb_ℤ, ltb_ℤ, if◌then◌else◌, Result, ok, err, ◌>>=◌, refuse_if,
}
use mandate_x.Core.Texts.{address_schema}
use mandate_x.Adapters.{
  AdapterResult, pass, fail, unknown, AdapterError, config_invalid, evidence_invalid,
  grid_spot_outside_band, read_unavailable, read_returndata_malformed, grid_tick_uninterpretable,
  grid_sqrt_price_implausible, CallOutcome, PinnedBlockReader,
}
use mandate_x.Adapters.Abi.{uint160_max, word_count, decode_uint256, decode_int24}
use mandate_x.Adapters.Evidence.{GridEvidence, grid_evidence_schema, evidence_tick_schema}

abbrev pub v3_min_sqrt_ratio : ℕ
v3_min_sqrt_ratio = 4295128739

abbrev pub v3_max_sqrt_ratio : ℕ
v3_max_sqrt_ratio = 1461446703485210103287273052203988822378723970342

pub record GridConfig : Type 0 where
  pub pool_address : Str
  pub lower_tick : ℤ
  pub upper_tick : ℤ

unfoldable pub grid_config_schema : GridConfig → Bool
grid_config_schema c =
    address_schema c.pool_address
    && evidence_tick_schema c.lower_tick
    && evidence_tick_schema c.upper_tick
    && ltb_ℤ c.lower_tick c.upper_tick

abbrev pub is_plausible_price : ℕ → Bool
is_plausible_price p = not (ltb uint160_max p || ltb p v3_min_sqrt_ratio || ltb v3_max_sqrt_ratio p)

abbrev pub is_plausible_tick : ℤ → Bool
is_plausible_tick t = not (ltb_ℤ t (negsuc 887271) || ltb_ℤ (pos 887272) t)

abbrev pub is_inside : GridConfig → ℤ → Bool
is_inside c t = leb_ℤ c.lower_tick t && leb_ℤ t c.upper_tick

abbrev pub grid_evidence : GridConfig → PinnedBlockReader → CallOutcome → ℕ → ℤ → GridEvidence
grid_evidence c reader outcome price tick = record {
  observed = reader.anchor;
  pool_address = c.pool_address;
  lower_tick = c.lower_tick;
  upper_tick = c.upper_tick;
  spot_tick = tick;
  sqrt_price_x96 = price;
  reads = outcome.observation ∷ [];
}

-- With the price and the tick that were decoded.
unfoldable pub judge_grid :
    GridConfig
    → PinnedBlockReader
    → CallOutcome
    → ℕ
    → ℤ
    → Result AdapterError (AdapterResult GridEvidence)
judge_grid c reader outcome price tick =
    if not (is_plausible_price price)
    then ok (unknown grid_sqrt_price_implausible)
    else if not (is_plausible_tick tick)
    then ok (unknown grid_tick_uninterpretable)
    else (refuse_if (not (grid_evidence_schema (grid_evidence c reader outcome price tick)))
          evidence_invalid
        >>= λ _. ok (
            if is_inside c tick
            then pass (grid_evidence c reader outcome price tick)
            else fail grid_spot_outside_band))

-- `words === undefined || words < minimum`
abbrev pub is_short : ℕ → Option ℕ → Bool
is_short minimum none = true
is_short minimum (some words) = ltb words minimum

unfoldable pub read_grid :
    GridConfig → PinnedBlockReader → CallOutcome → Result AdapterError (AdapterResult GridEvidence)
read_grid c reader outcome =
    if is_short 2 (word_count outcome.data_hex)
    then ok (unknown read_returndata_malformed)
    else elim (decode_uint256 outcome.data_hex 0) [
      | none ↦ ok (unknown read_returndata_malformed)
      | some price ↦ elim (decode_int24 outcome.data_hex 1) [
        | none ↦ ok (unknown grid_tick_uninterpretable)
        | some tick ↦ judge_grid c reader outcome price tick
      ]
    ]

unfoldable pub evaluate_grid :
    GridConfig → PinnedBlockReader → Result AdapterError (AdapterResult GridEvidence)
evaluate_grid c reader = refuse_if (not (grid_config_schema c)) config_invalid >>= λ _.
    elim (reader.call (codes "slot0") c.pool_address (codes "0x3850c7bd")) [
      | none ↦ ok (unknown read_unavailable)
      | some outcome ↦ read_grid c reader outcome
    ]
