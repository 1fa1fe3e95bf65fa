-- ===== src/Adapters/Health.antt =====
-- tools/category-adapters/src/health.ts: `evaluateHealth`, with its configuration of policy.ts.
pub mod Verdict
use mandate_x.Base.{
  ℕ, Bool, not, ◌&&◌, ◌||◌, [], ◌∷◌, none, some, leb, eqb, Str, codes, if◌then◌else◌, Result, ok,
  ◌>>=◌, refuse_if,
}
use mandate_x.Core.Texts.{address_schema}
use mandate_x.Adapters.{
  AdapterResult, pass, fail, unknown, AdapterError, config_invalid, evidence_invalid,
  health_factor_below_floor, read_unavailable, read_returndata_malformed, health_no_debt_position,
  CallOutcome, PinnedBlockReader,
}
use mandate_x.Adapters.Abi.{word_count, decode_uint256, address_calldata}
use mandate_x.Adapters.Evidence.{
  HealthEvidence, health_evidence_schema, evidence_uint256_decimal_schema,
}
use mandate_x.Adapters.Yield.{has_words}

abbrev pub uint256_max : ℕ
uint256_max = 115792089237316195423570985008687907853269984665640564039457584007913129639935

pub record HealthConfig : Type 0 where
  pub pool_address : Str
  pub account_address : Str
  pub min_health_factor_scaled : ℕ

unfoldable pub health_config_schema : HealthConfig → Bool
health_config_schema c =
    address_schema c.pool_address
    && address_schema c.account_address
    && evidence_uint256_decimal_schema c.min_health_factor_scaled

abbrev pub health_evidence :
    HealthConfig → PinnedBlockReader → CallOutcome → ℕ → ℕ → ℕ → HealthEvidence
health_evidence c reader outcome collateral debt factor = record {
  observed = reader.anchor;
  pool_address = c.pool_address;
  account_address = c.account_address;
  min_health_factor_scaled = c.min_health_factor_scaled;
  health_factor_scaled = factor;
  total_debt_base = debt;
  total_collateral_base = collateral;
  reads = outcome.observation ∷ [];
}

-- With the three words that were decoded. Either witness of no debt is enough.
unfoldable pub judge_health :
    HealthConfig
    → PinnedBlockReader
    → CallOutcome
    → ℕ
    → ℕ
    → ℕ
    → Result AdapterError (AdapterResult HealthEvidence)
judge_health c reader outcome collateral debt factor =
    if eqb factor uint256_max || eqb debt 0
    then ok (unknown health_no_debt_position)
    else (refuse_if
          (not (health_evidence_schema (health_evidence c reader outcome collateral debt factor)))
          evidence_invalid
        >>= λ _. ok (
            if leb c.min_health_factor_scaled factor
            then pass (health_evidence c reader outcome collateral debt factor)
            else fail health_factor_below_floor))

unfoldable pub read_health :
    HealthConfig
    → PinnedBlockReader
    → CallOutcome
    → Result AdapterError (AdapterResult HealthEvidence)
read_health c reader outcome =
    if not (has_words 6 (word_count outcome.data_hex))
    then ok (unknown read_returndata_malformed)
    else elim (decode_uint256 outcome.data_hex 0) [
      | none ↦ ok (unknown read_returndata_malformed)
      | some collateral ↦ elim (decode_uint256 outcome.data_hex 1) [
        | none ↦ ok (unknown read_returndata_malformed)
        | some debt ↦ elim (decode_uint256 outcome.data_hex 5) [
          | none ↦ ok (unknown read_returndata_malformed)
          | some factor ↦ judge_health c reader outcome collateral debt factor
        ]
      ]
    ]

unfoldable pub evaluate_health :
    HealthConfig → PinnedBlockReader → Result AdapterError (AdapterResult HealthEvidence)
evaluate_health c reader = refuse_if (not (health_config_schema c)) config_invalid >>= λ _.
    elim (reader.call (codes "getUserAccountData") c.pool_address
      (address_calldata (codes "0xbf92857c") c.account_address)) [
        | none ↦ ok (unknown read_unavailable)
        | some outcome ↦ read_health c reader outcome
      ]
