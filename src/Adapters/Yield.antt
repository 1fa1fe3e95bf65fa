-- ===== src/Adapters/Yield.antt =====
-- tools/category-adapters/src/yield.ts: `evaluateYield`, with its configuration of policy.ts.
pub mod Verdict
use mandate_x.Base.{
  ℕ, ◌*◌, ◌/◌, Bool, true, false, not, ◌&&◌, [], ◌∷◌, Option, none, some, leb, eqb, Str, codes,
  if◌then◌else◌, Result, ok, err, ◌>>=◌, refuse_if,
}
use mandate_x.Core.Texts.{address_schema}
use mandate_x.Adapters.{
  AdapterResult, pass, fail, unknown, AdapterError, config_invalid, evidence_invalid,
  yield_share_price_below_floor, read_unavailable, read_returndata_malformed,
  yield_share_price_undefined, CallOutcome, PinnedBlockReader,
}
use mandate_x.Adapters.Abi.{word_count, decode_uint256}
use mandate_x.Adapters.Evidence.{
  YieldEvidence, yield_evidence_schema, evidence_uint256_decimal_schema,
}

abbrev pub ratio_scale : ℕ
ratio_scale = 1000000000000000000

pub record YieldConfig : Type 0 where
  pub vault_address : Str
  pub min_share_price_scaled : ℕ

unfoldable pub yield_config_schema : YieldConfig → Bool
yield_config_schema c =
    address_schema c.vault_address && evidence_uint256_decimal_schema c.min_share_price_scaled

unfoldable pub share_price : ℕ → ℕ → ℕ
share_price assets supply = assets * ratio_scale / supply

abbrev pub yield_evidence :
    YieldConfig → PinnedBlockReader → CallOutcome → CallOutcome → ℕ → ℕ → YieldEvidence
yield_evidence c reader assets_outcome supply_outcome assets supply = record {
  observed = reader.anchor;
  vault_address = c.vault_address;
  min_share_price_scaled = c.min_share_price_scaled;
  total_assets = assets;
  total_supply = supply;
  share_price_scaled = share_price assets supply;
  reads = assets_outcome.observation ∷ supply_outcome.observation ∷ [];
}

-- With the assets and the supply that were decoded.
unfoldable pub judge_yield :
    YieldConfig
    → PinnedBlockReader
    → CallOutcome
    → CallOutcome
    → ℕ
    → ℕ
    → Result AdapterError (AdapterResult YieldEvidence)
judge_yield c reader assets_outcome supply_outcome assets supply =
    if eqb supply 0
    then ok (unknown yield_share_price_undefined)
    else (refuse_if
          (not (
            yield_evidence_schema
              (yield_evidence c reader assets_outcome supply_outcome assets supply)))
          evidence_invalid
        >>= λ _. ok (
            if leb c.min_share_price_scaled (share_price assets supply)
            then pass (yield_evidence c reader assets_outcome supply_outcome assets supply)
            else fail yield_share_price_below_floor))

abbrev pub has_words : ℕ → Option ℕ → Bool
has_words expected none = false
has_words expected (some words) = eqb words expected

unfoldable pub read_yield :
    YieldConfig
    → PinnedBlockReader
    → CallOutcome
    → CallOutcome
    → Result AdapterError (AdapterResult YieldEvidence)
read_yield c reader assets_outcome supply_outcome =
    if not (
      has_words 1 (word_count assets_outcome.data_hex)
      && has_words 1 (word_count supply_outcome.data_hex))
    then ok (unknown read_returndata_malformed)
    else elim (decode_uint256 assets_outcome.data_hex 0) [
      | none ↦ ok (unknown read_returndata_malformed)
      | some assets ↦ elim (decode_uint256 supply_outcome.data_hex 0) [
        | none ↦ ok (unknown read_returndata_malformed)
        | some supply ↦ judge_yield c reader assets_outcome supply_outcome assets supply
      ]
    ]

unfoldable pub evaluate_yield :
    YieldConfig → PinnedBlockReader → Result AdapterError (AdapterResult YieldEvidence)
evaluate_yield c reader = refuse_if (not (yield_config_schema c)) config_invalid >>= λ _.
    elim (reader.call (codes "totalAssets") c.vault_address (codes "0x01e1d114")) [
      | none ↦ ok (unknown read_unavailable)
      | some assets_outcome ↦
          elim (reader.call (codes "totalSupply") c.vault_address (codes "0x18160ddd")) [
            | none ↦ ok (unknown read_unavailable)
            | some supply_outcome ↦ read_yield c reader assets_outcome supply_outcome
          ]
    ]
