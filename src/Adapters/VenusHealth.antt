-- ===== src/Adapters/VenusHealth.antt =====
-- tools/category-adapters/src/venus-health.ts: `evaluateVenusHealth`, with its configuration of policy.ts.
pub mod Verdict
use mandate_x.Base.{
  ℕ, Bool, not, ◌&&◌, [], ◌∷◌, Option, none, some, leb, ltb, eqb, Str, codes, if◌then◌else◌, Result,
  ok, ◌>>=◌, refuse_if,
}
use mandate_x.Core.Texts.{address_schema}
use mandate_x.Adapters.{
  AdapterResult, pass, fail, unknown, AdapterError, config_invalid, evidence_invalid,
  venus_account_shortfall, venus_liquidity_below_floor, read_unavailable, read_returndata_malformed,
  venus_liquidity_computation_failed, venus_no_position, venus_no_debt_position,
  venus_liquidity_inconsistent, CallOutcome, PinnedBlockReader,
}
use mandate_x.Adapters.Abi.{
  word_count, decode_uint256, decode_dynamic_array_length, address_calldata,
}
use mandate_x.Adapters.Evidence.{
  VenusHealthEvidence, venus_health_evidence_schema, evidence_uint256_decimal_schema,
}
use mandate_x.Adapters.Grid.{is_short}
use mandate_x.Adapters.Yield.{has_words}

pub record VenusHealthConfig : Type 0 where
  pub comptroller_address : Str
  pub account_address : Str
  pub borrow_market_address : Str
  pub min_liquidity_usd_scaled : ℕ

unfoldable pub venus_health_config_schema : VenusHealthConfig → Bool
venus_health_config_schema c =
    address_schema c.comptroller_address
    && address_schema c.account_address
    && address_schema c.borrow_market_address
    && evidence_uint256_decimal_schema c.min_liquidity_usd_scaled

-- The three outcomes of the reads.
pub record VenusReads : Type 0 where
  pub liquidity : CallOutcome
  pub assets : CallOutcome
  pub borrow : CallOutcome

-- The five values that are decoded from them.
pub record VenusWords : Type 0 where
  pub error : ℕ
  pub liquidity : ℕ
  pub shortfall : ℕ
  pub markets_entered : ℕ
  pub borrow_balance : ℕ

abbrev pub venus_evidence :
    VenusHealthConfig → PinnedBlockReader → VenusReads → VenusWords → VenusHealthEvidence
venus_evidence c reader reads w = record {
  observed = reader.anchor;
  comptroller_address = c.comptroller_address;
  account_address = c.account_address;
  borrow_market_address = c.borrow_market_address;
  min_liquidity_usd_scaled = c.min_liquidity_usd_scaled;
  liquidity_usd_scaled = w.liquidity;
  shortfall_usd_scaled = w.shortfall;
  markets_entered = w.markets_entered;
  borrow_balance_stored = w.borrow_balance;
  reads = reads.liquidity.observation ∷ reads.assets.observation ∷ reads.borrow.observation ∷ [];
}

-- After the evidence is parsed.
unfoldable pub venus_verdict :
    VenusHealthConfig → VenusHealthEvidence → VenusWords → AdapterResult VenusHealthEvidence
venus_verdict c evidence w =
    if eqb w.markets_entered 0
    then unknown venus_no_position
    else if eqb w.borrow_balance 0
    then unknown venus_no_debt_position
    else if ltb 0 w.shortfall
    then fail venus_account_shortfall
    else if leb c.min_liquidity_usd_scaled w.liquidity
    then pass evidence
    else fail venus_liquidity_below_floor

unfoldable pub judge_venus :
    VenusHealthConfig
    → PinnedBlockReader
    → VenusReads
    → VenusWords
    → Result AdapterError (AdapterResult VenusHealthEvidence)
judge_venus c reader reads w =
    if not (eqb w.error 0)
    then ok (unknown venus_liquidity_computation_failed)
    else if ltb 0 w.liquidity && ltb 0 w.shortfall
    then ok (unknown venus_liquidity_inconsistent)
    else (refuse_if (not (venus_health_evidence_schema (venus_evidence c reader reads w)))
          evidence_invalid
        >>= λ _. ok (venus_verdict c (venus_evidence c reader reads w) w))

-- `words !== undefined && words >= 1 ? decodeUint256(data, 0) : undefined`
abbrev pub first_word : Str → Option ℕ
first_word data_hex = if is_short 1 (word_count data_hex) then none else decode_uint256 data_hex 0

unfoldable pub venus_words : VenusReads → Option VenusWords
venus_words reads = elim (decode_uint256 reads.liquidity.data_hex 0) [
  | none ↦ none
  | some error ↦ elim (decode_uint256 reads.liquidity.data_hex 1) [
    | none ↦ none
    | some liquidity ↦ elim (decode_uint256 reads.liquidity.data_hex 2) [
      | none ↦ none
      | some shortfall ↦ elim (decode_dynamic_array_length reads.assets.data_hex) [
        | none ↦ none
        | some markets_entered ↦ elim (first_word reads.borrow.data_hex) [
          | none ↦ none
          | some borrow_balance ↦ some (record {
            error = error;
            liquidity = liquidity;
            shortfall = shortfall;
            markets_entered = markets_entered;
            borrow_balance = borrow_balance;
          })
        ]
      ]
    ]
  ]
]

unfoldable pub read_venus :
    VenusHealthConfig
    → PinnedBlockReader
    → VenusReads
    → Result AdapterError (AdapterResult VenusHealthEvidence)
read_venus c reader reads =
    if not (has_words 3 (word_count reads.liquidity.data_hex))
    then ok (unknown read_returndata_malformed)
    else elim (venus_words reads) [
      | none ↦ ok (unknown read_returndata_malformed)
      | some words ↦ judge_venus c reader reads words
    ]

unfoldable pub venus_calls : VenusHealthConfig → PinnedBlockReader → Option VenusReads
venus_calls c reader =
    elim (reader.call (codes "getAccountLiquidity") c.comptroller_address
      (address_calldata (codes "0x5ec88c79") c.account_address)) [
        | none ↦ none
        | some liquidity ↦
            elim (reader.call (codes "getAssetsIn") c.comptroller_address
              (address_calldata (codes "0xabfceffc") c.account_address)) [
                | none ↦ none
                | some assets ↦
                    elim (reader.call (codes "borrowBalanceStored") c.borrow_market_address
                      (address_calldata (codes "0x95dd9193") c.account_address)) [
                        | none ↦ none
                        | some borrow ↦
                            some
                              (record { liquidity = liquidity; assets = assets; borrow = borrow })
                      ]
              ]
      ]

unfoldable pub evaluate_venus_health :
    VenusHealthConfig → PinnedBlockReader → Result AdapterError (AdapterResult VenusHealthEvidence)
evaluate_venus_health c reader =
    refuse_if (not (venus_health_config_schema c)) config_invalid >>= λ _.
    elim (venus_calls c reader) [
      | none ↦ ok (unknown read_unavailable)
      | some reads ↦ read_venus c reader reads
    ]
