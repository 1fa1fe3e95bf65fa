-- ===== src/Adapters/Witnesses.antt =====
-- The adapters at a pool and a vault of made-up addresses.
use mandate_x.Base.{
  ◌≡◌, refl, true, some, pos, negsuc, Str, codes, ok, err, if◌then◌else◌, ◌==◌, str_eq,
}
use mandate_x.Core.Texts.{address_schema, bytes32_schema, sha256_schema, trimmed_schema}
use mandate_x.Adapters.{
  AdapterResult, BlockAnchor, ReadObservation, CallOutcome, PinnedBlockReader, evidence_invalid,
}
use mandate_x.Adapters.Abi.{normalize_hex, word_count, decode_uint256, hex_number}
use mandate_x.Adapters.Evidence.{
  GridEvidence, block_anchor_schema, read_observation_schema, envelope_schema,
  yield_evidence_schema,
}
use mandate_x.Adapters.Grid.{GridConfig, grid_config_schema, evaluate_grid}
use mandate_x.Adapters.Yield.{
  YieldConfig, yield_config_schema, evaluate_yield, read_yield, judge_yield, share_price,
}
use mandate_x.Adapters.VenusHealth.{
  VenusHealthConfig, VenusReads, venus_health_config_schema, evaluate_venus_health,
}
use mandate_x.Adapters.VenusHealth.Verdict.{IsVenusVerdict, evaluate_venus_health-IsVenusVerdict}
use mandate_x.Adapters.Evidence.{HealthEvidence}
use mandate_x.Adapters.Health.{HealthConfig, health_config_schema, evaluate_health}
use mandate_x.Adapters.Health.Verdict.{IsHealthVerdict, evaluate_health-IsHealthVerdict}
use mandate_x.Adapters.Grid.Verdict.{IsGridVerdict, evaluate_grid-IsGridVerdict}
use mandate_x.Adapters.Yield.Verdict.{IsYieldVerdict, evaluate_yield-IsYieldVerdict}

abbrev address : Str
address = codes "0x1111111111111111111111111111111111111111"

abbrev digest : Str
digest = codes "2222222222222222222222222222222222222222222222222222222222222222"

abbrev anchor : BlockAnchor
anchor = record {
  number = 100;
  hash = codes "0x3333333333333333333333333333333333333333333333333333333333333333";
  timestamp = 1700000000;
}

abbrev observation : ReadObservation
observation = record {
  label = codes "read";
  target = address;
  request_sha256 = digest;
  response_sha256 = digest;
}

-- A price of 2^96, at tick 5.
abbrev slot : CallOutcome
slot = record {
  data_hex =
      codes
        "0x00000000000000000000000000000000000000010000000000000000000000000000000000000000000000000000000000000000000000000000000000000005";
  observation = observation;
}

abbrev pool_reader : PinnedBlockReader
pool_reader = record { anchor = anchor; call = λ label target data_hex. some slot }

abbrev grid : GridConfig
grid = record { pool_address = address; lower_tick = negsuc 9; upper_tick = pos 10 }

-- All bits set, of one share.
abbrev hoard : CallOutcome
hoard = record {
  data_hex = codes "0xffffffffffffffffffffffffffffffffffffffffffffffffffffffffffffffff";
  observation = observation;
}

abbrev one_share : CallOutcome
one_share = record {
  data_hex = codes "0x0000000000000000000000000000000000000000000000000000000000000001";
  observation = observation;
}

abbrev vault_reader : PinnedBlockReader
vault_reader = record {
  anchor = anchor;
  call =
      λ label target data_hex. if label == codes "totalAssets" then some hoard else some one_share;
}

abbrev vault : YieldConfig
vault = record { vault_address = address; min_share_price_scaled = 1000000000000000000 }

anchor-IsValid : block_anchor_schema anchor ≡ true
unfolding block_anchor_schema bytes32_schema
anchor-IsValid = refl

observation-IsValid : read_observation_schema observation ≡ true
unfolding read_observation_schema trimmed_schema address_schema sha256_schema
observation-IsValid = refl

grid-IsValid : grid_config_schema grid ≡ true
unfolding grid_config_schema address_schema
grid-IsValid = refl

vault-IsValid : yield_config_schema vault ≡ true
unfolding yield_config_schema address_schema
vault-IsValid = refl

-- The share price of the vault has more digits than a document has room for.
vault-throws : evaluate_yield vault vault_reader ≡ err evidence_invalid
unfolding evaluate_yield read_yield judge_yield yield_config_schema yield_evidence_schema
    address_schema envelope_schema word_count normalize_hex decode_uint256 hex_number share_price
    block_anchor_schema bytes32_schema read_observation_schema trimmed_schema sha256_schema
vault-throws = refl

evaluate_grid-IsGridVerdict_example :
    (result : AdapterResult GridEvidence) × (evaluate_grid grid pool_reader ≡ ok result)
    × IsGridVerdict grid pool_reader slot result
evaluate_grid-IsGridVerdict_example =
    evaluate_grid-IsGridVerdict grid pool_reader slot grid-IsValid anchor-IsValid refl
      observation-IsValid

evaluate_yield-IsYieldVerdict_example :
    IsYieldVerdict vault vault_reader hoard one_share (evaluate_yield vault vault_reader)
evaluate_yield-IsYieldVerdict_example =
    evaluate_yield-IsYieldVerdict vault vault_reader hoard one_share vault-IsValid anchor-IsValid
      refl refl observation-IsValid observation-IsValid

-- A liquidity of 5 * 10^18 and no shortfall.
abbrev liquidity : CallOutcome
liquidity = record {
  data_hex =
      codes
        "0x00000000000000000000000000000000000000000000000000000000000000000000000000000000000000000000000000000000000000004563918244f400000000000000000000000000000000000000000000000000000000000000000000";
  observation = observation;
}

-- One market.
abbrev markets : CallOutcome
markets = record {
  data_hex =
      codes
        "0x000000000000000000000000000000000000000000000000000000000000002000000000000000000000000000000000000000000000000000000000000000010000000000000000000000001111111111111111111111111111111111111111";
  observation = observation;
}

-- A debt of 1000.
abbrev debt : CallOutcome
debt = record {
  data_hex =
      codes
        "0x00000000000000000000000000000000000000000000000000000000000003e800000000000000000000000000000000000000000000000000000000000000000000000000000000000000000000000000000000000000000000000000000000";
  observation = observation;
}

abbrev account_reader : PinnedBlockReader
account_reader = record {
  anchor = anchor;
  call = λ label target data_hex.
      if label == codes "getAccountLiquidity"
      then some liquidity
      else if label == codes "getAssetsIn"
      then some markets
      else some debt;
}

abbrev account : VenusHealthConfig
account = record {
  comptroller_address = address;
  account_address = address;
  borrow_market_address = address;
  min_liquidity_usd_scaled = 1000000000000000000;
}

abbrev account_reads : VenusReads
account_reads = record { liquidity = liquidity; assets = markets; borrow = debt }

account-IsValid : venus_health_config_schema account ≡ true
unfolding venus_health_config_schema address_schema
account-IsValid = refl

evaluate_venus_health-IsVenusVerdict_example :
    IsVenusVerdict account account_reader account_reads
      (evaluate_venus_health account account_reader)
evaluate_venus_health-IsVenusVerdict_example =
    evaluate_venus_health-IsVenusVerdict account account_reader account_reads account-IsValid
      anchor-IsValid refl refl refl observation-IsValid observation-IsValid observation-IsValid

-- A health factor of 1.5 and a debt of 1000.
abbrev account_data : CallOutcome
account_data = record {
  data_hex =
      codes
        "0x00000000000000000000000000000000000000000000000000000000000007d000000000000000000000000000000000000000000000000000000000000003e8000000000000000000000000000000000000000000000000000000000000000000000000000000000000000000000000000000000000000000000000000021340000000000000000000000000000000000000000000000000000000000001f4000000000000000000000000000000000000000000000000014d1120d7b160000";
  observation = observation;
}

abbrev lender_reader : PinnedBlockReader
lender_reader = record { anchor = anchor; call = λ label target data_hex. some account_data }

abbrev borrower : HealthConfig
borrower = record {
  pool_address = address;
  account_address = address;
  min_health_factor_scaled = 1100000000000000000;
}

borrower-IsValid : health_config_schema borrower ≡ true
unfolding health_config_schema address_schema
borrower-IsValid = refl

evaluate_health-IsHealthVerdict_example :
    (result : AdapterResult HealthEvidence) × (evaluate_health borrower lender_reader ≡ ok result)
    × IsHealthVerdict borrower lender_reader account_data result
evaluate_health-IsHealthVerdict_example =
    evaluate_health-IsHealthVerdict borrower lender_reader account_data borrower-IsValid
      anchor-IsValid refl observation-IsValid
