-- ===== src/Adapters.antt =====
-- tools/category-adapters/src: the adapters that read one metric of the chain and judge it by a policy. What a
-- result carries of the adapter's id, its category and its message is a function of the adapter and the code.
pub mod Abi
pub mod Evidence
pub mod Grid
pub mod Yield
pub mod Health
pub mod VenusHealth
pub mod Witnesses
use mandate_x.Base.{ℕ, Str, Option, Result}

-- `adapterFailCodeSchema`
pub data AdapterFailCode : Type 0 where
  grid_spot_outside_band yield_share_price_below_floor health_factor_below_floor : AdapterFailCode
  venus_account_shortfall venus_liquidity_below_floor : AdapterFailCode

-- `adapterUnknownCodeSchema`
pub data AdapterUnknownCode : Type 0 where
  read_unavailable read_returndata_malformed yield_share_price_undefined : AdapterUnknownCode
  health_no_debt_position venus_liquidity_computation_failed venus_no_position : AdapterUnknownCode
  venus_no_debt_position venus_liquidity_inconsistent : AdapterUnknownCode
  grid_tick_uninterpretable grid_sqrt_price_implausible : AdapterUnknownCode

pub data AdapterResult (E : Type 0) : Type 0 where
  pass : E → AdapterResult E
  fail : AdapterFailCode → AdapterResult E
  unknown : AdapterUnknownCode → AdapterResult E

-- What a `parse` throws.
pub data AdapterError : Type 0 where
  config_invalid evidence_invalid : AdapterError

pub record BlockAnchor : Type 0 where
  pub number : ℕ
  pub hash : Str
  pub timestamp : ℕ

pub record ReadObservation : Type 0 where
  pub label : Str
  pub target : Str
  pub request_sha256 : Str
  pub response_sha256 : Str

pub record CallOutcome : Type 0 where
  pub data_hex : Str
  pub observation : ReadObservation

-- `PinnedBlockReader`: a call is of a label, an address and its data.
pub record PinnedBlockReader : Type 0 where
  pub anchor : BlockAnchor
  pub call : Str → Str → Str → Option CallOutcome
