-- ===== src/Adapters/Grid/Verdict.antt =====
-- tools/category-adapters/src/grid.ts: what a verdict on a pool says of the words that were read.
use mandate_x.Base.{
  ℕ, ◌≤◌, ◌≡◌, refl, subst, true, false, Option, some, Option-cases, Bool-cases, inl, inr, ◌≤ℤ◌, ℤ,
  pos, negsuc, codes, ok, arith,
}
use mandate_x.Adapters.{
  AdapterResult, pass, fail, unknown, grid_spot_outside_band, read_returndata_malformed,
  grid_tick_uninterpretable, grid_sqrt_price_implausible, CallOutcome, PinnedBlockReader,
}
use mandate_x.Adapters.Abi.{word_count, decode_uint256, decode_int24}
use mandate_x.Adapters.Evidence.{
  GridEvidence, grid_evidence_schema, evidence_tick_schema, evidence_uint256_decimal_schema,
  envelope_schema, block_anchor_schema, read_observation_schema,
}
use mandate_x.Adapters.Grid.{
  GridConfig, grid_config_schema, grid_evidence, is_plausible_price, is_plausible_tick, is_inside,
  judge_grid, read_grid, evaluate_grid, is_short, v3_min_sqrt_ratio, v3_max_sqrt_ratio,
}

plausible_price_schema :
    (price : ℕ) → is_plausible_price price ≡ true → evidence_uint256_decimal_schema price ≡ true
plausible_price_schema price h = ground arith

plausible_tick_schema :
    (tick : ℤ) → is_plausible_tick tick ≡ true → evidence_tick_schema tick ≡ true
plausible_tick_schema tick h = ground arith

-- What the schemas check is all that an evidence document of plausible words needs.
grid_evidence-IsValid :
    (c : GridConfig) (reader : PinnedBlockReader) (outcome : CallOutcome) (price : ℕ) (tick : ℤ)
    → grid_config_schema c ≡ true
    → block_anchor_schema reader.anchor ≡ true
    → read_observation_schema outcome.observation ≡ true
    → is_plausible_price price ≡ true
    → is_plausible_tick tick ≡ true
    → grid_evidence_schema (grid_evidence c reader outcome price tick) ≡ true
unfolding grid_config_schema grid_evidence_schema envelope_schema
grid_evidence-IsValid c reader outcome price tick config anchor read fair sane =
    ground (arith, plausible_price_schema price fair, plausible_tick_schema tick sane)

-- The words are a price and a tick that a pool can hold.
pub IsPoolState : CallOutcome → ℕ → ℤ → Type 0
IsPoolState outcome price tick =
    (is_short 2 (word_count outcome.data_hex) ≡ false)
    × (decode_uint256 outcome.data_hex 0 ≡ some price)
    × (decode_int24 outcome.data_hex 1 ≡ some tick)
    × (v3_min_sqrt_ratio ≤ price)
    × (price ≤ v3_max_sqrt_ratio)
    × (negsuc 887271 ≤ℤ tick)
    × (tick ≤ℤ pos 887272)

pub IsInBand : GridConfig → ℤ → Type 0
IsInBand c tick = (c.lower_tick ≤ℤ tick) × (tick ≤ℤ c.upper_tick)

-- What a verdict has to mean.
pub IsGridVerdict :
    GridConfig → PinnedBlockReader → CallOutcome → AdapterResult GridEvidence → Type 0
IsGridVerdict c reader outcome (pass evidence) =
    (price : ℕ) × (tick : ℤ) × IsPoolState outcome price tick
    × IsInBand c tick
    × (evidence ≡ grid_evidence c reader outcome price tick)
IsGridVerdict c reader outcome (fail code) =
    (price : ℕ) × (tick : ℤ) × IsPoolState outcome price tick
    × (¬ IsInBand c tick)
    × (code ≡ grid_spot_outside_band)
IsGridVerdict c reader outcome (unknown code) =
    ¬ ((price : ℕ) × (tick : ℤ) × IsPoolState outcome price tick)

-- The two comparisons of a price, and the two of a tick.
plausible_price_bounds :
    (price : ℕ)
    → is_plausible_price price ≡ true
    → (v3_min_sqrt_ratio ≤ price) × (price ≤ v3_max_sqrt_ratio)
plausible_price_bounds price h = ground arith

plausible_tick_bounds :
    (tick : ℤ) → is_plausible_tick tick ≡ true → (negsuc 887271 ≤ℤ tick) × (tick ≤ℤ pos 887272)
plausible_tick_bounds tick h = ground arith

same_body {ℓ} : {A : Type ℓ} (o : Option A) (x y : A) → o ≡ some x → o ≡ some y → x ≡ y
same_body o x y h k = cc

-- A state that the words hold is of the values they decode to, which are then plausible.
state_IsPlausible :
    (outcome : CallOutcome) (price : ℕ) (tick : ℤ)
    → decode_uint256 outcome.data_hex 0 ≡ some price
    → decode_int24 outcome.data_hex 1 ≡ some tick
    → (p : ℕ) × (t : ℤ) × IsPoolState outcome p t
    → (is_plausible_price price ≡ true) × (is_plausible_tick tick ≡ true)
unfolding IsPoolState
state_IsPlausible outcome price tick first second
      (p, t, (long, price_word, tick_word, low, high, left, right)) =
    let same_price : p ≡ price =
      same_body (decode_uint256 outcome.data_hex 0) p price price_word first in
    let same_tick : t ≡ tick =
      same_body (decode_int24 outcome.data_hex 1) t tick tick_word second in
    (
      subst (λ x. is_plausible_price x ≡ true) same_price (ground (arith, low, high)),
      subst (λ x. is_plausible_tick x ≡ true) same_tick (ground (arith, left, right)),
    )

-- Of what was decoded, with the words of the schemas.
module _ (c : GridConfig) (reader : PinnedBlockReader) (outcome : CallOutcome) where
  judge_grid-IsGridVerdict :
      (price : ℕ) (tick : ℤ)
      → grid_config_schema c ≡ true
      → block_anchor_schema reader.anchor ≡ true
      → read_observation_schema outcome.observation ≡ true
      → is_short 2 (word_count outcome.data_hex) ≡ false
      → decode_uint256 outcome.data_hex 0 ≡ some price
      → decode_int24 outcome.data_hex 1 ≡ some tick
      → (result : AdapterResult GridEvidence) × (judge_grid c reader outcome price tick ≡ ok result)
        × IsGridVerdict c reader outcome result
  unfolding judge_grid IsGridVerdict IsPoolState IsInBand
  judge_grid-IsGridVerdict price tick config anchor read long first second =
      elim (Bool-cases (is_plausible_price price)) [
        | inr odd ↦ (
          unknown grid_sqrt_price_implausible,
          ground (arith, odd),
          λ state. ground (arith, odd, state_IsPlausible outcome price tick first second state),
        )
        | inl fair ↦ elim (Bool-cases (is_plausible_tick tick)) [
          | inr odd ↦ (
            unknown grid_tick_uninterpretable,
            ground (arith, fair, odd),
            λ state. ground (arith, odd, state_IsPlausible outcome price tick first second state),
          )
          | inl sane ↦
              let valid =
                grid_evidence-IsValid c reader outcome price tick config anchor read fair sane in
              let fair_bounds = plausible_price_bounds price fair in
              let sane_bounds = plausible_tick_bounds tick sane in
              elim (Bool-cases (is_inside c tick)) [
                | inl inside ↦ (
                  pass (grid_evidence c reader outcome price tick),
                  rw (fair, sane, valid, inside) refl,
                  (
                    price,
                    tick,
                    (
                      long, first, second, fair_bounds.0, fair_bounds.1, sane_bounds.0,
                      sane_bounds.1,
                    ),
                    ground (arith, inside),
                    refl,
                  ),
                )
                | inr outside ↦ (
                  fail grid_spot_outside_band,
                  rw (fair, sane, valid, outside) refl,
                  (
                    price,
                    tick,
                    (
                      long, first, second, fair_bounds.0, fair_bounds.1, sane_bounds.0,
                      sane_bounds.1,
                    ),
                    λ band. ground (arith, outside, band),
                    refl,
                  ),
                )
              ]
        ]
      ]

  -- The words of what the reader returned, decoded one by one.
  read_grid-IsGridVerdict :
      grid_config_schema c ≡ true
      → block_anchor_schema reader.anchor ≡ true
      → read_observation_schema outcome.observation ≡ true
      → (result : AdapterResult GridEvidence) × (read_grid c reader outcome ≡ ok result)
        × IsGridVerdict c reader outcome result
  unfolding read_grid IsGridVerdict IsPoolState
  read_grid-IsGridVerdict config anchor read =
      elim (Bool-cases (is_short 2 (word_count outcome.data_hex))) [
        | inl short ↦ (
          unknown read_returndata_malformed,
          rw short refl,
          λ state. ground (arith, short, state.2),
        )
        | inr long ↦ elim (Option-cases (decode_uint256 outcome.data_hex 0)) [
          | inl lost ↦ (
            unknown read_returndata_malformed,
            rw (long, lost) refl,
            λ state. ground (arith, lost, state.2),
          )
          | inr first ↦ elim (Option-cases (decode_int24 outcome.data_hex 1)) [
            | inl lost ↦ (
              unknown grid_tick_uninterpretable,
              rw (long, first.1, lost) refl,
              λ state. ground (arith, lost, state.2),
            )
            | inr second ↦
                let judged =
                  judge_grid-IsGridVerdict first.0 second.0 config anchor read long first.1
                    second.1 in
                (judged.0, rw (long, first.1, second.1) judged.1, judged.2)
          ]
        ]
      ]

  -- For a valid configuration, a valid anchor and an answer with a valid observation, evaluating a
  -- pool returns a result and does not throw: a pass exactly where the words hold a price and a
  -- tick within the bounds of the protocol and the tick is in the band, edges included, with the
  -- evidence of those words; a failure exactly where they do and the tick is outside; and an
  -- unknown exactly where they do not.
  pub evaluate_grid-IsGridVerdict :
      grid_config_schema c ≡ true
      → block_anchor_schema reader.anchor ≡ true
      → reader.call (codes "slot0") c.pool_address (codes "0x3850c7bd") ≡ some outcome
      → read_observation_schema outcome.observation ≡ true
      → (result : AdapterResult GridEvidence) × (evaluate_grid c reader ≡ ok result)
        × IsGridVerdict c reader outcome result
  unfolding evaluate_grid
  evaluate_grid-IsGridVerdict config anchor answered read =
      let made = read_grid-IsGridVerdict config anchor read in
      (made.0, rw (config, answered) made.1, made.2)
