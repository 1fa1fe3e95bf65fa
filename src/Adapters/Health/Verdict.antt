-- ===== src/Adapters/Health/Verdict.antt =====
-- tools/category-adapters/src/health.ts: what a verdict on an account says of the words that were read.
use mandate_x.Base.{
  ℕ, ◌≤◌, ◌<◌, ◌≡◌, ◌≢◌, refl, true, ◌||◌, Option, some, Option-cases, Bool-cases, inl, inr, leb,
  eqb, codes, ok, arith,
}
use mandate_x.Adapters.{
  AdapterResult, pass, fail, unknown, health_factor_below_floor, read_returndata_malformed,
  health_no_debt_position, CallOutcome, PinnedBlockReader,
}
use mandate_x.Adapters.Abi.{word_count, decode_uint256, address_calldata, uint256_ceiling}
use mandate_x.Adapters.Abi.Bounds.{decode_uint256_bound}
use mandate_x.Adapters.Evidence.{
  HealthEvidence, health_evidence_schema, envelope_schema, block_anchor_schema,
  read_observation_schema,
}
use mandate_x.Adapters.Yield.{has_words}
use mandate_x.Adapters.Health.{
  HealthConfig, health_config_schema, health_evidence, judge_health, read_health, evaluate_health,
  uint256_max,
}

pub record HealthWords : Type 0 where
  pub collateral : ℕ
  pub debt : ℕ
  pub factor : ℕ

-- The words are there and are of an account that both of them say has a debt.
pub IsDebtor : CallOutcome → HealthWords → Type 0
IsDebtor outcome w =
    (has_words 6 (word_count outcome.data_hex) ≡ true)
    × (decode_uint256 outcome.data_hex 0 ≡ some w.collateral)
    × (decode_uint256 outcome.data_hex 1 ≡ some w.debt)
    × (decode_uint256 outcome.data_hex 5 ≡ some w.factor)
    × (0 < w.debt)
    × (w.factor ≢ uint256_max)

-- What a verdict has to mean.
pub IsHealthVerdict :
    HealthConfig → PinnedBlockReader → CallOutcome → AdapterResult HealthEvidence → Type 0
IsHealthVerdict c reader outcome (pass evidence) =
    (w : HealthWords) × IsDebtor outcome w
    × (c.min_health_factor_scaled ≤ w.factor)
    × (evidence ≡ health_evidence c reader outcome w.collateral w.debt w.factor)
IsHealthVerdict c reader outcome (fail code) =
    (w : HealthWords) × IsDebtor outcome w
    × (w.factor < c.min_health_factor_scaled)
    × (code ≡ health_factor_below_floor)
IsHealthVerdict c reader outcome (unknown code) = ¬ ((w : HealthWords) × IsDebtor outcome w)

module _ (c : HealthConfig) (reader : PinnedBlockReader) (outcome : CallOutcome) where
  -- Words that were decoded fit a document.
  health_evidence-IsValid :
      (collateral debt factor : ℕ)
      → health_config_schema c ≡ true
      → block_anchor_schema reader.anchor ≡ true
      → read_observation_schema outcome.observation ≡ true
      → collateral < uint256_ceiling
      → debt < uint256_ceiling
      → factor < uint256_ceiling
      → health_evidence_schema (health_evidence c reader outcome collateral debt factor) ≡ true
  unfolding health_config_schema health_evidence_schema envelope_schema
  health_evidence-IsValid collateral debt factor config anchor read first second third =
      ground (arith, config, anchor, read, first, second, third)

  same_word : (o : Option ℕ) (x y : ℕ) → o ≡ some x → o ≡ some y → x ≡ y
  same_word o x y h k = cc

  judge_health-IsHealthVerdict :
      (w : HealthWords)
      → has_words 6 (word_count outcome.data_hex) ≡ true
      → decode_uint256 outcome.data_hex 0 ≡ some w.collateral
      → decode_uint256 outcome.data_hex 1 ≡ some w.debt
      → decode_uint256 outcome.data_hex 5 ≡ some w.factor
      → health_evidence_schema (health_evidence c reader outcome w.collateral w.debt w.factor)
        ≡ true
      → (result : AdapterResult HealthEvidence) × (judge_health c reader outcome w.collateral w.debt
            w.factor
          ≡ ok result)
        × IsHealthVerdict c reader outcome result
  unfolding judge_health IsHealthVerdict IsDebtor
  judge_health-IsHealthVerdict w six first second third valid =
      elim (Bool-cases (eqb w.factor uint256_max || eqb w.debt 0)) [
        | inl free ↦ (
          unknown health_no_debt_position,
          rw free refl,
          λ found.
              let same_debt : found.0.debt ≡ w.debt =
                same_word (decode_uint256 outcome.data_hex 1) found.0.debt w.debt found.1.2
                  second in
              let same_factor : found.0.factor ≡ w.factor =
                same_word (decode_uint256 outcome.data_hex 5) found.0.factor w.factor found.1.3
                  third in
              ground (arith, free, same_debt, same_factor, found.1.4, found.1.5),
        )
        | inr owes ↦
            let debtor : IsDebtor outcome w =
              (six, first, second, third, ground (arith, owes), λ top. ground (arith, owes, top)) in
            elim (Bool-cases (leb c.min_health_factor_scaled w.factor)) [
              | inl above ↦ (
                pass (health_evidence c reader outcome w.collateral w.debt w.factor),
                rw (owes, valid, above) refl,
                (w, debtor, ground (arith, above), refl),
              )
              | inr below ↦ (
                fail health_factor_below_floor,
                rw (owes, valid, below) refl,
                (w, debtor, ground (arith, below), refl),
              )
            ]
      ]

  read_health-IsHealthVerdict :
      health_config_schema c ≡ true
      → block_anchor_schema reader.anchor ≡ true
      → read_observation_schema outcome.observation ≡ true
      → (result : AdapterResult HealthEvidence) × (read_health c reader outcome ≡ ok result)
        × IsHealthVerdict c reader outcome result
  unfolding read_health IsHealthVerdict IsDebtor
  read_health-IsHealthVerdict config anchor read =
      let word = decode_uint256 outcome.data_hex in
      let bound = decode_uint256_bound outcome.data_hex in
      elim (Bool-cases (has_words 6 (word_count outcome.data_hex))) [
        | inr odd ↦ (
          unknown read_returndata_malformed,
          rw odd refl,
          λ found. ground (arith, odd, found.1.0),
        )
        | inl six ↦ elim (Option-cases (word 0)) [
          | inl lost ↦ (
            unknown read_returndata_malformed,
            rw (six, lost) refl,
            λ found. ground (arith, lost, found.1.1),
          )
          | inr x ↦ elim (Option-cases (word 1)) [
            | inl lost ↦ (
              unknown read_returndata_malformed,
              rw (six, x.1, lost) refl,
              λ found. ground (arith, lost, found.1.2),
            )
            | inr y ↦ elim (Option-cases (word 5)) [
              | inl lost ↦ (
                unknown read_returndata_malformed,
                rw (six, x.1, y.1, lost) refl,
                λ found. ground (arith, lost, found.1.3),
              )
              | inr z ↦
                  let judged =
                    judge_health-IsHealthVerdict
                      (record { collateral = x.0; debt = y.0; factor = z.0 }) six x.1 y.1 z.1
                      (health_evidence-IsValid x.0 y.0 z.0 config anchor read (bound 0 x.0 x.1)
                        (bound 1 y.0 y.1) (bound 5 z.0 z.1)) in
                  (judged.0, rw (six, x.1, y.1, z.1) judged.1, judged.2)
            ]
          ]
        ]
      ]

  -- For a valid configuration, a valid anchor and an answer with a valid observation, evaluating
  -- an Aave account returns a result and does not throw: a pass exactly where all six words are
  -- there, the debt is above zero, the health factor is not the greatest word and is at least the
  -- floor, with the evidence of those words; a failure exactly where it is below the floor; and an
  -- unknown exactly where a word is missing or either field says that there is no debt.
  pub evaluate_health-IsHealthVerdict :
      health_config_schema c ≡ true
      → block_anchor_schema reader.anchor ≡ true
      → reader.call
          (codes "getUserAccountData")
          c.pool_address
          (address_calldata (codes "0xbf92857c") c.account_address)
        ≡ some outcome
      → read_observation_schema outcome.observation ≡ true
      → (result : AdapterResult HealthEvidence) × (evaluate_health c reader ≡ ok result)
        × IsHealthVerdict c reader outcome result
  unfolding evaluate_health
  evaluate_health-IsHealthVerdict config anchor answered read =
      let made = read_health-IsHealthVerdict config anchor read in
      (made.0, rw (config, answered) made.1, made.2)
