-- ===== src/Adapters/Yield/Verdict.antt =====
-- tools/category-adapters/src/yield.ts: what a verdict on a vault says of the words that were read, and where there is none.
use mandate_x.Base.{
  ℕ, ◌*◌, ◌≤◌, ◌<◌, ◌≡◌, refl, sym, subst, true, false, ◌&&◌, Option, some, Option-cases,
  Bool-cases, inl, inr, leb, eqb, codes, Result, ok, err, arith,
}
use native.Mathlib.Nat.{le-div_iff_mul-le, div-lt_iff_lt-mul}
use mandate_x.Adapters.{
  AdapterResult, pass, fail, unknown, AdapterError, evidence_invalid, yield_share_price_below_floor,
  read_returndata_malformed, yield_share_price_undefined, CallOutcome, PinnedBlockReader,
}
use mandate_x.Adapters.Abi.{word_count, decode_uint256, uint256_ceiling}
use mandate_x.Adapters.Abi.Bounds.{decode_uint256_bound}
use mandate_x.Adapters.Evidence.{
  YieldEvidence, yield_evidence_schema, evidence_uint256_decimal_schema, envelope_schema,
  block_anchor_schema, read_observation_schema,
}
use mandate_x.Adapters.Yield.{
  YieldConfig, yield_config_schema, yield_evidence, ratio_scale, share_price, judge_yield,
  read_yield, evaluate_yield, has_words,
}

-- The first amount that a document has no room for: 10^78.
abbrev document_ceiling : ℕ
document_ceiling = 1000000000000000000000000000000000000000000000000000000000000000000000000000000

-- Both words are there, and there are shares.
pub IsVaultState : CallOutcome → CallOutcome → ℕ → ℕ → Type 0
IsVaultState assets_outcome supply_outcome assets supply =
    (has_words 1 (word_count assets_outcome.data_hex) ≡ true)
    × (has_words 1 (word_count supply_outcome.data_hex) ≡ true)
    × (decode_uint256 assets_outcome.data_hex 0 ≡ some assets)
    × (decode_uint256 supply_outcome.data_hex 0 ≡ some supply)
    × (0 < supply)

-- What the outcome has to mean, the division written as a product. The price has to fit a document.
pub IsYieldVerdict :
    YieldConfig
    → PinnedBlockReader
    → CallOutcome
    → CallOutcome
    → Result AdapterError (AdapterResult YieldEvidence)
    → Type 0
IsYieldVerdict c reader a s (ok (pass evidence)) =
    (assets : ℕ) × (supply : ℕ) × IsVaultState a s assets supply
    × (c.min_share_price_scaled * supply ≤ assets * ratio_scale)
    × (assets * ratio_scale < document_ceiling * supply)
    × (evidence ≡ yield_evidence c reader a s assets supply)
IsYieldVerdict c reader a s (ok (fail code)) =
    (assets : ℕ) × (supply : ℕ) × IsVaultState a s assets supply
    × (assets * ratio_scale < c.min_share_price_scaled * supply)
    × (code ≡ yield_share_price_below_floor)
IsYieldVerdict c reader a s (ok (unknown code)) =
    ¬ ((assets : ℕ) × (supply : ℕ) × IsVaultState a s assets supply)
IsYieldVerdict c reader a s (err thrown) =
    (assets : ℕ) × (supply : ℕ) × IsVaultState a s assets supply
    × (document_ceiling * supply ≤ assets * ratio_scale)
    × (thrown ≡ evidence_invalid)

-- All that a document needs of words that were decoded is that the price fits.
yield_evidence-schema :
    (c : YieldConfig) (reader : PinnedBlockReader) (a s : CallOutcome) (assets supply : ℕ)
    → yield_config_schema c ≡ true
    → block_anchor_schema reader.anchor ≡ true
    → read_observation_schema a.observation ≡ true
    → read_observation_schema s.observation ≡ true
    → assets < uint256_ceiling
    → supply < uint256_ceiling
    → yield_evidence_schema (yield_evidence c reader a s assets supply)
      ≡ evidence_uint256_decimal_schema (share_price assets supply)
unfolding yield_config_schema yield_evidence_schema envelope_schema
yield_evidence-schema c reader a s assets supply config anchor read_a read_s low high =
    ground (arith, config, anchor, read_a, read_s, low, high)

price_reaches :
    (bound assets supply : ℕ)
    → 0 < supply
    → leb bound (share_price assets supply) ≡ true
    → bound * supply ≤ assets * ratio_scale
unfolding share_price
price_reaches bound assets supply some_shares h =
    (le-div_iff_mul-le {k = supply} {x = bound} {y = assets * ratio_scale} some_shares).0
      (ground (arith, h))

price_misses :
    (bound assets supply : ℕ)
    → 0 < supply
    → leb bound (share_price assets supply) ≡ false
    → assets * ratio_scale < bound * supply
unfolding share_price
price_misses bound assets supply some_shares h =
    (div-lt_iff_lt-mul {k = supply} {x = assets * ratio_scale} {y = bound} some_shares).0
      (ground (arith, h))

module _ (c : YieldConfig) (reader : PinnedBlockReader) (a s : CallOutcome) where
  -- An outcome that the code computes to.
  computed :
      (result code : Result AdapterError (AdapterResult YieldEvidence))
      → code ≡ result
      → IsYieldVerdict c reader a s result
      → IsYieldVerdict c reader a s code
  computed result code same meant = subst (λ r. IsYieldVerdict c reader a s r) (sym same) meant

  judge_yield-IsYieldVerdict :
      (assets supply : ℕ)
      → yield_config_schema c ≡ true
      → block_anchor_schema reader.anchor ≡ true
      → read_observation_schema a.observation ≡ true
      → read_observation_schema s.observation ≡ true
      → IsVaultState a s assets supply
      → IsYieldVerdict c reader a s (judge_yield c reader a s assets supply)
  unfolding judge_yield IsVaultState IsYieldVerdict
  judge_yield-IsYieldVerdict assets supply config anchor read_a read_s state =
      let some_shares : 0 < supply = state.4 in
      let shares : eqb supply 0 ≡ false = (ground (arith, some_shares)) in
      let schema =
        yield_evidence-schema c reader a s assets supply config anchor read_a read_s
          (decode_uint256_bound a.data_hex 0 assets state.2)
          (decode_uint256_bound s.data_hex 0 supply state.3) in
      elim (Bool-cases (leb document_ceiling (share_price assets supply))) [
        | inl huge ↦
            let refused : yield_evidence_schema (yield_evidence c reader a s assets supply)
                ≡ false =
              (ground (arith, schema, huge)) in
            computed (err evidence_invalid) (judge_yield c reader a s assets supply)
              (rw (shares, refused) refl)
              (
                assets,
                supply,
                state,
                price_reaches document_ceiling assets supply some_shares huge,
                refl,
              )
        | inr fits ↦
            let valid : yield_evidence_schema (yield_evidence c reader a s assets supply) ≡ true =
              (ground (arith, schema, fits)) in
            elim (Bool-cases (leb c.min_share_price_scaled (share_price assets supply))) [
              | inl above ↦
                  computed (ok (pass (yield_evidence c reader a s assets supply)))
                    (judge_yield c reader a s assets supply) (rw (shares, valid, above) refl)
                    (
                      assets,
                      supply,
                      state,
                      price_reaches c.min_share_price_scaled assets supply some_shares above,
                      price_misses document_ceiling assets supply some_shares fits,
                      refl,
                    )
              | inr below ↦
                  computed (ok (fail yield_share_price_below_floor))
                    (judge_yield c reader a s assets supply) (rw (shares, valid, below) refl)
                    (
                      assets,
                      supply,
                      state,
                      price_misses c.min_share_price_scaled assets supply some_shares below,
                      refl,
                    )
            ]
      ]

  same_word : (o : Option ℕ) (x y : ℕ) → o ≡ some x → o ≡ some y → x ≡ y
  same_word o x y h k = cc

  -- The words decoded; a supply of none has no price.
  words-IsYieldVerdict :
      (assets supply : ℕ)
      → yield_config_schema c ≡ true
      → block_anchor_schema reader.anchor ≡ true
      → read_observation_schema a.observation ≡ true
      → read_observation_schema s.observation ≡ true
      → has_words 1 (word_count a.data_hex) ≡ true
      → has_words 1 (word_count s.data_hex) ≡ true
      → decode_uint256 a.data_hex 0 ≡ some assets
      → decode_uint256 s.data_hex 0 ≡ some supply
      → IsYieldVerdict c reader a s (judge_yield c reader a s assets supply)
  unfolding judge_yield IsYieldVerdict IsVaultState
  words-IsYieldVerdict assets supply config anchor read_a read_s one_a one_s word_a word_s =
      elim (Bool-cases (eqb supply 0)) [
        | inl none_out ↦
            computed (ok (unknown yield_share_price_undefined))
              (judge_yield c reader a s assets supply) (rw none_out refl)
              (λ state.
                let same : state.1 ≡ supply =
                  same_word (decode_uint256 s.data_hex 0) state.1 supply state.2.3 word_s in
                ground (arith, none_out, same, state.2.4))
        | inr some_out ↦
            judge_yield-IsYieldVerdict assets supply config anchor read_a read_s
              (one_a, one_s, word_a, word_s, ground (arith, some_out))
      ]

  read_yield-IsYieldVerdict :
      yield_config_schema c ≡ true
      → block_anchor_schema reader.anchor ≡ true
      → read_observation_schema a.observation ≡ true
      → read_observation_schema s.observation ≡ true
      → IsYieldVerdict c reader a s (read_yield c reader a s)
  unfolding read_yield IsYieldVerdict IsVaultState
  read_yield-IsYieldVerdict config anchor read_a read_s =
      elim (Bool-cases
        (has_words 1 (word_count a.data_hex) && has_words 1 (word_count s.data_hex))) [
          | inr odd ↦
              computed (ok (unknown read_returndata_malformed)) (read_yield c reader a s)
                (rw odd refl) (λ state. ground (arith, odd, state.2))
          | inl words ↦ elim (Option-cases (decode_uint256 a.data_hex 0)) [
            | inl lost ↦
                computed (ok (unknown read_returndata_malformed)) (read_yield c reader a s)
                  (rw (words, lost) refl) (λ state. ground (arith, lost, state.2))
            | inr first ↦ elim (Option-cases (decode_uint256 s.data_hex 0)) [
              | inl lost ↦
                  computed (ok (unknown read_returndata_malformed)) (read_yield c reader a s)
                    (rw (words, first.1, lost) refl) (λ state. ground (arith, lost, state.2))
              | inr second ↦
                  computed (judge_yield c reader a s first.0 second.0) (read_yield c reader a s)
                    (rw (words, first.1, second.1) refl)
                    (words-IsYieldVerdict first.0 second.0 config anchor read_a read_s
                      (ground (arith, words)) (ground (arith, words)) first.1 second.1)
            ]
          ]
        ]

  -- For a valid configuration, a valid anchor and two answers with valid observations, evaluating
  -- a vault has one of four outcomes: unknown where either word or the shares are missing; else a
  -- failure only where the assets times 10^18 are below the floor times the supply; a pass, with
  -- the evidence, only where they are not and the share price is below 10^78; and, only where the
  -- assets times 10^18 are 10^78 times the supply or more, an exception for evidence that its
  -- schema refuses.
  pub evaluate_yield-IsYieldVerdict :
      yield_config_schema c ≡ true
      → block_anchor_schema reader.anchor ≡ true
      → reader.call (codes "totalAssets") c.vault_address (codes "0x01e1d114") ≡ some a
      → reader.call (codes "totalSupply") c.vault_address (codes "0x18160ddd") ≡ some s
      → read_observation_schema a.observation ≡ true
      → read_observation_schema s.observation ≡ true
      → IsYieldVerdict c reader a s (evaluate_yield c reader)
  unfolding evaluate_yield
  evaluate_yield-IsYieldVerdict config anchor answered_a answered_s read_a read_s =
      computed (read_yield c reader a s) (evaluate_yield c reader)
        (rw (config, answered_a, answered_s) refl)
        (read_yield-IsYieldVerdict config anchor read_a read_s)
