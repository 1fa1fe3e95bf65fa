-- ===== src/Adapters/VenusHealth/Verdict.antt =====
-- tools/category-adapters/src/venus-health.ts: what a verdict on an account says of the words that were read.
use mandate_x.Base.{
  ℕ, ◌≤◌, ◌<◌, ◌≡◌, refl, sym, subst, ◌⊎◌, true, false, ◌&&◌, Option, none, some, Option-cases,
  Bool-cases, inl, inr, ltb, leb, eqb, Str, codes, [], ◌∷◌, Result, ok, err, arith,
}
use mandate_x.Adapters.{
  AdapterResult, pass, fail, unknown, AdapterError, AdapterFailCode, evidence_invalid,
  venus_account_shortfall, venus_liquidity_below_floor, read_returndata_malformed,
  venus_liquidity_computation_failed, venus_no_position, venus_no_debt_position,
  venus_liquidity_inconsistent, PinnedBlockReader,
}
use mandate_x.Adapters.Abi.{
  word_count, decode_uint256, decode_dynamic_array_length, address_calldata, uint256_ceiling,
}
use mandate_x.Adapters.Abi.Bounds.{decode_uint256_bound}
use mandate_x.Adapters.Evidence.{
  VenusHealthEvidence, venus_health_evidence_schema, envelope_schema, block_anchor_schema,
  read_observation_schema,
}
use mandate_x.Adapters.Grid.{is_short}
use mandate_x.Adapters.Yield.{has_words}
use mandate_x.Adapters.VenusHealth.{
  VenusHealthConfig, venus_health_config_schema, VenusReads, VenusWords, venus_evidence,
  venus_verdict, judge_venus, first_word, venus_words, read_venus, venus_calls,
  evaluate_venus_health,
}

-- Each value is the word of its place: the error, the liquidity and the shortfall in this order, the length of
-- the array of markets, and the first word of the debt, of any number of words.
pub IsWord : VenusReads → VenusWords → Type 0
IsWord reads w =
    (decode_uint256 reads.liquidity.data_hex 0 ≡ some w.error)
    × (decode_uint256 reads.liquidity.data_hex 1 ≡ some w.liquidity)
    × (decode_uint256 reads.liquidity.data_hex 2 ≡ some w.shortfall)
    × (decode_dynamic_array_length reads.assets.data_hex ≡ some w.markets_entered)
    × (is_short 1 (word_count reads.borrow.data_hex) ≡ false)
    × (decode_uint256 reads.borrow.data_hex 0 ≡ some w.borrow_balance)

-- The words were all there.
pub IsAnswer : VenusReads → VenusWords → Type 0
IsAnswer reads w = (has_words 3 (word_count reads.liquidity.data_hex) ≡ true) × IsWord reads w

-- They are of an account with a debt, and agree with each other.
pub IsDebtPosition : VenusReads → VenusWords → Type 0
IsDebtPosition reads w =
    IsAnswer reads w
    × (w.error ≡ 0)
    × (¬ ((0 < w.liquidity) × (0 < w.shortfall)))
    × (0 < w.markets_entered)
    × (0 < w.borrow_balance)

-- What a failure has to mean, by its code.
pub IsVenusFailure : VenusHealthConfig → VenusWords → AdapterFailCode → Type 0
IsVenusFailure c w code =
    ((code ≡ venus_account_shortfall) × (0 < w.shortfall))
    ⊎ ((code ≡ venus_liquidity_below_floor)
        × (w.shortfall ≡ 0)
        × (w.liquidity < c.min_liquidity_usd_scaled))

-- The document has the words under their names, and the configuration and the reads that they are of.
pub IsVenusEvidence :
    VenusHealthConfig → PinnedBlockReader → VenusReads → VenusWords → VenusHealthEvidence → Type 0
IsVenusEvidence c reader reads w e =
    (e.observed ≡ reader.anchor)
    × (e.comptroller_address ≡ c.comptroller_address)
    × (e.account_address ≡ c.account_address)
    × (e.borrow_market_address ≡ c.borrow_market_address)
    × (e.min_liquidity_usd_scaled ≡ c.min_liquidity_usd_scaled)
    × (e.liquidity_usd_scaled ≡ w.liquidity)
    × (e.shortfall_usd_scaled ≡ w.shortfall)
    × (e.markets_entered ≡ w.markets_entered)
    × (e.borrow_balance_stored ≡ w.borrow_balance)
    × (e.reads
        ≡ reads.liquidity.observation ∷ reads.assets.observation ∷ reads.borrow.observation ∷ [])

-- What the outcome has to mean.
pub IsVenusVerdict :
    VenusHealthConfig
    → PinnedBlockReader
    → VenusReads
    → Result AdapterError (AdapterResult VenusHealthEvidence)
    → Type 0
IsVenusVerdict c reader reads (ok (pass evidence)) =
    (w : VenusWords) × IsDebtPosition reads w
    × (w.shortfall ≡ 0)
    × (c.min_liquidity_usd_scaled ≤ w.liquidity)
    × (w.markets_entered ≤ 1000)
    × IsVenusEvidence c reader reads w evidence
IsVenusVerdict c reader reads (ok (fail code)) =
    (w : VenusWords) × IsDebtPosition reads w × IsVenusFailure c w code
IsVenusVerdict c reader reads (ok (unknown code)) = ¬ ((w : VenusWords) × IsDebtPosition reads w)
IsVenusVerdict c reader reads (err thrown) =
    (w : VenusWords) × IsAnswer reads w × (1000 < w.markets_entered) × (thrown ≡ evidence_invalid)

IsBoundedWords : VenusWords → Type 0
IsBoundedWords w =
    (w.liquidity < uint256_ceiling)
    × (w.shortfall < uint256_ceiling)
    × (w.borrow_balance < uint256_ceiling)

IsWord-IsBoundedWords : (reads : VenusReads) (w : VenusWords) → IsWord reads w → IsBoundedWords w
unfolding IsWord IsBoundedWords
IsWord-IsBoundedWords reads w (error, liquidity, shortfall, markets, long, debt) = (
  decode_uint256_bound reads.liquidity.data_hex 1 w.liquidity liquidity,
  decode_uint256_bound reads.liquidity.data_hex 2 w.shortfall shortfall,
  decode_uint256_bound reads.borrow.data_hex 0 w.borrow_balance debt,
)

-- The words of their places are what the code takes together.
venus_words-eq-some :
    (reads : VenusReads) (w : VenusWords) → IsWord reads w → venus_words reads ≡ some w
unfolding venus_words IsWord
venus_words-eq-some reads w (error, liquidity, shortfall, markets, long, debt) =
    rw (venus_words, error, liquidity, shortfall, markets, long, debt) refl

first_word-eq-some :
    (data_hex : Str) (n : ℕ)
    → first_word data_hex ≡ some n
    → (is_short 1 (word_count data_hex) ≡ false) × (decode_uint256 data_hex 0 ≡ some n)
first_word-eq-some data_hex n h = elim (Bool-cases (is_short 1 (word_count data_hex))) [
  | inl short ↦ ground (arith, short)
  | inr long ↦ (long, ground (arith, long))
]

-- The words are lost, or they are words.
venus_words-cases :
    (reads : VenusReads) → (venus_words reads ≡ none) ⊎ ((w : VenusWords) × IsWord reads w)
unfolding venus_words IsWord
venus_words-cases reads = elim (Option-cases (decode_uint256 reads.liquidity.data_hex 0)) [
  | inl lost ↦ inl (rw (venus_words, lost) refl)
  | inr e ↦ elim (Option-cases (decode_uint256 reads.liquidity.data_hex 1)) [
    | inl lost ↦ inl (rw (venus_words, e.1, lost) refl)
    | inr l ↦ elim (Option-cases (decode_uint256 reads.liquidity.data_hex 2)) [
      | inl lost ↦ inl (rw (venus_words, e.1, l.1, lost) refl)
      | inr s ↦ elim (Option-cases (decode_dynamic_array_length reads.assets.data_hex)) [
        | inl lost ↦ inl (rw (venus_words, e.1, l.1, s.1, lost) refl)
        | inr m ↦ elim (Option-cases (first_word reads.borrow.data_hex)) [
          | inl lost ↦ inl (rw (venus_words, e.1, l.1, s.1, m.1, lost) refl)
          | inr b ↦
              let first = first_word-eq-some reads.borrow.data_hex b.0 b.1 in
              inr (
                record {
                  error = e.0;
                  liquidity = l.0;
                  shortfall = s.0;
                  markets_entered = m.0;
                  borrow_balance = b.0;
                },
                (e.1, l.1, s.1, m.1, first.0, first.1),
              )
        ]
      ]
    ]
  ]
]

module _ (c : VenusHealthConfig) (reader : PinnedBlockReader) (reads : VenusReads) where
  -- All that a document needs of words is a thousand markets at most.
  venus_evidence-schema :
      (w : VenusWords)
      → venus_health_config_schema c ≡ true
      → block_anchor_schema reader.anchor ≡ true
      → read_observation_schema reads.liquidity.observation ≡ true
      → read_observation_schema reads.assets.observation ≡ true
      → read_observation_schema reads.borrow.observation ≡ true
      → IsBoundedWords w
      → venus_health_evidence_schema (venus_evidence c reader reads w) ≡ leb w.markets_entered 1000
  unfolding venus_health_config_schema venus_health_evidence_schema envelope_schema IsBoundedWords
  venus_evidence-schema w config anchor first second third bounded =
      ground (arith, config, anchor, first, second, third, bounded)

  -- An outcome that the code computes to.
  computed :
      (result code : Result AdapterError (AdapterResult VenusHealthEvidence))
      → code ≡ result
      → IsVenusVerdict c reader reads result
      → IsVenusVerdict c reader reads code
  computed result code same meant = subst (λ r. IsVenusVerdict c reader reads r) (sym same) meant

  same_words : (o : Option VenusWords) (v w : VenusWords) → o ≡ some v → o ≡ some w → v ≡ w
  same_words o v w h k = cc

  -- No words are of a position where those that were decoded are not.
  refuted :
      (w : VenusWords)
      → IsWord reads w
      → ¬ IsDebtPosition reads w
      → ¬ ((v : VenusWords) × IsDebtPosition reads v)
  unfolding IsDebtPosition IsAnswer
  refuted w here wrong (v, position) =
      let same : v ≡ w =
        same_words (venus_words reads) v w (venus_words-eq-some reads v position.0.1)
          (venus_words-eq-some reads w here) in
      wrong (subst (λ x. IsDebtPosition reads x) same position)

  named : (w : VenusWords) → IsVenusEvidence c reader reads w (venus_evidence c reader reads w)
  unfolding IsVenusEvidence
  named w = (refl, refl, refl, refl, refl, refl, refl, refl, refl, refl)

  -- The four tests after the evidence, on words that agree with each other and fit a document.
  verdict-IsVenusVerdict :
      (w : VenusWords)
      → IsAnswer reads w
      → w.error ≡ 0
      → ¬ ((0 < w.liquidity) × (0 < w.shortfall))
      → w.markets_entered ≤ 1000
      → IsVenusVerdict c reader reads (ok (venus_verdict c (venus_evidence c reader reads w) w))
  unfolding venus_verdict IsVenusVerdict IsVenusFailure IsDebtPosition IsAnswer
  verdict-IsVenusVerdict w answer fine agrees few =
      let code : Result AdapterError (AdapterResult VenusHealthEvidence) =
        ok (venus_verdict c (venus_evidence c reader reads w) w) in
      elim (Bool-cases (eqb w.markets_entered 0)) [
        | inl empty ↦
            computed (ok (unknown venus_no_position)) code (rw empty refl)
              (refuted w answer.1 (λ position. ground (arith, empty, position.3)))
        | inr entered ↦ elim (Bool-cases (eqb w.borrow_balance 0)) [
          | inl empty ↦
              computed (ok (unknown venus_no_debt_position)) code (rw (entered, empty) refl)
                (refuted w answer.1 (λ position. ground (arith, empty, position.4)))
          | inr owes ↦
              let position : IsDebtPosition reads w =
                (answer, fine, agrees, ground (arith, entered), ground (arith, owes)) in
              elim (Bool-cases (ltb 0 w.shortfall)) [
                | inl short ↦
                    computed (ok (fail venus_account_shortfall)) code
                      (rw (entered, owes, short) refl)
                      (w, position, inl (refl, ground (arith, short)))
                | inr enough ↦ elim (Bool-cases (leb c.min_liquidity_usd_scaled w.liquidity)) [
                  | inl above ↦
                      computed (ok (pass (venus_evidence c reader reads w))) code
                        (rw (entered, owes, enough, above) refl)
                        (w, position, ground (arith, enough), ground (arith, above), few, named w)
                  | inr below ↦
                      computed (ok (fail venus_liquidity_below_floor)) code
                        (rw (entered, owes, enough, below) refl)
                        (w, position, inr (refl, ground (arith, enough), ground (arith, below)))
                ]
              ]
        ]
      ]

  judge_venus-IsVenusVerdict :
      (w : VenusWords)
      → venus_health_evidence_schema (venus_evidence c reader reads w) ≡ leb w.markets_entered 1000
      → IsAnswer reads w
      → IsVenusVerdict c reader reads (judge_venus c reader reads w)
  unfolding judge_venus IsVenusVerdict IsDebtPosition IsAnswer
  judge_venus-IsVenusVerdict w schema answer = elim (Bool-cases (eqb w.error 0)) [
    | inr failed ↦
        computed (ok (unknown venus_liquidity_computation_failed)) (judge_venus c reader reads w)
          (rw failed refl) (refuted w answer.1 (λ position. ground (arith, failed, position.1)))
    | inl fine ↦ elim (Bool-cases (ltb 0 w.liquidity && ltb 0 w.shortfall)) [
      | inl both ↦
          computed (ok (unknown venus_liquidity_inconsistent)) (judge_venus c reader reads w)
            (rw (fine, both) refl)
            (refuted w answer.1
              (λ position. position.2 (ground (arith, both), ground (arith, both))))
      | inr agrees ↦ elim (Bool-cases (leb w.markets_entered 1000)) [
        | inr many ↦
            computed (err evidence_invalid) (judge_venus c reader reads w)
              (rw (fine, agrees, schema, many) refl) (w, answer, ground (arith, many), refl)
        | inl few ↦
            computed (ok (venus_verdict c (venus_evidence c reader reads w) w))
              (judge_venus c reader reads w) (rw (fine, agrees, schema, few) refl)
              (verdict-IsVenusVerdict w answer (ground (arith, fine))
                (λ both. ground (arith, agrees, both)) (ground (arith, few)))
      ]
    ]
  ]

  read_venus-IsVenusVerdict :
      venus_health_config_schema c ≡ true
      → block_anchor_schema reader.anchor ≡ true
      → read_observation_schema reads.liquidity.observation ≡ true
      → read_observation_schema reads.assets.observation ≡ true
      → read_observation_schema reads.borrow.observation ≡ true
      → IsVenusVerdict c reader reads (read_venus c reader reads)
  unfolding read_venus IsVenusVerdict IsDebtPosition IsAnswer
  read_venus-IsVenusVerdict config anchor first second third =
      elim (Bool-cases (has_words 3 (word_count reads.liquidity.data_hex))) [
        | inr odd ↦
            computed (ok (unknown read_returndata_malformed)) (read_venus c reader reads)
              (rw odd refl) (λ found. ground (arith, odd, found.1.0))
        | inl three ↦ elim (venus_words-cases reads) [
          | inl lost ↦
              computed (ok (unknown read_returndata_malformed)) (read_venus c reader reads)
                (rw (three, lost) refl)
                (λ found. ground (arith, lost, venus_words-eq-some reads found.0 found.1.0.1))
          | inr here ↦
              computed (judge_venus c reader reads here.0) (read_venus c reader reads)
                (rw (three, venus_words-eq-some reads here.0 here.1) refl)
                (judge_venus-IsVenusVerdict here.0
                  (venus_evidence-schema here.0 config anchor first second third
                    (IsWord-IsBoundedWords reads here.0 here.1))
                  (three, here.1))
        ]
      ]

  -- For a valid configuration, a valid anchor and answers with valid observations to the calls of
  -- getAccountLiquidity and getAssetsIn at the comptroller and of borrowBalanceStored at the
  -- market, evaluating a Venus account passes only where the words, each at its place in an
  -- answer, are of a debt position without a shortfall, with no less liquidity than the floor and
  -- at most 1000 markets, and the evidence has each of them under its name; it fails only on such
  -- a position with a shortfall, or without one and with liquidity below the floor, by its code;
  -- it is unknown only where the words are of no debt position; and it throws, an exception for
  -- its evidence, only where more than 1000 markets were entered.
  pub evaluate_venus_health-IsVenusVerdict :
      venus_health_config_schema c ≡ true
      → block_anchor_schema reader.anchor ≡ true
      → reader.call
          (codes "getAccountLiquidity")
          c.comptroller_address
          (address_calldata (codes "0x5ec88c79") c.account_address)
        ≡ some reads.liquidity
      → reader.call
          (codes "getAssetsIn")
          c.comptroller_address
          (address_calldata (codes "0xabfceffc") c.account_address)
        ≡ some reads.assets
      → reader.call
          (codes "borrowBalanceStored")
          c.borrow_market_address
          (address_calldata (codes "0x95dd9193") c.account_address)
        ≡ some reads.borrow
      → read_observation_schema reads.liquidity.observation ≡ true
      → read_observation_schema reads.assets.observation ≡ true
      → read_observation_schema reads.borrow.observation ≡ true
      → IsVenusVerdict c reader reads (evaluate_venus_health c reader)
  unfolding evaluate_venus_health venus_calls
  evaluate_venus_health-IsVenusVerdict config anchor answered_l answered_a answered_b first second
        third =
      computed (read_venus c reader reads) (evaluate_venus_health c reader)
        (rw (config, answered_l, answered_a, answered_b) refl)
        (read_venus-IsVenusVerdict config anchor first second third)
