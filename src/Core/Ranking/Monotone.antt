-- ===== src/Core/Ranking/Monotone.antt =====
-- How a score moves with what a quote asks for and how fresh its evidence is.
use mandate_x.Base.{
  ℕ, ◌-◌, ◌*◌, ◌/◌, ◌≤◌, ◌<◌, ◌≡◌, refl, arith, if◌then◌else◌, ℤ, pos, ◌≤ℤ◌, ◌<ℤ◌, ◌-ℤ◌, -ℤ_parts,
  pos_part, ◌⊎◌, inl, inr,
}
use mandate_x.Core.Mandate.{MarketplaceMandate}
use mandate_x.Core.Quote.{
  MarketplaceQuote, evidence_observed_at, passed, failed, unavailable, Preview, Pricing,
  normalized_zero, usd_unavailable,
}
use mandate_x.Core.Ranking.{
  clamp_bps, factor, points_total, factors_of, ratio_score, age_score, evidence_freshness,
  preview_freshness, risk_compatibility, total_cost, reputation_confidence, slippage_margin,
  is_passed, fee_usd_micros, score_of,
}

-- A part `x` of `d`, in basis points.
div_mono : (a b d : ℕ) → a ≤ b → a / d ≤ b / d
div_mono a b d h = grind arith

share_le : (x d : ℕ) → x ≤ d → x * 10000 / d ≤ 10000
share_le x d h = grind arith

pub age_score-le : (a m : ℕ) → age_score a m ≤ 10000
unfolding age_score
age_score-le a m = ground (arith, share_le (m - a) m)

-- Older evidence never scores more.
pub age_score_antitone : (a b m : ℕ) → a ≤ b → age_score b m ≤ age_score a m
unfolding age_score
age_score_antitone a b m h =
    ground (arith, share_le (m - b) m, div_mono ((m - b) * 10000) ((m - a) * 10000) m)

ratio_score-le : (n d : ℤ) → ratio_score n d ≤ 10000
unfolding ratio_score
ratio_score-le n d = ground (arith, share_le (pos_part d - pos_part n) (pos_part d))

-- Of a limit above zero, and of any limit where what is asked for is not below zero, asking for
-- more never scores more.
pub ratio_score_antitone :
    (n n' d : ℤ) → n ≤ℤ n' → (pos 0 ≤ℤ n) ⊎ (pos 0 <ℤ d) → ratio_score n' d ≤ ratio_score n d
unfolding ratio_score
ratio_score_antitone n n' d h k = ground (
  arith,
  share_le (pos_part d - pos_part n') (pos_part d),
  div_mono ((pos_part d - pos_part n') * 10000) ((pos_part d - pos_part n) * 10000) (pos_part d),
)

evidence_freshness-le :
    (m : MarketplaceMandate) (q : MarketplaceQuote) (t : ℕ) → evidence_freshness m q t ≤ 10000
unfolding evidence_freshness
evidence_freshness-le m q t = omega (arith, age_score-le)

margin_mono : (n n' d : ℕ) → n ≤ n' → ratio_score (pos n') (pos d) ≤ ratio_score (pos n) (pos d)
margin_mono n n' d h =
    ratio_score_antitone (pos n) (pos n') (pos d) (omega arith) (inl (omega arith))

fee_zero : (p : Pricing) → fee_usd_micros p ≡ 0
unfolding fee_usd_micros
fee_zero (normalized_zero _) = refl
fee_zero (usd_unavailable _ _) = refl

factor_mono : (w n n' : ℕ) → n ≤ n' → (factor w n).weighted_points ≤ (factor w n').weighted_points
unfolding factor clamp_bps
factor_mono w n n' h = grind arith

-- A preview that passed is fresher than a later one, and than none that passed.
abbrev pub IsFresher : Preview → Preview → Type 0
IsFresher (passed t _ _) (passed t' _ _) = t' ≤ t
IsFresher _ (passed _ _ _) = ⊥
IsFresher _ _ = Unit

freshness_mono :
    (t age : ℕ) (p p' : Preview)
    → IsFresher p p'
    → preview_freshness t age p' ≤ preview_freshness t age p
unfolding preview_freshness
freshness_mono t age (passed a _ _) (passed b _ _) h =
    age_score_antitone (t - a) (t - b) age (omega arith)
freshness_mono t age (passed _ _ _) (failed _) h = omega arith
freshness_mono t age (passed _ _ _) unavailable h = omega arith
freshness_mono t age (failed _) (passed _ _ _) h = absurd h
freshness_mono t age (failed _) (failed _) h = omega arith
freshness_mono t age (failed _) unavailable h = omega arith
freshness_mono t age unavailable (passed _ _ _) h = absurd h
freshness_mono t age unavailable (failed _) h = omega arith
freshness_mono t age unavailable unavailable h = omega arith

passed_mono :
    (p p' : Preview)
    → IsFresher p p'
    → (if is_passed p' then 10000 else 0) ≤ (if is_passed p then 10000 else 0)
passed_mono (passed a _ _) p' h = ground arith
passed_mono (failed _) (passed _ _ _) h = absurd h
passed_mono (failed _) (failed _) h = omega arith
passed_mono (failed _) unavailable h = omega arith
passed_mono unavailable (passed _ _ _) h = absurd h
passed_mono unavailable (failed _) h = omega arith
passed_mono unavailable unavailable h = omega arith

-- `q` asks for no more than `q'` under every heading of the score, and its evidence is no older.
pub record Dominates (q q' : MarketplaceQuote) : Type 0 where
  pub observed : q'.observed_at ≤ q.observed_at
  pub estimated : q'.estimates.observed_at ≤ q.estimates.observed_at
  pub evidenced :
      evidence_observed_at q'.category_evidence ≤ evidence_observed_at q.category_evidence
  pub reputed : q'.reputation.observed_at ≤ q.reputation.observed_at
  pub previewed : IsFresher q.preview q'.preview
  pub lifetime : q.permissions.expires_at ≤ q'.permissions.expires_at
  pub spend_cap : q.permissions.spend_cap_usd_micros ≤ q'.permissions.spend_cap_usd_micros
  pub exposure : q.estimates.exposure_usd_micros ≤ q'.estimates.exposure_usd_micros
  pub slippage : q.estimates.slippage_bps ≤ q'.estimates.slippage_bps
  pub gas : q.estimates.gas_usd_micros ≤ q'.estimates.gas_usd_micros
  pub score : q'.reputation.score_bps ≤ q.reputation.score_bps
  pub confidence : q'.reputation.evidence_confidence_bps ≤ q.reputation.evidence_confidence_bps
  pub samples : q'.reputation.sample_size ≤ q.reputation.sample_size

module _ (m : MarketplaceMandate) (q q' : MarketplaceQuote) (t : ℕ) (d : Dominates q q') where
  preview_freshness_mono :
      preview_freshness t m.max_preview_age_seconds q'.preview
      ≤ preview_freshness t m.max_preview_age_seconds q.preview
  preview_freshness_mono =
      freshness_mono t m.max_preview_age_seconds q.preview q'.preview d.previewed

  evidence_freshness_mono : evidence_freshness m q' t ≤ evidence_freshness m q t
  unfolding evidence_freshness
  evidence_freshness_mono = omega (
    arith,
    d.observed,
    age_score_antitone (t - q.observed_at) (t - q'.observed_at) m.max_evidence_age_seconds
        (omega (arith, d.observed)),
    age_score_antitone (t - q.estimates.observed_at) (t - q'.estimates.observed_at)
        m.max_evidence_age_seconds (omega (arith, d.estimated)),
    age_score_antitone (t - evidence_observed_at q.category_evidence)
        (t - evidence_observed_at q'.category_evidence) m.max_evidence_age_seconds
        (omega (arith, d.evidenced)),
    age_score_antitone (t - q.reputation.observed_at) (t - q'.reputation.observed_at)
        m.max_evidence_age_seconds (omega (arith, d.reputed)),
    preview_freshness_mono,
  )

  slippage_margin_mono : slippage_margin m q' ≤ slippage_margin m q
  slippage_margin_mono = margin_mono _ _ m.budgets.max_slippage_bps d.slippage

  total_cost_mono : total_cost m q' ≤ total_cost m q
  unfolding total_cost
  total_cost_mono =
      rw (fee_zero q.pricing, fee_zero q'.pricing)
        (omega (arith, slippage_margin_mono, margin_mono _ _ m.budgets.max_gas_usd_micros d.gas))

  risk_compatibility_mono :
      m.created_at < m.permissions.expires_at → risk_compatibility m q' ≤ risk_compatibility m q
  unfolding risk_compatibility
  risk_compatibility_mono h = omega (
    arith,
    slippage_margin_mono,
    margin_mono _ _ m.permissions.max_spend_usd_micros d.spend_cap,
    margin_mono _ _ m.budgets.max_exposure_usd_micros d.exposure,
    ratio_score_antitone (pos q.permissions.expires_at -ℤ pos m.created_at)
        (pos q'.permissions.expires_at -ℤ pos m.created_at)
        (pos m.permissions.expires_at -ℤ pos m.created_at) (omega (arith, -ℤ_parts, d.lifetime))
        (inr (omega (arith, -ℤ_parts))),
  )

  reputation_confidence_mono : reputation_confidence q' ≤ reputation_confidence q
  unfolding reputation_confidence
  reputation_confidence_mono = omega (arith, d.score, d.confidence, d.samples)

  readiness_mono :
      (if is_passed q'.preview then 10000 else 0) ≤ (if is_passed q.preview then 10000 else 0)
  readiness_mono = passed_mono q.preview q'.preview d.previewed

  -- Where the permission of the mandate has a lifetime, a quote that is no older under every
  -- heading, asks for no more and has no lower a reputation than another has no lower a total.
  pub score_of-Dominates :
      m.created_at < m.permissions.expires_at
      → (score_of m q' t).weighted_total ≤ (score_of m q t).weighted_total
  unfolding score_of points_total factors_of
  score_of-Dominates h = omega (
    arith,
    factor_mono 20 _ _ readiness_mono,
    factor_mono 20 _ _ evidence_freshness_mono,
    factor_mono 15 _ _ (risk_compatibility_mono h),
    factor_mono 10 _ _ total_cost_mono,
    factor_mono 5 _ _ reputation_confidence_mono,
  )
