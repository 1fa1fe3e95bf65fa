-- ===== src/Trust/Permanence/Rollback.antt =====
-- tools/marketplace-core/src/trust-bundle.ts: the bundles that a durable state refuses as a rollback.
use mandate_x.Base.{
  ◌<◌, ◌≤◌, ◌↔◌, ◌≡◌, ◌≢◌, ◌⊎◌, true, Bool, some, Str, str_eq, str_beq_iff, ok, err, arith,
}
use mandate_x.Trust.{AdapterMode, ReleaseDefinition, TrustBundle, DurableState, rollback_detected}
use mandate_x.Trust.Schema.{durable_state_schema}
use mandate_x.Trust.Transition.{state_of, parse_state, validate_after, validate_durable_transition}
use mandate_x.Trust.Permanence.Errors.{assert_durable_state_consistency-Avoids, advance-Avoids}
use mandate_x.Trust.Permanence.Steps.{Step, accept, Reach, once, then_on, transition-IsNoRollback}
use mandate_x.Trust.Transition.Consistency.{assert_durable_state_consistency}

-- An earlier generation, an earlier epoch, or another bundle of the same generation.
abbrev pub IsRollback : TrustBundle → Str → DurableState → Type 0
IsRollback envelope bundle_sha256 prior =
    (envelope.generation < prior.generation)
    ⊎ ((envelope.revocation_epoch < prior.revocation_epoch)
        ⊎ ((envelope.generation ≡ prior.generation) × (bundle_sha256 ≢ prior.bundle_sha256)))

module _ (adapter_mode_schema : AdapterMode → Bool)
    (definition_digest : ReleaseDefinition → Str) where
  validate_after-IsRollback :
      (envelope : TrustBundle) (bundle_sha256 : Str) (current prior : DurableState)
      → (validate_after adapter_mode_schema definition_digest envelope bundle_sha256 current prior
          ≡ err rollback_detected)
        ↔ ((durable_state_schema adapter_mode_schema prior ≡ true)
            × (assert_durable_state_consistency prior ≡ ok tt)
            × IsRollback envelope bundle_sha256 prior)
  unfolding validate_after
  validate_after-IsRollback envelope bundle_sha256 current prior = ground (
    arith,
    str_beq_iff bundle_sha256 prior.bundle_sha256,
    assert_durable_state_consistency-Avoids prior,
    advance-Avoids adapter_mode_schema definition_digest envelope current prior,
  )

  -- After a prior state the transition ends with the rollback error exactly when the state of the
  -- bundle and the prior state pass their schema, the prior state is consistent, and the bundle
  -- has an earlier generation, an earlier epoch, or the same generation with another digest: such
  -- a bundle is refused as a rollback whatever else is wrong with it, and no other refusal is
  -- reported as one.
  pub validate_durable_transition-IsRollback :
      (envelope : TrustBundle) (bundle_sha256 : Str) (prior : DurableState)
      → (validate_durable_transition adapter_mode_schema definition_digest envelope bundle_sha256
            (some prior)
          ≡ err rollback_detected)
        ↔ ((durable_state_schema adapter_mode_schema (state_of envelope bundle_sha256) ≡ true)
            × (durable_state_schema adapter_mode_schema prior ≡ true)
            × (assert_durable_state_consistency prior ≡ ok tt)
            × IsRollback envelope bundle_sha256 prior)
  unfolding validate_durable_transition parse_state
  validate_durable_transition-IsRollback envelope bundle_sha256 prior = ground (
    arith,
    validate_after-IsRollback envelope bundle_sha256 (state_of envelope bundle_sha256) prior,
  )

  Step-grows :
      (s t : DurableState)
      → Step adapter_mode_schema definition_digest s t
      → s.generation < t.generation
  Step-grows s t (accept envelope bundle_sha256 prior next later accepted) =
      let law =
        transition-IsNoRollback adapter_mode_schema definition_digest envelope bundle_sha256 prior
          next accepted in
      ground (arith, later, law.0.0, law.2)

  Reach-grows :
      (s t : DurableState)
      → Reach adapter_mode_schema definition_digest s t
      → s.generation < t.generation
  Reach-grows s t (once step) = Step-grows s t step
  Reach-grows s u (then_on {t} run step) = omega (arith, Reach-grows s t run, Step-grows t u step)

  -- After any sequence of accepted bundles of growing generations, no bundle of the first state's
  -- generation or of an earlier one is accepted.
  pub Reach-IsNoReplay :
      (s t : DurableState) (envelope : TrustBundle) (bundle_sha256 : Str) (next : DurableState)
      → Reach adapter_mode_schema definition_digest s t
      → envelope.generation ≤ s.generation
      → validate_durable_transition adapter_mode_schema definition_digest envelope bundle_sha256
          (some t)
        ≢ ok next
  Reach-IsNoReplay s t envelope bundle_sha256 next run old = λ accepted.
      let law =
        transition-IsNoRollback adapter_mode_schema definition_digest envelope bundle_sha256 t next
          accepted in
      ground (arith, law.0.0, law.2, Reach-grows s t run)
