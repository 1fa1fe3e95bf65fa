-- ===== src/Trust/Permanence/Steps.antt =====
-- tools/marketplace-core/src/trust-bundle.ts: `validateDurableTransition` as a step between durable states.
use mandate_x.Base.{
  ◌<◌, ◌≤◌, ◌≡◌, refl, Bool, false, ◌||◌, some, ltb, eqb, Str, str_eq, str_beq_iff, ◌!=◌,
  if◌then◌else◌, ok, ◌>>=◌, Bool-cases, ◌⊎◌, inl, inr, check-eq-ok, refuse_if, refuse_if-eq-ok,
  for_each, arith,
}
use mandate_x.Base.Sort.{sort_by}
use mandate_x.Core.Primitives.{compare_canonical_strings}
use mandate_x.Trust.{
  AdapterMode, ReleaseDefinition, TrustBundle, DurableState, TrustError, rollback_detected,
}
use mandate_x.Trust.Transition.{
  state_of, parse_state, advance, validate_after, validate_durable_transition, revoked_fingerprints,
  fingerprint_kept, fingerprint_absent,
}
use mandate_x.Trust.Transition.Consistency.{assert_durable_state_consistency}
use mandate_x.Trust.Transition.Bindings.{validate_prior_bindings}
use mandate_x.Trust.Transition.Tombstones.{validate_current_tombstones}
use mandate_x.Trust.Transition.Authorizations.{validate_authorization_transition}

module _ (adapter_mode_schema : AdapterMode → Bool)
    (definition_digest : ReleaseDefinition → Str) where
  -- A bundle of a later generation that is accepted after the prior state.
  pub data Step : DurableState → DurableState → Type 0 where
    accept :
        (envelope : TrustBundle) (bundle_sha256 : Str) (prior next : DurableState)
        → prior.generation < envelope.generation
        → validate_durable_transition adapter_mode_schema definition_digest envelope bundle_sha256
            (some prior)
          ≡ ok next
        → Step prior next

  -- One step or more.
  pub data Reach (s : DurableState) : DurableState → Type 0 where
    once : {t : DurableState} → Step s t → Reach s t
    then_on : {t u : DurableState} → Reach s t → Step t u → Reach s u

  pub parse_state-eq-ok :
      (s t : DurableState) → parse_state adapter_mode_schema definition_digest s ≡ ok t → t ≡ s
  unfolding parse_state
  parse_state-eq-ok s t h = ground arith

  -- What the checks of a later generation were.
  pub record Passed (envelope : TrustBundle) (current prior next : DurableState) : Type 0 where
    pub kept : for_each (fingerprint_kept envelope) prior.revoked_key_fingerprints ≡ ok tt
    pub bindings : validate_prior_bindings definition_digest envelope prior ≡ ok tt
    pub tombstones : validate_current_tombstones envelope prior ≡ ok tt
    pub authorizations : validate_authorization_transition envelope prior ≡ ok tt
    pub absent :
        for_each (fingerprint_absent envelope) (revoked_fingerprints envelope prior) ≡ ok tt
    pub result : next ≡ (record current {
      revoked_key_fingerprints =
          sort_by compare_canonical_strings (revoked_fingerprints envelope prior);
    })

  pub advance-Passed :
      (envelope : TrustBundle) (current prior next : DurableState)
      → advance adapter_mode_schema definition_digest envelope current prior ≡ ok next
      → Passed envelope current prior next
  unfolding advance
  advance-Passed envelope current prior next h =
      let a = check-eq-ok _ _ next h in
      let b = check-eq-ok _ _ next a.1 in
      let c = check-eq-ok _ _ next b.1 in
      let d = check-eq-ok _ _ next c.1 in
      let e = check-eq-ok _ _ next d.1 in
      record {
        kept = a.0;
        bindings = b.0;
        tombstones = c.0;
        authorizations = d.0;
        absent = e.0;
        result = parse_state-eq-ok _ next e.1;
      }

  -- What comes before them, whatever the generation.
  pub record Began (envelope : TrustBundle) (bundle_sha256 : Str) (prior next : DurableState)
      : Type 0 where
    pub consistent : assert_durable_state_consistency prior ≡ ok tt
    pub no_rollback :
        (ltb envelope.generation prior.generation
          || ltb envelope.revocation_epoch prior.revocation_epoch)
        ≡ false
    pub rest :
        (if eqb envelope.generation prior.generation
          then (refuse_if (bundle_sha256 != prior.bundle_sha256) rollback_detected >>= λ _.
              ok (state_of envelope bundle_sha256))
          else advance adapter_mode_schema definition_digest envelope
              (state_of envelope bundle_sha256)
              prior)
        ≡ ok next

  pub validate_after-Began :
      (envelope : TrustBundle) (bundle_sha256 : Str) (prior next : DurableState)
      → validate_after adapter_mode_schema definition_digest envelope bundle_sha256
          (state_of envelope bundle_sha256)
          prior
        ≡ ok next
      → Began envelope bundle_sha256 prior next
  unfolding validate_after
  validate_after-Began envelope bundle_sha256 prior next h =
      let a = check-eq-ok _ _ next h in
      let b = check-eq-ok _ _ next a.1 in
      let c = check-eq-ok _ _ next b.1 in
      record { consistent = b.0; no_rollback = (refuse_if-eq-ok _ _).0 c.0; rest = c.1 }

  pub validate_durable_transition-Began :
      (envelope : TrustBundle) (bundle_sha256 : Str) (prior next : DurableState)
      → validate_durable_transition adapter_mode_schema definition_digest envelope bundle_sha256
          (some prior)
        ≡ ok next
      → Began envelope bundle_sha256 prior next
  unfolding validate_durable_transition parse_state
  validate_durable_transition-Began envelope bundle_sha256 prior next h =
      validate_after-Began envelope bundle_sha256 prior next (ground arith)

  -- A step passed the checks of a later generation.
  pub Step-Passed :
      (envelope : TrustBundle) (bundle_sha256 : Str) (prior next : DurableState)
      → prior.generation < envelope.generation
      → validate_durable_transition adapter_mode_schema definition_digest envelope bundle_sha256
          (some prior)
        ≡ ok next
      → Passed envelope (state_of envelope bundle_sha256) prior next
  Step-Passed envelope bundle_sha256 prior next later h =
      let began = validate_durable_transition-Began envelope bundle_sha256 prior next h in
      advance-Passed envelope (state_of envelope bundle_sha256) prior next
        (ground (arith, began.rest))

  -- A bundle of the same generation is the same bundle.
  repeat-IsSame :
      (envelope : TrustBundle) (bundle_sha256 : Str) (prior next : DurableState)
      → (refuse_if (bundle_sha256 != prior.bundle_sha256) rollback_detected >>= λ _.
          ok (state_of envelope bundle_sha256))
        ≡ ok next
      → (bundle_sha256 ≡ prior.bundle_sha256) × (next ≡ state_of envelope bundle_sha256)
  repeat-IsSame envelope bundle_sha256 prior next h =
      let a =
        check-eq-ok (refuse_if (bundle_sha256 != prior.bundle_sha256) rollback_detected) _ next h in
      let same =
        (refuse_if-eq-ok {E = TrustError} (bundle_sha256 != prior.bundle_sha256)
            rollback_detected).0
          a.0 in
      ((str_beq_iff bundle_sha256 prior.bundle_sha256).0 (ground arith), ground (arith, a.1))

  abbrev pub AsIn : DurableState → TrustBundle → Type 0
  AsIn next envelope =
      (next.generation ≡ envelope.generation)
      × (next.revocation_epoch ≡ envelope.revocation_epoch)
      × (next.keys ≡ envelope.keys)
      × (next.releases ≡ envelope.releases)
      × (next.authorizations ≡ envelope.authorizations)
      × (next.key_tombstones ≡ envelope.key_tombstones)
      × (next.release_tombstones ≡ envelope.release_tombstones)

  pub Passed-AsIn :
      (envelope : TrustBundle) (bundle_sha256 : Str) (prior next : DurableState)
      → Passed envelope (state_of envelope bundle_sha256) prior next
      → AsIn next envelope
  Passed-AsIn envelope bundle_sha256 prior next p =
      rw p.result (refl, refl, refl, refl, refl, refl, refl)

  -- A later generation, or the prior bundle once more.
  abbrev pub IsNoRollback : TrustBundle → Str → DurableState → DurableState → Type 0
  IsNoRollback envelope bundle_sha256 prior next =
      AsIn next envelope
      × (prior.revocation_epoch ≤ next.revocation_epoch)
      × ((prior.generation < next.generation)
          ⊎ ((envelope.generation ≡ prior.generation)
              × (bundle_sha256 ≡ prior.bundle_sha256)
              × (next ≡ state_of envelope bundle_sha256)))

  -- A transition that is accepted has the records of the bundle in its state and no earlier an
  -- epoch, and its generation is a later one, or else it is the prior generation with the prior
  -- digest and the state is the one of the bundle.
  pub transition-IsNoRollback :
      (envelope : TrustBundle) (bundle_sha256 : Str) (prior next : DurableState)
      → validate_durable_transition adapter_mode_schema definition_digest envelope bundle_sha256
          (some prior)
        ≡ ok next
      → IsNoRollback envelope bundle_sha256 prior next
  transition-IsNoRollback envelope bundle_sha256 prior next h =
      let b = validate_durable_transition-Began envelope bundle_sha256 prior next h in
      elim (Bool-cases (eqb envelope.generation prior.generation)) [
        | inl e ↦
            let r = repeat-IsSame envelope bundle_sha256 prior next (ground (arith, b.rest)) in
            let same : AsIn next envelope = (rw r.1 (refl, refl, refl, refl, refl, refl, refl)) in
            (same, ground (arith, b.no_rollback), inr (ground arith, r.0, r.1))
        | inr e ↦
            let p =
              advance-Passed envelope (state_of envelope bundle_sha256) prior next
                (ground (arith, b.rest)) in
            let same = Passed-AsIn envelope bundle_sha256 prior next p in
            (same, ground (arith, b.no_rollback), inl (ground (arith, b.no_rollback)))
      ]
