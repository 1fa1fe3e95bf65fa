-- ===== src/Trust/Issuance/Conditions.antt =====
-- tools/marketplace-core/src/trust-bundle.ts: when a tuple authorizes an attestation, told apart from the code.
use mandate_x.Base.{ℕ, ◌≤◌, ◌<◌, ◌≡◌, ◌↔◌, ◌⊎◌, Bool, true, ok, arith}
use mandate_x.Trust.{Lifecycle, Validity, Channel, canary, production, TrustBundle}
use mandate_x.Trust.Resolve.{
  Phase, issuance, verification, ResolveInput, assert_issuance, assert_verification,
  assert_lifecycle_at_tuple, check_tuple,
}
use mandate_x.Trust.Verify.{VerifiedBundle}
use mandate_x.Trust.Verify.Tuples.{AuthorizedTuple}

abbrev Within : ℕ → ℕ → ℕ → Type 0
Within t not_before not_after = (not_before ≤ t) × (t < not_after)

-- Preactive material is for canary edges that the caller asked for.
abbrev IsCanary : Bool → Channel → Type 0
IsCanary allow_canary channel = (allow_canary ≡ true) × (channel ≡ canary)

abbrev MayIssue : Bool → Channel → ℕ → Validity → Type 0
MayIssue allow_canary channel t v =
    ((v.lifecycle ≡ Lifecycle.active)
      ⊎ ((v.lifecycle ≡ Lifecycle.preactive) × IsCanary allow_canary channel))
    × (v.lifecycle_changed_at ≤ t)

-- Material that is leaving vouches for what was issued before it left, and before the bundle.
abbrev MayVerify : Bool → Channel → ℕ → ℕ → Validity → Type 0
MayVerify allow_canary channel t bundle_issued_at v =
    ((v.lifecycle ≡ Lifecycle.active) × (v.lifecycle_changed_at ≤ t))
    ⊎ (((v.lifecycle ≡ Lifecycle.preactive) × IsCanary allow_canary channel)
        ⊎ (((v.lifecycle ≡ Lifecycle.retiring) ⊎ (v.lifecycle ≡ Lifecycle.retired))
            × (t < v.lifecycle_changed_at)
            × (t < bundle_issued_at)))

abbrev PhaseAllows : Phase → Bool → Channel → ℕ → ℕ → Validity → Validity → Type 0
PhaseAllows issuance allow_canary channel t bundle_issued_at key release =
    (bundle_issued_at ≤ t)
    × MayIssue allow_canary channel t key
    × MayIssue allow_canary channel t release
PhaseAllows verification allow_canary channel t bundle_issued_at key release =
    MayVerify allow_canary channel t bundle_issued_at key
    × MayVerify allow_canary channel t bundle_issued_at release

abbrev pub Authorizes : TrustBundle → ResolveInput → AuthorizedTuple → Type 0
Authorizes envelope input t =
    Within input.issued_at t.authorization.not_before t.authorization.not_after
    × Within input.issued_at t.key.validity.not_before t.key.validity.not_after
    × Within input.issued_at t.release.validity.not_before t.release.validity.not_after
    × ((t.authorization.channel ≡ production) ⊎ (input.allow_canary ≡ true))
    × PhaseAllows input.phase input.allow_canary t.authorization.channel input.issued_at
        envelope.issued_at t.key.validity t.release.validity
    × (input.issued_at < envelope.expires_at)

-- What the lifecycles and the phase decide.
lifecycles-of :
    (t : AuthorizedTuple) (at : ℕ) (phase : Phase) (allow_canary : Bool) (bundle_issued_at : ℕ)
    → ((assert_lifecycle_at_tuple t at phase allow_canary bundle_issued_at ≡ ok tt)
        × ((phase ≡ verification) ⊎ (bundle_issued_at ≤ at)))
      ↔ PhaseAllows phase allow_canary t.authorization.channel at bundle_issued_at t.key.validity
          t.release.validity
unfolding assert_lifecycle_at_tuple assert_issuance assert_verification
lifecycles-of t at issuance allow_canary bundle_issued_at = (λ h. ground arith, λ h. ground arith)
lifecycles-of t at verification allow_canary bundle_issued_at =
    (λ h. ground arith, λ h. ground arith)

check_tuple-parts :
    (v : VerifiedBundle) (input : ResolveInput) (t : AuthorizedTuple)
    → (check_tuple v input t ≡ ok tt) ↔ (
        Within input.issued_at t.authorization.not_before t.authorization.not_after
        × Within input.issued_at t.key.validity.not_before t.key.validity.not_after
        × Within input.issued_at t.release.validity.not_before t.release.validity.not_after
        × ((t.authorization.channel ≡ production) ⊎ (input.allow_canary ≡ true))
        × ((assert_lifecycle_at_tuple t input.issued_at input.phase input.allow_canary
                v.envelope.issued_at
              ≡ ok tt)
            × ((input.phase ≡ verification) ⊎ (v.envelope.issued_at ≤ input.issued_at)))
        × (input.issued_at < v.envelope.expires_at))
unfolding check_tuple
check_tuple-parts v input t = (λ h. ground arith, λ h. ground arith)

-- The checks of a tuple pass exactly when it authorizes the attestation: the time is inside the
-- edge, the key and the release, before the expiry of the bundle, a canary edge was allowed, and
-- the phase and the lifecycles fit, told per lifecycle for issuance and for verification.
pub check_tuple-Authorizes :
    (v : VerifiedBundle) (input : ResolveInput) (t : AuthorizedTuple)
    → (check_tuple v input t ≡ ok tt) ↔ Authorizes v.envelope input t
check_tuple-Authorizes v input t =
    let parts = check_tuple-parts v input t in
    let phase =
      lifecycles-of t input.issued_at input.phase input.allow_canary v.envelope.issued_at in
    (
      λ h. let p = parts.0 h in (p.0, p.1, p.2, p.3, phase.0 p.4, p.5),
      λ h. parts.1 (h.0, h.1, h.2, h.3, phase.1 h.4, h.5),
    )
