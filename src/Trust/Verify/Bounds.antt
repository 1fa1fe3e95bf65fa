-- ===== src/Trust/Verify/Bounds.antt =====
-- tools/marketplace-core/src/trust-bundle.ts: how old a verified bundle can be, and how long it can last.
use mandate_x.Base.{Str, ◌+◌, ◌≤◌, ◌<◌, ◌≡◌, Bool, Option, Result, ok, check-eq-ok, arith}
use mandate_x.Trust.{TrustBundle, DurableState, TrustError}
use mandate_x.Trust.Verify.{Platform, VerifiedBundle, verify_bundle}
use mandate_x.Trust.Verify.Envelope.{
  VerificationOptions, RollbackFloor, assert_verification_options, assert_freshness,
  assert_rollback_floor,
}
use mandate_x.Trust.Verify.Inversion.{verify_bundle-Verified}

options-AreBounded :
    (root_is_valid : Bool) (o : VerificationOptions)
    → assert_verification_options root_is_valid o ≡ ok tt
    → (1 ≤ o.evaluated_at) × (o.max_clock_skew_seconds ≤ 300) × (o.max_bundle_ttl_seconds ≤ 604800)
unfolding assert_verification_options
options-AreBounded root_is_valid o h = ground arith

freshness-IsBounded :
    (envelope : TrustBundle) (o : VerificationOptions)
    → assert_freshness envelope o ≡ ok tt
    → (envelope.issued_at ≤ o.evaluated_at + o.max_clock_skew_seconds)
      × (o.evaluated_at < envelope.expires_at)
      × (envelope.issued_at < envelope.expires_at)
      × (envelope.expires_at ≤ envelope.issued_at + o.max_bundle_ttl_seconds)
unfolding assert_freshness
freshness-IsBounded envelope o h = (ground arith, ground arith, ground arith, ground arith)

floor-IsBelow :
    (envelope : TrustBundle) (digest : Str) (floor : RollbackFloor)
    → assert_rollback_floor envelope digest floor ≡ ok tt
    → (floor.generation ≤ envelope.generation)
      × (floor.revocation_epoch ≤ envelope.revocation_epoch)
unfolding assert_rollback_floor
floor-IsBelow envelope digest floor h = (ground arith, ground arith)

module _ (platform : Platform) where
  -- A bundle that is verified was issued at most 300 seconds after the evaluation, expires after
  -- it, lasts at most 604800 seconds and ends at most 605100 seconds after the evaluation, and its
  -- generation and epoch are not below the rollback floor.
  pub verify_bundle-IsBounded :
      (decoded : Result TrustError TrustBundle) (root_key_id : Str) (root_is_valid : Bool)
      (options : VerificationOptions) (floor : RollbackFloor) (prior : Option DurableState)
      (v : VerifiedBundle)
      → verify_bundle platform decoded root_key_id root_is_valid options floor prior ≡ ok v
      → (v.envelope.issued_at ≤ options.evaluated_at + 300)
        × (options.evaluated_at < v.envelope.expires_at)
        × (v.envelope.expires_at ≤ v.envelope.issued_at + 604800)
        × (v.envelope.expires_at ≤ options.evaluated_at + 605100)
        × (floor.generation ≤ v.envelope.generation)
        × (floor.revocation_epoch ≤ v.envelope.revocation_epoch)
  unfolding verify_bundle
  verify_bundle-IsBounded decoded root_key_id root_is_valid options floor prior v h =
      let bundle =
        verify_bundle-Verified platform decoded root_key_id root_is_valid options floor prior v h in
      let fresh = freshness-IsBounded v.envelope options bundle.1.checked.fresh in
      let below =
        floor-IsBelow v.envelope (platform.bundle_digest v.envelope) floor bundle.1.checked.above in
      let o =
        options-AreBounded root_is_valid options
          (check-eq-ok (assert_verification_options root_is_valid options) _ v h).0 in
      (
        omega (arith, fresh.0, o.1),
        fresh.1,
        omega (arith, fresh.3, o.2),
        omega (arith, fresh.0, fresh.3, o.1, o.2),
        below.0,
        below.1,
      )
