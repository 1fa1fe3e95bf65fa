-- ===== src/Trust/Verify/Envelope.antt =====
-- tools/marketplace-core/src/trust-bundle.ts: the caller's options, the rollback floor and the freshness
-- of a bundle.
use mandate_x.Base.{
  ℕ, ◌+◌, ◌-◌, Bool, true, not, ◌&&◌, ◌||◌, Option, none, some, leb, ltb, eqb, Str, str_eq, ◌!=◌,
  ◌>>=◌, refuse_if,
}
use mandate_x.Core.Primitives.{max_safe_integer}
use mandate_x.Core.Texts.{sha256_schema}
use mandate_x.Trust.{
  TrustBundle, input_invalid, not_yet_valid, freshness_invalid, expired, rollback_detected, Check,
}
use mandate_x.Trust.Schema.{monotonic_counter_schema}
use mandate_x.Trust.Lookup.{holds_for, is_some}

-- The options that are numbers.
pub record VerificationOptions : Type 0 where
  pub evaluated_at : ℕ
  pub max_clock_skew_seconds : ℕ
  pub max_bundle_ttl_seconds : ℕ

abbrev pub max_ttl_seconds : ℕ
max_ttl_seconds = 604800

unfoldable pub assert_verification_options : Bool → VerificationOptions → Check
assert_verification_options root_is_valid o = refuse_if (not root_is_valid) input_invalid >>= λ _.
    refuse_if (not (leb 1 o.evaluated_at && leb o.evaluated_at max_safe_integer)) input_invalid
    >>= λ _. refuse_if (ltb 300 o.max_clock_skew_seconds) input_invalid >>= λ _.
        refuse_if
          (not (leb 1 o.max_bundle_ttl_seconds && leb o.max_bundle_ttl_seconds max_ttl_seconds))
          input_invalid

pub record RollbackFloor : Type 0 where
  pub generation : ℕ
  pub revocation_epoch : ℕ
  pub bundle_sha256 : Option Str

unfoldable pub rollback_floor_schema : RollbackFloor → Bool
rollback_floor_schema f =
    monotonic_counter_schema f.generation
    && monotonic_counter_schema f.revocation_epoch
    && elim f.bundle_sha256 [ none ↦ true | some digest ↦ sha256_schema digest ]

unfoldable pub parse_rollback_floor : RollbackFloor → Check
parse_rollback_floor f = refuse_if (not (rollback_floor_schema f)) input_invalid >>= λ _.
    refuse_if (eqb f.generation 0 && is_some f.bundle_sha256) input_invalid

unfoldable pub assert_freshness : TrustBundle → VerificationOptions → Check
assert_freshness envelope o =
    refuse_if (ltb (o.evaluated_at + o.max_clock_skew_seconds) envelope.issued_at) not_yet_valid
    >>= λ _. refuse_if (leb envelope.expires_at envelope.issued_at) freshness_invalid >>= λ _.
        refuse_if (ltb o.max_bundle_ttl_seconds (envelope.expires_at - envelope.issued_at))
          freshness_invalid
        >>= λ _. refuse_if (leb envelope.expires_at o.evaluated_at) expired

unfoldable pub assert_rollback_floor : TrustBundle → Str → RollbackFloor → Check
assert_rollback_floor envelope bundle_sha256 floor =
    refuse_if
      (ltb envelope.generation floor.generation
        || ltb envelope.revocation_epoch floor.revocation_epoch)
      rollback_detected
    >>= λ _.
        refuse_if
          (eqb envelope.generation floor.generation
            && holds_for (λ digest. bundle_sha256 != digest) floor.bundle_sha256)
          rollback_detected
