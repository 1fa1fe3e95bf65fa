-- ===== src/Trust/Transition.antt =====
-- tools/marketplace-core/src/trust-bundle.ts: `validateDurableTransition`, from the durable state of the
-- last bundle that was accepted to the state of the next.
pub mod Consistency
pub mod Lifecycle
pub mod Bindings
pub mod Tombstones
pub mod Authorizations
use mandate_x.Base.{
  Bool, true, false, not, ◌||◌, List, ◌++◌, map, Option, none, some, keep, includes, ltb, eqb, Str,
  str_eq, ◌!=◌, if◌then◌else◌, Result, ok, err, ◌>>=◌, refuse_if, for_each,
}
use mandate_x.Base.Sort.{sort_by}
use mandate_x.Base.Sets.{set_values}
use mandate_x.Core.Primitives.{compare_canonical_strings}
use mandate_x.Trust.{
  KeyRecord, AdapterMode, ReleaseDefinition, KeyTombstone, TrustBundle, DurableState, Check,
  TrustError, transition_invalid, rollback_detected, zod_error, is_revoked, lifecycle_beq,
}
use mandate_x.Trust
use mandate_x.Trust.Schema.{durable_state_schema}
use Consistency.{assert_durable_state_consistency}
use Bindings.{validate_prior_bindings}
use Tombstones.{validate_current_tombstones}
use Authorizations.{validate_authorization_transition}

-- The fingerprints that are revoked before or after the transition.
unfoldable pub revoked_fingerprints : TrustBundle → DurableState → List Str
revoked_fingerprints envelope prior = set_values (
    prior.revoked_key_fingerprints
    ++ (envelope.revoked_key_fingerprints
        ++ map KeyTombstone.public_key_fingerprint_sha256
            (keep (λ (t : KeyTombstone). is_revoked t.reason) envelope.key_tombstones)))

-- The fingerprints of the keys of the bundle that are not revoked.
unfoldable pub current_fingerprints : TrustBundle → List Str
current_fingerprints envelope = map KeyRecord.public_key_fingerprint_sha256 (
    keep (λ (k : KeyRecord). not (lifecycle_beq k.validity.lifecycle Trust.Lifecycle.revoked))
      envelope.keys)

unfoldable pub fingerprint_kept : TrustBundle → Str → Check
fingerprint_kept envelope f =
    refuse_if (not (includes f envelope.revoked_key_fingerprints)) transition_invalid

unfoldable pub fingerprint_absent : TrustBundle → Str → Check
fingerprint_absent envelope f =
    refuse_if (includes f (current_fingerprints envelope)) transition_invalid

abbrev pub state_of : TrustBundle → Str → DurableState
state_of envelope bundle_sha256 = record {
  generation = envelope.generation;
  revocation_epoch = envelope.revocation_epoch;
  bundle_sha256 = bundle_sha256;
  keys = envelope.keys;
  releases = envelope.releases;
  authorizations = envelope.authorizations;
  key_tombstones = envelope.key_tombstones;
  release_tombstones = envelope.release_tombstones;
  revoked_key_fingerprints = envelope.revoked_key_fingerprints;
}

module _ (adapter_mode_schema : AdapterMode → Bool)
    (definition_digest : ReleaseDefinition → Str) where
  unfoldable pub parse_state : DurableState → Result TrustError DurableState
  parse_state s = if durable_state_schema adapter_mode_schema s then ok s else err zod_error

  -- A later generation than the one of the prior state.
  unfoldable pub advance :
      TrustBundle → DurableState → DurableState → Result TrustError DurableState
  advance envelope current prior =
      for_each (fingerprint_kept envelope) prior.revoked_key_fingerprints >>= λ _.
      validate_prior_bindings definition_digest envelope prior >>= λ _.
      validate_current_tombstones envelope prior >>= λ _.
      validate_authorization_transition envelope prior >>= λ _.
      for_each (fingerprint_absent envelope) (revoked_fingerprints envelope prior) >>= λ _.
      parse_state (record current {
        revoked_key_fingerprints =
            sort_by compare_canonical_strings (revoked_fingerprints envelope prior);
      })

  unfoldable pub validate_after :
      TrustBundle → Str → DurableState → DurableState → Result TrustError DurableState
  validate_after envelope bundle_sha256 current prior =
      refuse_if (not (durable_state_schema adapter_mode_schema prior)) transition_invalid >>= λ _.
      assert_durable_state_consistency prior >>= λ _.
      refuse_if
        (ltb envelope.generation prior.generation
          || ltb envelope.revocation_epoch prior.revocation_epoch)
        rollback_detected
      >>= λ _.
          (if eqb envelope.generation prior.generation
            then (refuse_if (bundle_sha256 != prior.bundle_sha256) rollback_detected >>= λ _.
                ok current)
            else advance envelope current prior)

  unfoldable pub validate_durable_transition :
      TrustBundle → Str → Option DurableState → Result TrustError DurableState
  validate_durable_transition envelope bundle_sha256 prior =
      parse_state (state_of envelope bundle_sha256) >>= λ current. elim prior [
        | none ↦ ok current
        | some state ↦ validate_after envelope bundle_sha256 current state
      ]
