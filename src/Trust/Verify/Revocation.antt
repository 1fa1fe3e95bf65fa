-- ===== src/Trust/Verify/Revocation.antt =====
-- tools/marketplace-core/src/trust-bundle.ts: `assertRevocationState` and `assertTerminalTombstones`.
use mandate_x.Base.{
  ℕ, Bool, not, ◌&&◌, ◌||◌, List, ◌++◌, map, keep, includes, leb, ltb, eqb, Str, str_eq, ◌==◌,
  ◌>>=◌, refuse_if, for_each, if◌then◌else◌,
}
use mandate_x.Base.Sets.{set_values}
use mandate_x.Trust.{
  Lifecycle, lifecycle_beq, Validity, KeyRecord, ReleaseRecord, KeyTombstone, ReleaseTombstone,
  TrustBundle, lifecycle_invalid, tombstone_invalid, Check, is_terminal, has_reason, is_revoked,
}
use mandate_x.Trust.Lookup.{map_get, holds_for, is_some}
use mandate_x.Trust.Transition.Consistency.{release_name}

unfoldable pub bounds_are_invalid : TrustBundle → Validity → Bool
bounds_are_invalid envelope v =
    leb v.not_after v.not_before
    || ltb v.lifecycle_changed_at v.not_before
    || leb v.not_after v.lifecycle_changed_at
    || ltb envelope.expires_at v.lifecycle_changed_at
    || not (lifecycle_beq v.lifecycle Lifecycle.preactive)
      && ltb envelope.issued_at v.lifecycle_changed_at

unfoldable pub revocation_is_effective : TrustBundle → Validity → Bool
revocation_is_effective envelope v =
    holds_for (λ at. eqb at v.lifecycle_changed_at && leb at envelope.issued_at) v.revoked_at
    && holds_for (λ epoch. leb epoch envelope.revocation_epoch) v.revocation_epoch

-- The round of a key or of a release.
unfoldable pub check_validity : TrustBundle → Validity → Check
check_validity envelope v = refuse_if (bounds_are_invalid envelope v) lifecycle_invalid >>= λ _.
    (if lifecycle_beq v.lifecycle Lifecycle.revoked
      then refuse_if (not (revocation_is_effective envelope v)) lifecycle_invalid
      else refuse_if (is_some v.revoked_at || is_some v.revocation_epoch) lifecycle_invalid)

unfoldable pub check_tombstone_generation : TrustBundle → ℕ → Check
check_tombstone_generation envelope at = refuse_if (ltb envelope.generation at) tombstone_invalid

unfoldable pub required_fingerprints : TrustBundle → List Str
required_fingerprints envelope = set_values (
    map KeyRecord.public_key_fingerprint_sha256
      (keep (λ (k : KeyRecord). lifecycle_beq k.validity.lifecycle Lifecycle.revoked) envelope.keys)
    ++ map KeyTombstone.public_key_fingerprint_sha256
        (keep (λ (t : KeyTombstone). is_revoked t.reason) envelope.key_tombstones))

unfoldable pub assert_revocation_state : TrustBundle → Check
assert_revocation_state envelope =
    for_each (check_validity envelope)
      (map KeyRecord.validity envelope.keys ++ map ReleaseRecord.validity envelope.releases)
    >>= λ _.
        for_each (check_tombstone_generation envelope) (
          map KeyTombstone.tombstoned_at_generation envelope.key_tombstones
          ++ map ReleaseTombstone.tombstoned_at_generation envelope.release_tombstones)
        >>= λ _.
            for_each
              (λ f.
                refuse_if (not (includes f envelope.revoked_key_fingerprints)) tombstone_invalid)
              (required_fingerprints envelope)

unfoldable pub terminal_key_has_tombstone : TrustBundle → KeyRecord → Check
terminal_key_has_tombstone envelope key =
    refuse_if
      (is_terminal key.validity.lifecycle
        && not (
            holds_for
              (λ (t : KeyTombstone).
                has_reason key.validity.lifecycle t.reason
                && t.public_key_spki_der_base64 == key.public_key_spki_der_base64
                && t.public_key_fingerprint_sha256 == key.public_key_fingerprint_sha256)
              (map_get KeyTombstone.key_id key.key_id envelope.key_tombstones)))
      tombstone_invalid

unfoldable pub terminal_release_has_tombstone : TrustBundle → ReleaseRecord → Check
terminal_release_has_tombstone envelope release =
    refuse_if
      (is_terminal release.validity.lifecycle
        && not (
            holds_for
              (λ (t : ReleaseTombstone).
                has_reason release.validity.lifecycle t.reason
                && t.definition_sha256 == release.definition_sha256)
              (map_get ReleaseTombstone.release_id (release_name release)
                envelope.release_tombstones)))
      tombstone_invalid

unfoldable pub assert_terminal_tombstones : TrustBundle → Check
assert_terminal_tombstones envelope =
    for_each (terminal_key_has_tombstone envelope) envelope.keys >>= λ _.
    for_each (terminal_release_has_tombstone envelope) envelope.releases
