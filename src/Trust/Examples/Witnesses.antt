-- ===== src/Trust/Examples/Witnesses.antt =====
-- The theorems on the trust bundles at the state and the bundle of the tests.
use mandate_x.Base.{◌↔◌, ◌≡◌, ◌≢◌, refl, true, false, inl, All, some, str_eq, ok, err, arith}
use mandate_x.Base.Sort.{sort_by}
use mandate_x.Base.Sets.{set_values}
use mandate_x.Core.Primitives.{compare_canonical_strings}
use mandate_x.Core.Texts.{canonical_identifier_schema, sha256_schema}
use mandate_x.Trust.{KeyRecord, TrustBundle, rollback_detected}
use mandate_x.Trust.Schema.{
  canonical_base64_schema, key_record_schema, release_definition_schema, release_record_schema,
  authorization_schema, key_tombstone_schema, release_tombstone_schema, durable_state_schema,
}
use mandate_x.Trust.Lookup.{find, map_get}
use mandate_x.Trust.Transition.{
  state_of, validate_durable_transition, validate_after, parse_state, advance, revoked_fingerprints,
  current_fingerprints, fingerprint_kept, fingerprint_absent,
}
use mandate_x.Trust.Transition.Consistency.{
  assert_durable_state_consistency, assert_sorted_unique, check_key_tombstone, check_terminal_key,
  check_release_tombstone, check_terminal_release, check_revoked_key, release_name,
}
use mandate_x.Trust.Transition.Lifecycle.{validate_lifecycle_transition}
use mandate_x.Trust.Transition.Bindings.{
  tombstone_of, validate_prior_bindings, validate_prior_key, prior_key_gone, prior_key_next,
  validate_prior_release, prior_release_gone, prior_release_next, validate_fresh_key,
  validate_fresh_release,
}
use mandate_x.Trust.Transition.Tombstones.{
  validate_current_tombstones, validate_key_tombstone, validate_release_tombstone,
  key_tombstone_changed, release_tombstone_changed, key_tombstone_kept, release_tombstone_kept,
  is_retained,
}
use mandate_x.Trust.Transition.Authorizations.{
  validate_authorization_transition, validate_prior_edge, is_promoted, validate_new_edge,
}
use mandate_x.Trust.Permanence.Steps.{
  Step, accept, Reach, once, IsNoRollback, transition-IsNoRollback,
}
use mandate_x.Trust.Permanence.Revocation.{
  IsBanned, Reach-IsBanned, IsBuriedKey, Reach-IsBuriedKey, IsBuriedRelease, Reach-IsBuriedRelease,
}
use mandate_x.Trust.Permanence.Bindings.{
  KeyIsKept, Reach-KeyIsKept, ReleaseIsKept, Reach-ReleaseIsKept,
}
use mandate_x.Trust.Permanence.Retention.{Step-IsPast}
use mandate_x.Trust.Permanence.Rollback.{
  IsRollback, validate_durable_transition-IsRollback, Reach-IsNoReplay,
}
use mandate_x.Trust.Examples.Data.{
  any_mode, digest_of, envelope, sha_c, prior, next, revoked_sha, signer_one, signer_two,
  release_one, release_two, current_key, retired_key, release, key_tombstone,
}

next_valid : durable_state_schema any_mode next ≡ true
unfolding durable_state_schema key_record_schema release_record_schema release_definition_schema
    authorization_schema key_tombstone_schema release_tombstone_schema canonical_identifier_schema
    sha256_schema canonical_base64_schema
next_valid = refl

prior_valid : durable_state_schema any_mode prior ≡ true
unfolding durable_state_schema key_record_schema release_record_schema release_definition_schema
    authorization_schema key_tombstone_schema release_tombstone_schema canonical_identifier_schema
    sha256_schema canonical_base64_schema
prior_valid = refl

prior_consistent : assert_durable_state_consistency prior ≡ ok tt
unfolding assert_durable_state_consistency assert_sorted_unique check_key_tombstone
    check_terminal_key check_release_tombstone check_terminal_release check_revoked_key find map_get
    compare_canonical_strings
prior_consistent = refl

bindings_hold : validate_prior_bindings digest_of envelope prior ≡ ok tt
unfolding validate_prior_bindings validate_prior_key prior_key_gone prior_key_next
    validate_prior_release prior_release_gone prior_release_next validate_fresh_key
    validate_fresh_release validate_lifecycle_transition find map_get
bindings_hold = refl

tombstones_hold : validate_current_tombstones envelope prior ≡ ok tt
unfolding validate_current_tombstones validate_key_tombstone validate_release_tombstone
    key_tombstone_changed release_tombstone_changed key_tombstone_kept release_tombstone_kept find
    map_get
tombstones_hold = refl

authorizations_hold : validate_authorization_transition envelope prior ≡ ok tt
unfolding validate_authorization_transition validate_prior_edge is_promoted validate_new_edge find
    map_get
authorizations_hold = refl

advanced : advance any_mode digest_of envelope next prior ≡ ok next
unfolding advance parse_state revoked_fingerprints current_fingerprints fingerprint_kept
    fingerprint_absent set_values sort_by compare_canonical_strings
advanced = rw (bindings_hold, tombstones_hold, authorizations_hold, next_valid) refl

pub accepted : validate_durable_transition any_mode digest_of envelope sha_c (some prior) ≡ ok next
unfolding validate_durable_transition validate_after parse_state
accepted = rw (next_valid, prior_valid, prior_consistent, advanced) refl

stepped : Step any_mode digest_of prior next
stepped = accept envelope sha_c prior next (omega arith) accepted

reached : Reach any_mode digest_of prior next
reached = once stepped

Reach-IsBanned_example : IsBanned any_mode digest_of revoked_sha next
Reach-IsBanned_example = Reach-IsBanned any_mode digest_of revoked_sha reached refl

Reach-IsBuriedKey_example : IsBuriedKey any_mode digest_of signer_one next
Reach-IsBuriedKey_example = Reach-IsBuriedKey any_mode digest_of signer_one reached refl

Reach-IsBuriedRelease_example : IsBuriedRelease any_mode digest_of release_one next
Reach-IsBuriedRelease_example = Reach-IsBuriedRelease any_mode digest_of release_one reached refl

found_key : map_get KeyRecord.key_id signer_two prior.keys ≡ some current_key
unfolding map_get
found_key = refl

Reach-KeyIsKept_example : KeyIsKept signer_two current_key next.keys next.key_tombstones
Reach-KeyIsKept_example =
    Reach-KeyIsKept any_mode digest_of signer_two current_key reached found_key

found_release : map_get release_name release_two prior.releases ≡ some release
unfolding map_get
found_release = refl

Reach-ReleaseIsKept_example :
    ReleaseIsKept release_two release next.releases next.release_tombstones
Reach-ReleaseIsKept_example =
    Reach-ReleaseIsKept any_mode digest_of release_two release reached found_release

transition-IsNoRollback_example : IsNoRollback any_mode digest_of envelope sha_c prior next
transition-IsNoRollback_example =
    transition-IsNoRollback any_mode digest_of envelope sha_c prior next accepted

found_retired : map_get KeyRecord.key_id signer_one prior.keys ≡ some retired_key
unfolding map_get
found_retired = refl

found_tombstone : tombstone_of signer_one prior.key_tombstones ≡ some key_tombstone
unfolding find
found_tombstone = refl

Step-IsPast_example :
    (is_retained 11 (some 11) ≡ false) × All (λ (k : KeyRecord). k.key_id ≢ signer_one) next.keys
Step-IsPast_example =
    Step-IsPast any_mode digest_of signer_one retired_key key_tombstone stepped found_retired refl
      found_tombstone

-- The same bundle, one generation before the prior state.
abbrev stale : TrustBundle
stale = record envelope { generation = 8 }

stale_valid : durable_state_schema any_mode (state_of stale sha_c) ≡ true
unfolding durable_state_schema key_record_schema release_record_schema release_definition_schema
    authorization_schema key_tombstone_schema release_tombstone_schema canonical_identifier_schema
    sha256_schema canonical_base64_schema
stale_valid = refl

validate_durable_transition-IsRollback_example :
    (validate_durable_transition any_mode digest_of stale sha_c (some prior)
      ≡ err rollback_detected)
    ↔ ((durable_state_schema any_mode (state_of stale sha_c) ≡ true)
        × (durable_state_schema any_mode prior ≡ true)
        × (assert_durable_state_consistency prior ≡ ok tt)
        × IsRollback stale sha_c prior)
validate_durable_transition-IsRollback_example =
    validate_durable_transition-IsRollback any_mode digest_of stale sha_c prior

-- The right-hand side holds there.
stale_refused :
    validate_durable_transition any_mode digest_of stale sha_c (some prior) ≡ err rollback_detected
stale_refused =
    (validate_durable_transition-IsRollback any_mode digest_of stale sha_c prior).1
      (stale_valid, prior_valid, prior_consistent, inl (omega arith))

Reach-IsNoReplay_example :
    validate_durable_transition any_mode digest_of stale sha_c (some next) ≢ ok next
Reach-IsNoReplay_example =
    Reach-IsNoReplay any_mode digest_of prior next stale sha_c next reached (omega arith)
