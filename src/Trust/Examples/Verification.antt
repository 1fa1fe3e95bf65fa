-- ===== src/Trust/Examples/Verification.antt =====
-- The theorems on the verification of a bundle, at the bundle of the tests.
use mandate_x.Base.{
  ◌≡◌, ◌≤◌, ◌<◌, ◌+◌, ◌↔◌, refl, true, [], ◌∷◌, All, some, codes, str_eq, ok, arith,
}
use mandate_x.Base.Sets.{set_values}
use mandate_x.Core.Primitives.{compare_canonical_strings}
use mandate_x.Core.Texts.{sha256_schema}
use mandate_x.Trust.Lookup.{find, map_get}
use mandate_x.Trust.Transition.Consistency.{assert_sorted_unique}
use mandate_x.Trust.Verify.{
  VerifiedBundle, check_bundle, conclude, select, verify_envelope, verify_bundle,
}
use mandate_x.Trust.Verify.Envelope.{
  rollback_floor_schema, parse_rollback_floor, assert_verification_options, assert_freshness,
  assert_rollback_floor,
}
use mandate_x.Trust.Verify.Records.{
  validate_bundle_key_records, check_distinct_keys, check_modes, check_overlap,
  assert_canonical_record_sets, assert_release_definitions,
}
use mandate_x.Trust.Verify.Revocation.{
  bounds_are_invalid, revocation_is_effective, check_validity, check_tombstone_generation,
  required_fingerprints, assert_revocation_state, terminal_key_has_tombstone,
  terminal_release_has_tombstone, assert_terminal_tombstones,
}
use mandate_x.Trust.Verify.Tuples.{
  AuthorizedTuple, tuple_of, is_edge, covers_bundle, active_key, active_release, active_edge,
  active_tuple_of, assert_active_tuple, exceeds, check_channel, tuple_of_edge, build_tuple,
  build_from, build_authorized_tuples,
}
use mandate_x.Trust.Verify.Edges.{IsAuthorized}
use mandate_x.Trust.Verify.Active.{IsActiveTuple}
use mandate_x.Trust.Verify.Bounds.{verify_bundle-IsBounded}
use mandate_x.Trust.Resolve.{ResolvedTuple, resolve_attestation_tuple, mode_matches, check_tuple}
use mandate_x.Trust.Issuance.Conditions.{Authorizes, check_tuple-Authorizes}
use mandate_x.Trust.Issuance.Laws.{verify-IsAuthorized, active-IsUsable}
use mandate_x.Trust.Examples.Data.{
  platform, envelope, options, floor, prior, next, request, edge, release, health_mode, sha_c,
}
use mandate_x.Trust.Examples.Data
use mandate_x.Trust.Examples.Witnesses.{accepted}

abbrev active : AuthorizedTuple
active = tuple_of edge Data.current_key release

abbrev verified : VerifiedBundle
verified = record {
  envelope = envelope;
  bundle_sha256 = sha_c;
  active_tuple = active;
  authorized_tuples = active ∷ [];
  next_state = next;
}

options_hold : assert_verification_options true options ≡ ok tt
unfolding assert_verification_options
options_hold = refl

floor_holds : parse_rollback_floor floor ≡ ok tt
unfolding parse_rollback_floor rollback_floor_schema sha256_schema
floor_holds = refl

record_sets_hold : assert_canonical_record_sets platform.is_registered envelope ≡ ok tt
unfolding assert_canonical_record_sets assert_sorted_unique check_distinct_keys check_modes
    check_overlap compare_canonical_strings
record_sets_hold = refl

revocations_hold : assert_revocation_state envelope ≡ ok tt
unfolding assert_revocation_state bounds_are_invalid revocation_is_effective check_validity
    check_tombstone_generation required_fingerprints set_values
revocations_hold = refl

checks_hold : check_bundle platform envelope options floor ≡ ok tt
unfolding check_bundle assert_freshness assert_rollback_floor validate_bundle_key_records
    assert_release_definitions assert_terminal_tombstones terminal_key_has_tombstone
    terminal_release_has_tombstone map_get
checks_hold = rw (record_sets_hold, revocations_hold) refl

active_holds : assert_active_tuple envelope ≡ ok active
unfolding assert_active_tuple active_key active_release active_edge active_tuple_of covers_bundle
    is_edge find
active_holds = refl

tuples_hold : build_authorized_tuples envelope ≡ ok (active ∷ [])
unfolding build_authorized_tuples build_from build_tuple tuple_of_edge exceeds check_channel map_get
tuples_hold = refl

bundle_verified :
    verify_bundle platform (ok envelope) (codes "root-1") true options floor (some prior)
    ≡ ok verified
unfolding verify_bundle verify_envelope select conclude find
bundle_verified =
    rw (options_hold, floor_holds, checks_hold, active_holds, tuples_hold, accepted) refl

verify_bundle-IsBounded_example :
    (1500 ≤ 1550 + 300)
    × (1550 < 1800)
    × (1800 ≤ 1500 + 604800)
    × (1800 ≤ 1550 + 605100)
    × (9 ≤ 11)
    × (2 ≤ 2)
verify_bundle-IsBounded_example =
    verify_bundle-IsBounded platform (ok envelope) (codes "root-1") true options floor (some prior)
      verified bundle_verified

verify-IsAuthorized_example :
    All (IsAuthorized envelope) (active ∷ []) × IsActiveTuple envelope active
verify-IsAuthorized_example =
    verify-IsAuthorized platform (ok envelope) (codes "root-1") true options floor (some prior)
      verified bundle_verified

found_mode : find (mode_matches request) release.definition.enabled_adapter_modes ≡ some health_mode
unfolding find
found_mode = refl

abbrev resolved : ResolvedTuple
resolved = record { tuple = active; adapter_mode = health_mode; issued_at = 1600 }

active-IsUsable_example : resolve_attestation_tuple verified request ≡ ok resolved
active-IsUsable_example =
    active-IsUsable platform (ok envelope) (codes "root-1") true options floor (some prior) verified
      request health_mode bundle_verified refl refl refl (omega arith) (omega arith) (omega arith)
      (omega arith) found_mode

check_tuple-Authorizes_example :
    (check_tuple verified request active ≡ ok tt) ↔ Authorizes envelope request active
check_tuple-Authorizes_example = check_tuple-Authorizes verified request active
