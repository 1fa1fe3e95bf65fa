-- ===== src/Trust/Transition/Consistency.antt =====
-- tools/marketplace-core/src/trust-bundle.ts: `assertDurableStateConsistency`.
use mandate_x.Base.{
  not, ◌&&◌, ◌||◌, List, ◌∷◌, ◌++◌, map, none, some, Str, str_eq, ◌!=◌, ◌==◌, includes, Ordering,
  ok, err, ◌>>=◌, refuse_if, for_each,
}
use mandate_x.Core.Primitives.{compare_canonical_strings}
use mandate_x.Trust.{
  Lifecycle, KeyRecord, ReleaseRecord, Authorization, KeyTombstone, ReleaseTombstone, DurableState,
  TrustError, key_invalid, release_invalid, authorization_invalid, tombstone_invalid,
  transition_invalid, Check, is_terminal, has_reason, lifecycle_beq,
}
use mandate_x.Trust.Lookup.{find, map_get, holds_for}

-- `assertSortedUniqueIds` and `assertSortedUniqueStrings`, with the error of the kind of record.
unfoldable pub assert_sorted_unique : TrustError → List Str → Check
assert_sorted_unique code (s ∷ t ∷ rest) = elim (compare_canonical_strings s t) [
  | Ordering.lt ↦ assert_sorted_unique code (t ∷ rest)
  | _ ↦ err code
]
assert_sorted_unique code _ = ok tt

abbrev pub authorization_key : Authorization → Str
authorization_key a = a.key_id ++ 0 ∷ a.release_id

-- A record that is there fits its tombstone.
unfoldable pub check_key_tombstone : DurableState → KeyTombstone → Check
check_key_tombstone s t = elim (map_get KeyRecord.key_id t.key_id s.keys) [
  | none ↦ ok tt
  | some key ↦
      refuse_if
        (not (has_reason key.validity.lifecycle t.reason)
          || key.public_key_spki_der_base64 != t.public_key_spki_der_base64
          || key.public_key_fingerprint_sha256 != t.public_key_fingerprint_sha256)
        transition_invalid
]

unfoldable pub check_terminal_key : DurableState → KeyRecord → Check
check_terminal_key s key =
    refuse_if
      (is_terminal key.validity.lifecycle
        && not (
            holds_for (λ (t : KeyTombstone). has_reason key.validity.lifecycle t.reason)
              (find (λ (t : KeyTombstone). t.key_id == key.key_id) s.key_tombstones)))
      transition_invalid

abbrev pub release_name : ReleaseRecord → Str
release_name r = r.definition.release_id

unfoldable pub check_release_tombstone : DurableState → ReleaseTombstone → Check
check_release_tombstone s t = elim (map_get release_name t.release_id s.releases) [
  | none ↦ ok tt
  | some release ↦
      refuse_if
        (not (has_reason release.validity.lifecycle t.reason)
          || release.definition_sha256 != t.definition_sha256)
        transition_invalid
]

unfoldable pub check_terminal_release : DurableState → ReleaseRecord → Check
check_terminal_release s release =
    refuse_if
      (is_terminal release.validity.lifecycle
        && not (
            holds_for (λ (t : ReleaseTombstone). has_reason release.validity.lifecycle t.reason)
              (find (λ (t : ReleaseTombstone). t.release_id == release_name release)
                s.release_tombstones)))
      transition_invalid

unfoldable pub check_revoked_key : DurableState → KeyRecord → Check
check_revoked_key s key =
    refuse_if
      (lifecycle_beq key.validity.lifecycle Lifecycle.revoked
        && not (includes key.public_key_fingerprint_sha256 s.revoked_key_fingerprints))
      transition_invalid

unfoldable pub assert_durable_state_consistency : DurableState → Check
assert_durable_state_consistency s =
    assert_sorted_unique key_invalid (map KeyRecord.key_id s.keys) >>= λ _.
    assert_sorted_unique release_invalid (map release_name s.releases) >>= λ _.
    assert_sorted_unique authorization_invalid (map authorization_key s.authorizations) >>= λ _.
    assert_sorted_unique tombstone_invalid (map KeyTombstone.key_id s.key_tombstones) >>= λ _.
    assert_sorted_unique tombstone_invalid (map ReleaseTombstone.release_id s.release_tombstones)
    >>= λ _. assert_sorted_unique tombstone_invalid s.revoked_key_fingerprints >>= λ _.
        for_each (check_key_tombstone s) s.key_tombstones >>= λ _.
        for_each (check_terminal_key s) s.keys >>= λ _.
        for_each (check_release_tombstone s) s.release_tombstones >>= λ _.
        for_each (check_terminal_release s) s.releases >>= λ _.
        for_each (check_revoked_key s) s.keys
