-- ===== src/Trust/Verify/Records.antt =====
-- tools/marketplace-core/src/trust-bundle.ts: `validateBundleKeyRecord`, `assertCanonicalRecordSets` and
-- `assertReleaseDefinitions`.
use mandate_x.Base.{
  ℕ, Bool, not, ◌||◌, List, [], ◌∷◌, ◌++◌, map, keep, includes, length, ltb, Str, str_eq, ◌!=◌, ok,
  ◌>>=◌, refuse_if, for_each,
}
use mandate_x.Trust.{
  ServiceMode, observe_only, transactional, Validity, KeyRecord, AdapterMode, ReleaseDefinition,
  ReleaseRecord, KeyTombstone, ReleaseTombstone, TrustBundle, key_invalid, release_invalid,
  authorization_invalid, tombstone_invalid, profile_invalid, lifecycle_invalid, Check, is_terminal,
}
use mandate_x.Trust.Transition.Consistency.{assert_sorted_unique, authorization_key, release_name}

-- The texts of the wire: "observe_only" and "transactional".
abbrev pub service_mode_name : ServiceMode → Str
service_mode_name observe_only =
    b'o' ∷ b'b' ∷ b's' ∷ b'e' ∷ b'r' ∷ b'v' ∷ b'e' ∷ b'_' ∷ b'o' ∷ b'n' ∷ b'l' ∷ b'y' ∷ []
service_mode_name transactional =
    b't' ∷ b'r' ∷ b'a' ∷ b'n' ∷ b's' ∷ b'a' ∷ b'c' ∷ b't' ∷ b'i' ∷ b'o' ∷ b'n' ∷ b'a' ∷ b'l' ∷ []

abbrev pub mode_key : AdapterMode → Str
mode_key m = m.adapter_id ++ 0 ∷ service_mode_name m.service_mode

-- The sets `fingerprints` and `spkiValues` grow from key to key.
unfoldable pub check_distinct_keys : List Str → List Str → List KeyRecord → Check
check_distinct_keys fingerprints spki_values [] = ok tt
check_distinct_keys fingerprints spki_values (k ∷ ks) =
    refuse_if (includes k.public_key_fingerprint_sha256 fingerprints) key_invalid >>= λ _.
    refuse_if (includes k.public_key_spki_der_base64 spki_values) key_invalid >>= λ _.
    check_distinct_keys (k.public_key_fingerprint_sha256 ∷ fingerprints)
      (k.public_key_spki_der_base64 ∷ spki_values) ks

abbrev pub is_live : Validity → Bool
is_live v = not (is_terminal v.lifecycle)

abbrev pub max_overlap_records : ℕ
max_overlap_records = 3

unfoldable pub check_overlap : TrustBundle → Check
check_overlap envelope =
    refuse_if
      (ltb max_overlap_records (length (keep (λ (k : KeyRecord). is_live k.validity) envelope.keys))
        || ltb max_overlap_records
            (length (keep (λ (r : ReleaseRecord). is_live r.validity) envelope.releases)))
      lifecycle_invalid

module _ (is_registered : Str → Bool) where
  unfoldable pub check_modes : ReleaseRecord → Check
  check_modes release =
      assert_sorted_unique release_invalid (map mode_key release.definition.enabled_adapter_modes)
      >>= λ _.
          for_each
            (λ (m : AdapterMode). refuse_if (not (is_registered m.adapter_id)) profile_invalid)
            release.definition.enabled_adapter_modes

  unfoldable pub assert_canonical_record_sets : TrustBundle → Check
  assert_canonical_record_sets envelope =
      assert_sorted_unique key_invalid (map KeyRecord.key_id envelope.keys) >>= λ _.
      assert_sorted_unique release_invalid (map release_name envelope.releases) >>= λ _.
      assert_sorted_unique authorization_invalid (map authorization_key envelope.authorizations)
      >>= λ _.
          assert_sorted_unique tombstone_invalid (map KeyTombstone.key_id envelope.key_tombstones)
          >>= λ _.
              assert_sorted_unique tombstone_invalid
                (map ReleaseTombstone.release_id envelope.release_tombstones)
              >>= λ _.
                  assert_sorted_unique tombstone_invalid envelope.revoked_key_fingerprints >>= λ _.
                  check_distinct_keys [] [] envelope.keys >>= λ _.
                  for_each check_modes envelope.releases >>= λ _. check_overlap envelope

module _ (definition_digest : ReleaseDefinition → Str) where
  unfoldable pub assert_release_definitions : TrustBundle → Check
  assert_release_definitions envelope =
      for_each
        (λ (r : ReleaseRecord).
          refuse_if (r.definition_sha256 != definition_digest r.definition) release_invalid)
        envelope.releases

-- `envelope.keys.map(validateBundleKeyRecord)`, for its throws.
module _ (key_is_valid : KeyRecord → Bool) where
  unfoldable pub validate_bundle_key_records : TrustBundle → Check
  validate_bundle_key_records envelope =
      for_each (λ k. refuse_if (not (key_is_valid k)) key_invalid) envelope.keys
