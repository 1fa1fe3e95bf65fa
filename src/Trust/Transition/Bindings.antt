-- ===== src/Trust/Transition/Bindings.antt =====
-- tools/marketplace-core/src/trust-bundle.ts: `validatePriorBindings`.
use mandate_x.Base.{
  Bool, not, ◌&&◌, ◌||◌, List, Option, none, some, any, includes, ltb, Str, str_eq, ◌==◌, ◌!=◌,
  ◌>>=◌, refuse_if, for_each,
}
use mandate_x.Trust.{
  KeyRecord, ReleaseDefinition, ReleaseRecord, KeyTombstone, ReleaseTombstone, TrustBundle,
  DurableState, Check, transition_invalid, tombstone_invalid, is_terminal, is_revoked,
}
use mandate_x.Trust.Lookup.{find, map_get, holds_for, is_some}
use mandate_x.Trust.Transition.Consistency.{release_name}
use mandate_x.Trust.Transition.Lifecycle.{validate_lifecycle_transition}

abbrev pub tombstone_of : Str → List KeyTombstone → Option KeyTombstone
tombstone_of name = find (λ (t : KeyTombstone). t.key_id == name)

abbrev pub release_tombstone_of : Str → List ReleaseTombstone → Option ReleaseTombstone
release_tombstone_of name = find (λ (t : ReleaseTombstone). t.release_id == name)

-- `priorTombstonedKeys.has(keyId)`
abbrev pub is_tombstoned_key : DurableState → Str → Bool
is_tombstoned_key prior name = any (λ (t : KeyTombstone). t.key_id == name) prior.key_tombstones

abbrev pub is_tombstoned_release : DurableState → Str → Bool
is_tombstoned_release prior name =
    any (λ (t : ReleaseTombstone). t.release_id == name) prior.release_tombstones

-- A key of the prior state that the bundle has no more: it was terminal, or is revoked by a new epoch.
unfoldable pub prior_key_gone : TrustBundle → DurableState → KeyRecord → Check
prior_key_gone envelope prior old =
    let tombstone = tombstone_of old.key_id envelope.key_tombstones in
    refuse_if
      (not (is_terminal old.validity.lifecycle)
        && not (
            holds_for (λ (t : KeyTombstone). is_revoked t.reason) tombstone
            && ltb prior.revocation_epoch envelope.revocation_epoch))
      transition_invalid
    >>= λ _. refuse_if (not (is_some tombstone)) tombstone_invalid

-- A key of the prior state that the bundle still has.
unfoldable pub prior_key_next : DurableState → KeyRecord → KeyRecord → Check
prior_key_next prior old next =
    refuse_if (is_tombstoned_key prior old.key_id && not (is_terminal next.validity.lifecycle))
      transition_invalid
    >>= λ _.
        refuse_if
          (next.public_key_spki_der_base64 != old.public_key_spki_der_base64
            || next.public_key_fingerprint_sha256 != old.public_key_fingerprint_sha256)
          transition_invalid
        >>= λ _. validate_lifecycle_transition old.validity next.validity

-- The round of a key of the prior state.
unfoldable pub validate_prior_key : TrustBundle → DurableState → KeyRecord → Check
validate_prior_key envelope prior old = elim (map_get KeyRecord.key_id old.key_id envelope.keys) [
  | none ↦ prior_key_gone envelope prior old
  | some next ↦ prior_key_next prior old next
]

-- The last loop over the keys of the bundle.
unfoldable pub validate_fresh_key : DurableState → KeyRecord → Check
validate_fresh_key prior key =
    refuse_if
      (is_tombstoned_key prior key.key_id
        || includes key.public_key_fingerprint_sha256 prior.revoked_key_fingerprints)
      transition_invalid

unfoldable pub validate_fresh_release : DurableState → ReleaseRecord → Check
validate_fresh_release prior release =
    refuse_if (is_tombstoned_release prior (release_name release)) transition_invalid

unfoldable pub prior_release_gone : TrustBundle → DurableState → ReleaseRecord → Check
prior_release_gone envelope prior old =
    let tombstone = release_tombstone_of (release_name old) envelope.release_tombstones in
    refuse_if
      (not (is_terminal old.validity.lifecycle)
        && not (
            holds_for (λ (t : ReleaseTombstone). is_revoked t.reason) tombstone
            && ltb prior.revocation_epoch envelope.revocation_epoch))
      transition_invalid
    >>= λ _. refuse_if (not (is_some tombstone)) tombstone_invalid

module _ (definition_digest : ReleaseDefinition → Str) where
  unfoldable pub prior_release_next : DurableState → ReleaseRecord → ReleaseRecord → Check
  prior_release_next prior old next =
      refuse_if
        (is_tombstoned_release prior (release_name old)
          && not (is_terminal next.validity.lifecycle))
        transition_invalid
      >>= λ _.
          refuse_if
            (next.definition_sha256 != old.definition_sha256
              || definition_digest next.definition != definition_digest old.definition)
            transition_invalid
          >>= λ _. validate_lifecycle_transition old.validity next.validity

  unfoldable pub validate_prior_release : TrustBundle → DurableState → ReleaseRecord → Check
  validate_prior_release envelope prior old =
      elim (map_get release_name (release_name old) envelope.releases) [
        | none ↦ prior_release_gone envelope prior old
        | some next ↦ prior_release_next prior old next
      ]

  unfoldable pub validate_prior_bindings : TrustBundle → DurableState → Check
  validate_prior_bindings envelope prior =
      for_each (validate_prior_key envelope prior) prior.keys >>= λ _.
      for_each (validate_prior_release envelope prior) prior.releases >>= λ _.
      for_each (validate_fresh_key prior) envelope.keys >>= λ _.
      for_each (validate_fresh_release prior) envelope.releases
