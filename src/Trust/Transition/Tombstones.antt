-- ===== src/Trust/Transition/Tombstones.antt =====
-- tools/marketplace-core/src/trust-bundle.ts: `validateCurrentTombstones`. Tombstones of one canonical JSON
-- text are equal.
use mandate_x.Base.{
  ℕ, Bool, true, false, not, ◌&&◌, ◌||◌, Option, none, some, eqb, ltb, leb, str_eq, ◌==◌, ◌!=◌,
  ◌>>=◌, refuse_if, for_each,
}
use mandate_x.Trust.{
  Lifecycle, KeyRecord, ReleaseRecord, TombstoneReason, KeyTombstone, ReleaseTombstone, TrustBundle,
  DurableState, Check, tombstone_invalid, has_reason, is_revoked,
}
use mandate_x.Trust.Lookup.{map_get, is_some, holds_for}
use mandate_x.Trust.Transition.Consistency.{release_name}
use mandate_x.Trust.Transition.Bindings.{tombstone_of, release_tombstone_of}

abbrev pub tombstone_reason_beq : TombstoneReason → TombstoneReason → Bool
tombstone_reason_beq TombstoneReason.retired TombstoneReason.retired = true
tombstone_reason_beq TombstoneReason.revoked TombstoneReason.revoked = true
tombstone_reason_beq _ _ = false

abbrev pub option_beq : Option ℕ → Option ℕ → Bool
option_beq none none = true
option_beq (some a) (some b) = eqb a b
option_beq _ _ = false

abbrev pub key_tombstone_beq : KeyTombstone → KeyTombstone → Bool
key_tombstone_beq a b =
    a.key_id == b.key_id
    && a.public_key_spki_der_base64 == b.public_key_spki_der_base64
    && a.public_key_fingerprint_sha256 == b.public_key_fingerprint_sha256
    && tombstone_reason_beq a.reason b.reason
    && eqb a.tombstoned_at_generation b.tombstoned_at_generation
    && option_beq a.retain_until_generation b.retain_until_generation

abbrev pub release_tombstone_beq : ReleaseTombstone → ReleaseTombstone → Bool
release_tombstone_beq a b =
    a.release_id == b.release_id
    && a.definition_sha256 == b.definition_sha256
    && tombstone_reason_beq a.reason b.reason
    && eqb a.tombstoned_at_generation b.tombstoned_at_generation
    && option_beq a.retain_until_generation b.retain_until_generation

-- A tombstone is never changed but from retired to revoked.
unfoldable pub key_tombstone_changed : KeyTombstone → KeyTombstone → Bool
key_tombstone_changed t old =
    not (key_tombstone_beq old t)
    && not (
        not (is_revoked old.reason)
        && is_revoked t.reason
        && t.public_key_spki_der_base64 == old.public_key_spki_der_base64
        && t.public_key_fingerprint_sha256 == old.public_key_fingerprint_sha256
        && leb old.tombstoned_at_generation t.tombstoned_at_generation)

unfoldable pub release_tombstone_changed : ReleaseTombstone → ReleaseTombstone → Bool
release_tombstone_changed t old =
    not (release_tombstone_beq old t)
    && not (
        not (is_revoked old.reason)
        && is_revoked t.reason
        && t.definition_sha256 == old.definition_sha256
        && leb old.tombstoned_at_generation t.tombstoned_at_generation)

-- `retainUntilGeneration === null || generation < retainUntilGeneration`
abbrev pub is_retained : ℕ → Option ℕ → Bool
is_retained generation none = true
is_retained generation (some until) = ltb generation until

-- A record that is gone, by the lifecycle that it had.
abbrev pub gone_too_soon : ℕ → Lifecycle → TombstoneReason → Option ℕ → Bool
gone_too_soon generation Lifecycle.retired reason until =
    is_revoked reason || is_retained generation until
gone_too_soon generation Lifecycle.revoked reason until = not (is_revoked reason)
gone_too_soon generation _ reason until = false

abbrev or_option {ℓ} : {A : Type ℓ} → Option A → Option A → Option A
or_option none b = b
or_option (some a) b = some a

-- The round of a tombstone of a key: its source, its binding, what it was, and the retention.
unfoldable pub validate_key_tombstone : TrustBundle → DurableState → KeyTombstone → Check
validate_key_tombstone envelope prior t =
    let current = map_get KeyRecord.key_id t.key_id envelope.keys in
    let old = map_get KeyRecord.key_id t.key_id prior.keys in
    let old_tombstone = tombstone_of t.key_id prior.key_tombstones in
    let source = or_option current old in
    refuse_if (not (is_some source) && not (is_some old_tombstone)) tombstone_invalid >>= λ _.
    refuse_if
      (holds_for (λ (k : KeyRecord). not (has_reason k.validity.lifecycle t.reason)) current)
      tombstone_invalid
    >>= λ _.
        refuse_if
          (holds_for
            (λ (k : KeyRecord).
              k.public_key_spki_der_base64 != t.public_key_spki_der_base64
              || k.public_key_fingerprint_sha256 != t.public_key_fingerprint_sha256)
            source)
          tombstone_invalid
        >>= λ _.
            refuse_if (holds_for (key_tombstone_changed t) old_tombstone) tombstone_invalid >>= λ _.
            refuse_if
              (not (is_some current)
                && holds_for
                    (λ (k : KeyRecord).
                      gone_too_soon envelope.generation k.validity.lifecycle t.reason
                        t.retain_until_generation)
                    old)
              tombstone_invalid

unfoldable pub validate_release_tombstone : TrustBundle → DurableState → ReleaseTombstone → Check
validate_release_tombstone envelope prior t =
    let current = map_get release_name t.release_id envelope.releases in
    let old = map_get release_name t.release_id prior.releases in
    let old_tombstone = release_tombstone_of t.release_id prior.release_tombstones in
    let source = or_option current old in
    refuse_if (not (is_some source) && not (is_some old_tombstone)) tombstone_invalid >>= λ _.
    refuse_if
      (holds_for (λ (r : ReleaseRecord). not (has_reason r.validity.lifecycle t.reason)) current
        || holds_for (λ (r : ReleaseRecord). r.definition_sha256 != t.definition_sha256) source)
      tombstone_invalid
    >>= λ _.
        refuse_if (holds_for (release_tombstone_changed t) old_tombstone) tombstone_invalid >>= λ _.
        refuse_if
          (not (is_some current)
            && holds_for
                (λ (r : ReleaseRecord).
                  gone_too_soon envelope.generation r.validity.lifecycle t.reason
                    t.retain_until_generation)
                old)
          tombstone_invalid

unfoldable pub key_tombstone_kept : TrustBundle → KeyTombstone → Check
key_tombstone_kept envelope old =
    refuse_if (not (is_some (tombstone_of old.key_id envelope.key_tombstones))) tombstone_invalid

unfoldable pub release_tombstone_kept : TrustBundle → ReleaseTombstone → Check
release_tombstone_kept envelope old =
    refuse_if (not (is_some (release_tombstone_of old.release_id envelope.release_tombstones)))
      tombstone_invalid

unfoldable pub validate_current_tombstones : TrustBundle → DurableState → Check
validate_current_tombstones envelope prior =
    for_each (validate_key_tombstone envelope prior) envelope.key_tombstones >>= λ _.
    for_each (key_tombstone_kept envelope) prior.key_tombstones >>= λ _.
    for_each (validate_release_tombstone envelope prior) envelope.release_tombstones >>= λ _.
    for_each (release_tombstone_kept envelope) prior.release_tombstones
