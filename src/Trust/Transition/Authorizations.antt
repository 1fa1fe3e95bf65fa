-- ===== src/Trust/Transition/Authorizations.antt =====
-- tools/marketplace-core/src/trust-bundle.ts: `validateAuthorizationTransition`.
use mandate_x.Base.{
  ℕ, Bool, true, false, not, ◌&&◌, ◌||◌, Option, none, some, any, eqb, ltb, leb, Str, str_eq, ◌==◌,
  ok, ◌>>=◌, refuse_if, for_each, if◌then◌else◌,
}
use mandate_x.Trust.{
  Lifecycle, lifecycle_beq, Validity, KeyRecord, ReleaseRecord, KeyTombstone, ReleaseTombstone,
  Channel, production, canary, Authorization, TrustBundle, DurableState, Check,
  authorization_invalid, is_revoked,
}
use mandate_x.Trust.Lookup.{find, map_get, holds_for}
use mandate_x.Trust.Transition.Consistency.{authorization_key, release_name}

abbrev pub channel_beq : Channel → Channel → Bool
channel_beq production production = true
channel_beq canary canary = true
channel_beq _ _ = false

abbrev key_of : Str → TrustBundle → Option KeyRecord
key_of name envelope = find (λ (k : KeyRecord). k.key_id == name) envelope.keys

abbrev release_of : Str → TrustBundle → Option ReleaseRecord
release_of name envelope = find (λ (r : ReleaseRecord). release_name r == name) envelope.releases

-- The key or the release of an edge is revoked in the bundle.
unfoldable pub edge_is_revoked : TrustBundle → Authorization → Bool
edge_is_revoked envelope old =
    holds_for (λ (k : KeyRecord). lifecycle_beq k.validity.lifecycle Lifecycle.revoked)
      (key_of old.key_id envelope)
    || holds_for (λ (r : ReleaseRecord). lifecycle_beq r.validity.lifecycle Lifecycle.revoked)
        (release_of old.release_id envelope)
    || any (λ (t : KeyTombstone). t.key_id == old.key_id && is_revoked t.reason)
        envelope.key_tombstones
    || any (λ (t : ReleaseTombstone). t.release_id == old.release_id && is_revoked t.reason)
        envelope.release_tombstones

-- Active, since a time that is not after the edge's start.
abbrev is_active_since : ℕ → Validity → Bool
is_active_since start v =
    lifecycle_beq v.lifecycle Lifecycle.active && leb v.lifecycle_changed_at start

unfoldable pub is_promoted : TrustBundle → Authorization → Authorization → Bool
is_promoted envelope old next =
    channel_beq old.channel canary
    && channel_beq next.channel production
    && leb old.not_before next.not_before
    && holds_for (λ (k : KeyRecord). is_active_since next.not_before k.validity)
        (key_of old.key_id envelope)
    && holds_for (λ (r : ReleaseRecord). is_active_since next.not_before r.validity)
        (release_of old.release_id envelope)

unfoldable pub validate_prior_edge : TrustBundle → Authorization → Check
validate_prior_edge envelope old =
    elim (map_get authorization_key (authorization_key old) envelope.authorizations) [
      | none ↦
          refuse_if (ltb envelope.issued_at old.not_after && not (edge_is_revoked envelope old))
            authorization_invalid
      | some next ↦
          refuse_if
            (not (is_promoted envelope old next)
                && not (channel_beq next.channel old.channel && eqb next.not_before old.not_before)
              || ltb old.not_after next.not_after)
            authorization_invalid
    ]

unfoldable pub validate_new_edge : TrustBundle → DurableState → Authorization → Check
validate_new_edge envelope prior next =
    if any (λ a. authorization_key a == authorization_key next) prior.authorizations
    then ok tt
    else elim (key_of next.key_id envelope) [
      | none ↦ ok tt
      | some key ↦ elim (release_of next.release_id envelope) [
        | none ↦ ok tt
        | some release ↦
            refuse_if
              (channel_beq next.channel production
                && not (
                    is_active_since next.not_before key.validity
                    && is_active_since next.not_before release.validity))
              authorization_invalid
      ]
    ]

unfoldable pub validate_authorization_transition : TrustBundle → DurableState → Check
validate_authorization_transition envelope prior =
    for_each (validate_prior_edge envelope) prior.authorizations >>= λ _.
    for_each (validate_new_edge envelope prior) envelope.authorizations
