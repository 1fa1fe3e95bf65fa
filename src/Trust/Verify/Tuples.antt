-- ===== src/Trust/Verify/Tuples.antt =====
-- tools/marketplace-core/src/trust-bundle.ts: `assertActiveTuple` and `buildAuthorizedTuples`.
use mandate_x.Base.{
  Bool, not, ◌&&◌, ◌||◌, List, [], ◌∷◌, ◌++◌, keep, none, some, leb, ltb, Str, str_eq, ◌==◌, Result,
  ok, err, ◌>>=◌, refuse_if, if◌then◌else◌,
}
use mandate_x.Trust.{
  Lifecycle, lifecycle_beq, Validity, KeyRecord, ReleaseRecord, Channel, production, canary,
  Authorization, TrustBundle, TrustError, active_signer_invalid, active_release_invalid,
  authorization_invalid, Check,
}
use mandate_x.Trust.Lookup.{find, map_get}
use mandate_x.Trust.Transition.Consistency.{release_name}
use mandate_x.Trust.Transition.Authorizations.{channel_beq}

-- `MarketplaceTrustAuthorizedTuple`
pub record AuthorizedTuple : Type 0 where
  pub key_id : Str
  pub release_id : Str
  pub key : KeyRecord
  pub release : ReleaseRecord
  pub authorization : Authorization

abbrev pub is_active : Validity → Bool
is_active v = lifecycle_beq v.lifecycle Lifecycle.active

abbrev pub is_preactive : Validity → Bool
is_preactive v = lifecycle_beq v.lifecycle Lifecycle.preactive

-- The one element of a list of length one, when it has the name.
abbrev pub only {ℓ} : {A : Type ℓ} → TrustError → (A → Bool) → List A → Result TrustError A
only thrown p (a ∷ []) = if p a then ok a else err thrown
only thrown p _ = err thrown

unfoldable pub covers_bundle : TrustBundle → Validity → Bool
covers_bundle envelope v =
    leb v.lifecycle_changed_at envelope.issued_at
    && leb v.not_before envelope.issued_at
    && leb envelope.expires_at v.not_after

unfoldable pub is_edge : Str → Str → Authorization → Bool
is_edge key_id release_id a = a.key_id == key_id && a.release_id == release_id

abbrev pub tuple_of : Authorization → KeyRecord → ReleaseRecord → AuthorizedTuple
tuple_of a key release = record {
  key_id = a.key_id;
  release_id = a.release_id;
  key = key;
  release = release;
  authorization = a;
}

unfoldable pub active_key : TrustBundle → Result TrustError KeyRecord
active_key envelope =
    only active_signer_invalid (λ (k : KeyRecord). k.key_id == envelope.active_signer_key_id)
      (keep (λ (k : KeyRecord). is_active k.validity) envelope.keys)

unfoldable pub active_release : TrustBundle → Result TrustError ReleaseRecord
active_release envelope =
    only active_release_invalid
      (λ (r : ReleaseRecord). release_name r == envelope.active_release_id)
      (keep (λ (r : ReleaseRecord). is_active r.validity) envelope.releases)

abbrev pub is_production_edge : KeyRecord → ReleaseRecord → Authorization → Bool
is_production_edge key release a =
    is_edge key.key_id (release_name release) a && channel_beq a.channel production

unfoldable pub active_tuple_of :
    TrustBundle → KeyRecord → ReleaseRecord → Authorization → Result TrustError AuthorizedTuple
active_tuple_of envelope key release a =
    refuse_if
      (not (
        covers_bundle envelope key.validity
        && covers_bundle envelope release.validity
        && leb a.not_before envelope.issued_at
        && leb envelope.expires_at a.not_after))
      authorization_invalid
    >>= λ _. ok (record {
      key_id = key.key_id;
      release_id = release_name release;
      key = key;
      release = release;
      authorization = a;
    })

unfoldable pub active_edge :
    TrustBundle → KeyRecord → ReleaseRecord → Result TrustError AuthorizedTuple
active_edge envelope key release =
    elim (find (is_production_edge key release) envelope.authorizations) [
      | none ↦ err authorization_invalid
      | some a ↦ active_tuple_of envelope key release a
    ]

unfoldable pub assert_active_tuple : TrustBundle → Result TrustError AuthorizedTuple
assert_active_tuple envelope = active_key envelope >>= λ key.
    active_release envelope >>= λ release. active_edge envelope key release

-- An edge is inside the validity of its key and its release.
unfoldable pub exceeds : Authorization → Validity → Bool
exceeds a v = ltb a.not_before v.not_before || ltb v.not_after a.not_after

unfoldable pub canary_compatible : Validity → Validity → Bool
canary_compatible key release =
    (is_preactive key || is_active key)
    && (is_preactive release || is_active release)
    && (is_preactive key || is_preactive release)

unfoldable pub check_channel : Channel → Validity → Validity → Check
check_channel canary key release =
    refuse_if (not (canary_compatible key release)) authorization_invalid
check_channel production key release =
    refuse_if (is_preactive key || is_preactive release) authorization_invalid

-- An edge and its records: no tuple when one of them is revoked.
unfoldable pub tuple_of_edge :
    Authorization → KeyRecord → ReleaseRecord → Result TrustError (List AuthorizedTuple)
tuple_of_edge a key release =
    refuse_if (leb a.not_after a.not_before || exceeds a key.validity || exceeds a release.validity)
      authorization_invalid
    >>= λ _.
        (if lifecycle_beq key.validity.lifecycle Lifecycle.revoked
            || lifecycle_beq release.validity.lifecycle Lifecycle.revoked
          then ok []
          else (check_channel a.channel key.validity release.validity >>= λ _.
              ok (tuple_of a key release ∷ [])))

-- The round of an authorization.
unfoldable pub build_tuple : TrustBundle → Authorization → Result TrustError (List AuthorizedTuple)
build_tuple envelope a = elim (map_get KeyRecord.key_id a.key_id envelope.keys) [
  | none ↦ err authorization_invalid
  | some key ↦ elim (map_get release_name a.release_id envelope.releases) [
    | none ↦ err authorization_invalid
    | some release ↦ tuple_of_edge a key release
  ]
]

unfoldable pub build_from :
    TrustBundle → List Authorization → Result TrustError (List AuthorizedTuple)
build_from envelope [] = ok []
build_from envelope (a ∷ rest) =
    build_tuple envelope a >>= λ tuple. build_from envelope rest >>= λ tuples. ok (tuple ++ tuples)

abbrev pub non_empty : List AuthorizedTuple → Result TrustError (List AuthorizedTuple)
non_empty [] = err authorization_invalid
non_empty (t ∷ ts) = ok (t ∷ ts)

unfoldable pub build_authorized_tuples : TrustBundle → Result TrustError (List AuthorizedTuple)
build_authorized_tuples envelope = build_from envelope envelope.authorizations >>= non_empty
