-- ===== src/Trust/Issuance.antt =====
-- tools/marketplace-core/src/trust-bundle.ts: which attestations the tuples of a verified bundle authorize.
pub mod Conditions
pub mod Laws
use mandate_x.Base.{
  ℕ, ◌≤◌, ◌<◌, ◌≡◌, ◌≢◌, ◌⊎◌, inl, inr, refl, sym, ap, ap₂, ◌∙◌, subst, Bool, true, false, not,
  ◌&&◌, ◌||◌, List, [], ◌∷◌, ◌++◌, keep, All, All-imp, All-keep, Option, none, some, Option-cases,
  leb, Str, str_eq, str_beq_iff, ◌==◌, Result, ok, err, ◌>>=◌, >>=-eq-ok, check-eq-ok, arith,
}
use mandate_x.Core.Primitives.{max_safe_integer}
use mandate_x.Trust.{
  Lifecycle, Validity, KeyRecord, ReleaseRecord, AdapterMode, Channel, canary, production,
  Authorization, TrustBundle, DurableState, TrustError, authorization_invalid, key_invalid,
  release_invalid,
}
use mandate_x.Trust.Lookup.{map_get, find, All-find}
use mandate_x.Trust.Resolve.{
  Phase, issuance, ResolveInput, ResolvedTuple, mode_matches, assert_issuance,
  assert_lifecycle_at_tuple, check_tuple, resolve_attestation_tuple,
}
use mandate_x.Trust.Transition.Consistency.{authorization_key, release_name}
use mandate_x.Trust.Verify.{Platform, VerifiedBundle, verify_bundle, has_names_of}
use mandate_x.Trust.Verify.Envelope.{VerificationOptions, RollbackFloor}
use mandate_x.Trust.Verify.Tuples.{
  AuthorizedTuple, is_active, is_edge, is_production_edge, build_authorized_tuples,
}
use mandate_x.Trust.Verify.Uniqueness.{HasOwnName, sorted_unique-HasOwnName}
use mandate_x.Trust.Verify.Edges.{IsAuthorized, build-IsAuthorized}
use mandate_x.Trust.Verify.Active.{IsActiveTuple, active-IsActiveTuple}
use mandate_x.Trust.Verify.Inversion.{Verified, verify_bundle-Verified, record_sets-sorted}

-- The tuples of a bundle whose checks have passed, each from an entry of the list of authorizations.
abbrev FromEdge : TrustBundle → AuthorizedTuple → Type 0
FromEdge envelope t =
    IsAuthorized envelope t × HasOwnName authorization_key envelope.authorizations t.authorization

pub Verified-FromEdge :
    (platform : Platform) (v : VerifiedBundle) (root_key_id : Str) (options : VerificationOptions)
    (floor : RollbackFloor) (prior : Option DurableState)
    → Verified platform v root_key_id options floor prior
    → All (FromEdge v.envelope) v.authorized_tuples × (v.authorized_tuples ≢ [])
Verified-FromEdge platform v root_key_id options floor prior h =
    let sorted = record_sets-sorted platform.is_registered v.envelope h.checked.record_sets in
    build-IsAuthorized (HasOwnName authorization_key v.envelope.authorizations) v.envelope
      v.authorized_tuples
      (sorted_unique-HasOwnName authorization_key authorization_invalid v.envelope.authorizations
        sorted.2)
      h.tuples_are

some-injective {ℓ} : {A : Type ℓ} (a b : A) → Path (Option A) (some a) (some b) → a ≡ b
some-injective a b h = cc

-- Two entries that one name gives are one.
own_name-same {ℓ} :
    {A : Type ℓ} (key : A → Str) (l : List A) (a b : A)
    → HasOwnName key l a
    → HasOwnName key l b
    → key a ≡ key b
    → a ≡ b
own_name-same key l a b ha hb e = some-injective a b (sym ha ∙ ap (λ k. map_get key k l) e ∙ hb)

tuple-eq :
    (s t : AuthorizedTuple)
    → s.key_id ≡ t.key_id
    → s.release_id ≡ t.release_id
    → s.key ≡ t.key
    → s.release ≡ t.release
    → s.authorization ≡ t.authorization
    → s ≡ t
tuple-eq s t a b c d e =
    λ i. record { key_id = a i; release_id = b i; key = c i; release = d i; authorization = e i }

production_edge-names :
    (key : KeyRecord) (release : ReleaseRecord) (a : Authorization)
    → is_production_edge key release a ≡ true
    → (a.key_id ≡ key.key_id) × (a.release_id ≡ release_name release) × (a.channel ≡ production)
unfolding is_edge
production_edge-names key release a h = (
  (str_beq_iff a.key_id key.key_id).0 (ground arith),
  (str_beq_iff a.release_id (release_name release)).0 (ground arith),
  ground arith,
)

module _ (platform : Platform) where
  has_names_of-names :
      (s t : AuthorizedTuple)
      → has_names_of platform s t ≡ true
      → (t.key_id ≡ s.key_id) × (t.release_id ≡ s.release_id)
  has_names_of-names s t h = (
    (str_beq_iff t.key_id s.key_id).0 (ground arith),
    (str_beq_iff t.release_id s.release_id).0 (ground arith),
  )

  Verified-active :
      (v : VerifiedBundle) (root_key_id : Str) (options : VerificationOptions)
      (floor : RollbackFloor) (prior : Option DurableState)
      → (h : Verified platform v root_key_id options floor prior) → v.active_tuple ≡ h.active
  Verified-active v root_key_id options floor prior h =
      let sorted = record_sets-sorted platform.is_registered v.envelope h.checked.record_sets in
      let active = active-IsActiveTuple v.envelope h.active h.active_is in
      let built = Verified-FromEdge platform v root_key_id options floor prior h in
      let chosen =
        All-find (FromEdge v.envelope) (has_names_of platform h.active) v.authorized_tuples
          v.active_tuple built.0 h.selected in
      let names = has_names_of-names h.active v.active_tuple chosen.1 in
      let own_keys =
        sorted_unique-HasOwnName KeyRecord.key_id key_invalid v.envelope.keys sorted.0 in
      let own_releases =
        sorted_unique-HasOwnName release_name release_invalid v.envelope.releases sorted.1 in
      let own_edges =
        sorted_unique-HasOwnName authorization_key authorization_invalid v.envelope.authorizations
          sorted.2 in
      let own_key : HasOwnName KeyRecord.key_id v.envelope.keys h.active.key =
        ((subst
          (All (λ a. HasOwnName KeyRecord.key_id v.envelope.keys a × (is_active a.validity ≡ true)))
          active.0
          (All-keep (HasOwnName KeyRecord.key_id v.envelope.keys)
            (λ (k : KeyRecord). is_active k.validity) v.envelope.keys own_keys)).0.0) in
      let own_release : HasOwnName release_name v.envelope.releases h.active.release =
        ((subst
          (All (λ a. HasOwnName release_name v.envelope.releases a × (is_active a.validity ≡ true)))
          active.1
          (All-keep (HasOwnName release_name v.envelope.releases)
            (λ (r : ReleaseRecord). is_active r.validity) v.envelope.releases own_releases)).0.0) in
      let edge =
        All-find (HasOwnName authorization_key v.envelope.authorizations)
          (is_production_edge h.active.key h.active.release) v.envelope.authorizations
          h.active.authorization own_edges active.4 in
      let edge_names =
        production_edge-names h.active.key h.active.release h.active.authorization edge.1 in
      let key_ids = names.0 ∙ active.9 in
      let release_ids = names.1 ∙ active.10 in
      tuple-eq v.active_tuple h.active names.0 names.1
        (some-injective v.active_tuple.key h.active.key (
          sym chosen.0.0.2
          ∙ ap (λ k. map_get KeyRecord.key_id k v.envelope.keys) key_ids
          ∙ own_key))
        (some-injective v.active_tuple.release h.active.release (
          sym chosen.0.0.3
          ∙ ap (λ k. map_get release_name k v.envelope.releases) release_ids
          ∙ own_release))
        (own_name-same authorization_key v.envelope.authorizations v.active_tuple.authorization
          h.active.authorization chosen.0.1 edge.0
          (ap₂ (λ k r. k ++ 0 ∷ r) (chosen.0.0.0 ∙ key_ids ∙ sym edge_names.0)
            (chosen.0.0.1 ∙ release_ids ∙ sym edge_names.1)))
