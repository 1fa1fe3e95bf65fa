-- ===== src/Trust/Permanence/Revocation.antt =====
-- tools/marketplace-core/src/trust-bundle.ts: revoked fingerprints and tombstoned names, over the steps of
-- the durable state.
use mandate_x.Base.{
  ◌≡◌, ◌≢◌, sym, ◌∙◌, Bool, true, false, List, All, All-imp, any, includes, Str, str_eq, ◌==◌, ok,
  check-eq-ok, for_each-eq-ok, arith,
}
use mandate_x.Base.Sort.{sort_by, any-sort_by}
use mandate_x.Base.Sets.{includes-set_values, includes-append_left}
use mandate_x.Core.Primitives.{compare_canonical_strings}
use mandate_x.Trust.{
  AdapterMode, KeyRecord, ReleaseDefinition, ReleaseRecord, KeyTombstone, ReleaseTombstone,
  TrustBundle, DurableState,
}
use mandate_x.Trust.Lookup.{find-is_some, any-kept, All-unnamed, includes-any}
use mandate_x.Trust.Transition.{revoked_fingerprints}
use mandate_x.Trust.Transition.Consistency.{release_name}
use mandate_x.Trust.Transition.Bindings.{
  is_tombstoned_key, is_tombstoned_release, validate_fresh_key, validate_fresh_release,
  validate_prior_key, validate_prior_release, validate_prior_bindings,
}
use mandate_x.Trust.Transition.Tombstones.{
  validate_key_tombstone, validate_release_tombstone, key_tombstone_kept, release_tombstone_kept,
  validate_current_tombstones,
}
use mandate_x.Trust.Permanence.Steps.{Step, accept, Reach, once, then_on, Step-Passed, Passed-AsIn}

includes-sort_by :
    (a : Str) (l : List Str) → includes a (sort_by compare_canonical_strings l) ≡ includes a l
includes-sort_by a l =
    includes-any a (sort_by compare_canonical_strings l)
    ∙ any-sort_by compare_canonical_strings (λ x. x == a) l
    ∙ sym (includes-any a l)

-- The four loops of the bindings.
pub record Bound (definition_digest : ReleaseDefinition → Str) (envelope : TrustBundle)
    (prior : DurableState) : Type 0 where
  pub keys : All (λ k. validate_prior_key envelope prior k ≡ ok tt) prior.keys
  pub releases :
      All (λ r. validate_prior_release definition_digest envelope prior r ≡ ok tt) prior.releases
  pub fresh_keys : All (λ k. validate_fresh_key prior k ≡ ok tt) envelope.keys
  pub fresh_releases : All (λ r. validate_fresh_release prior r ≡ ok tt) envelope.releases

pub Bound-of_validate :
    (definition_digest : ReleaseDefinition → Str) (envelope : TrustBundle) (prior : DurableState)
    → validate_prior_bindings definition_digest envelope prior ≡ ok tt
    → Bound definition_digest envelope prior
unfolding validate_prior_bindings
Bound-of_validate definition_digest envelope prior h =
    let a = check-eq-ok _ _ tt h in
    let b = check-eq-ok _ _ tt a.1 in
    let c = check-eq-ok _ _ tt b.1 in
    record {
      keys = (for_each-eq-ok _ _).0 a.0;
      releases = (for_each-eq-ok _ _).0 b.0;
      fresh_keys = (for_each-eq-ok _ _).0 c.0;
      fresh_releases = (for_each-eq-ok _ _).0 c.1;
    }

-- The four loops of the tombstones.
pub record Retained (envelope : TrustBundle) (prior : DurableState) : Type 0 where
  pub keys : All (λ t. validate_key_tombstone envelope prior t ≡ ok tt) envelope.key_tombstones
  pub kept_keys : All (λ t. key_tombstone_kept envelope t ≡ ok tt) prior.key_tombstones
  pub releases :
      All (λ t. validate_release_tombstone envelope prior t ≡ ok tt) envelope.release_tombstones
  pub kept_releases : All (λ t. release_tombstone_kept envelope t ≡ ok tt) prior.release_tombstones

pub Retained-of_validate :
    (envelope : TrustBundle) (prior : DurableState)
    → validate_current_tombstones envelope prior ≡ ok tt
    → Retained envelope prior
unfolding validate_current_tombstones
Retained-of_validate envelope prior h =
    let a = check-eq-ok _ _ tt h in
    let b = check-eq-ok _ _ tt a.1 in
    let c = check-eq-ok _ _ tt b.1 in
    record {
      keys = (for_each-eq-ok _ _).0 a.0;
      kept_keys = (for_each-eq-ok _ _).0 b.0;
      releases = (for_each-eq-ok _ _).0 c.0;
      kept_releases = (for_each-eq-ok _ _).0 c.1;
    }

fresh_key-IsUntaken :
    (prior : DurableState) (k : KeyRecord)
    → validate_fresh_key prior k ≡ ok tt
    → (is_tombstoned_key prior k.key_id ≡ false)
      × (includes k.public_key_fingerprint_sha256 prior.revoked_key_fingerprints ≡ false)
unfolding validate_fresh_key
fresh_key-IsUntaken prior k h = ground arith

fresh_release-IsUntaken :
    (prior : DurableState) (r : ReleaseRecord)
    → validate_fresh_release prior r ≡ ok tt
    → is_tombstoned_release prior (release_name r) ≡ false
unfolding validate_fresh_release
fresh_release-IsUntaken prior r h = ground arith

kept_key-any :
    (envelope : TrustBundle) (old : KeyTombstone)
    → key_tombstone_kept envelope old ≡ ok tt
    → any (λ (t : KeyTombstone). t.key_id == old.key_id) envelope.key_tombstones ≡ true
unfolding key_tombstone_kept
kept_key-any envelope old h =
    ground
      (arith, find-is_some (λ (t : KeyTombstone). t.key_id == old.key_id) envelope.key_tombstones)

kept_release-any :
    (envelope : TrustBundle) (old : ReleaseTombstone)
    → release_tombstone_kept envelope old ≡ ok tt
    → any (λ (t : ReleaseTombstone). t.release_id == old.release_id) envelope.release_tombstones
      ≡ true
unfolding release_tombstone_kept
kept_release-any envelope old h = ground (
  arith,
  find-is_some (λ (t : ReleaseTombstone). t.release_id == old.release_id)
      envelope.release_tombstones,
)

module _ (adapter_mode_schema : AdapterMode → Bool)
    (definition_digest : ReleaseDefinition → Str) where
  -- A fingerprint is revoked in a state, and no key of the state is the one of the fingerprint.
  abbrev pub IsBanned : Str → DurableState → Type 0
  IsBanned f s =
      (includes f s.revoked_key_fingerprints ≡ true)
      × All (λ (k : KeyRecord). k.public_key_fingerprint_sha256 ≢ f) s.keys

  Step-IsBanned :
      (f : Str) {s t : DurableState}
      → Step adapter_mode_schema definition_digest s t
      → includes f s.revoked_key_fingerprints ≡ true
      → IsBanned f t
  unfolding revoked_fingerprints
  Step-IsBanned f (accept envelope digest prior next later h) revoked =
      let p =
        Step-Passed adapter_mode_schema definition_digest envelope digest prior next later h in
      let bound = Bound-of_validate definition_digest envelope prior p.bindings in
      let same = Passed-AsIn adapter_mode_schema definition_digest envelope digest prior next p in
      let stays : includes f next.revoked_key_fingerprints ≡ true =
        (rw p.result (
          includes-sort_by f (revoked_fingerprints envelope prior)
          ∙ includes-set_values f _
          ∙ includes-append_left f prior.revoked_key_fingerprints _ revoked)) in
      (
        stays,
        rw same.2 (
            All-unnamed KeyRecord.public_key_fingerprint_sha256
              (λ g. includes g prior.revoked_key_fingerprints) f envelope.keys revoked
              (All-imp (λ k fresh. (fresh_key-IsUntaken prior k fresh).1) envelope.keys
                bound.fresh_keys)),
      )

  -- Along any sequence of accepted bundles of growing generations, a fingerprint that a durable
  -- state has as revoked stays revoked, and no key of a later state, not even a revoked one, has
  -- that fingerprint.
  pub Reach-IsBanned :
      (f : Str) {s t : DurableState}
      → Reach adapter_mode_schema definition_digest s t
      → includes f s.revoked_key_fingerprints ≡ true
      → IsBanned f t
  Reach-IsBanned f (once step) revoked = Step-IsBanned f step revoked
  Reach-IsBanned f (then_on reach step) revoked =
      Step-IsBanned f step (Reach-IsBanned f reach revoked).0

  -- A name of a key, or of a release, has a tombstone and no record.
  abbrev pub IsBuriedKey : Str → DurableState → Type 0
  IsBuriedKey name s =
      (is_tombstoned_key s name ≡ true) × All (λ (k : KeyRecord). k.key_id ≢ name) s.keys

  abbrev pub IsBuriedRelease : Str → DurableState → Type 0
  IsBuriedRelease name s =
      (is_tombstoned_release s name ≡ true)
      × All (λ (r : ReleaseRecord). release_name r ≢ name) s.releases

  pub Step-IsBuriedKey :
      (name : Str) {s t : DurableState}
      → Step adapter_mode_schema definition_digest s t
      → is_tombstoned_key s name ≡ true
      → IsBuriedKey name t
  Step-IsBuriedKey name (accept envelope digest prior next later h) buried =
      let p =
        Step-Passed adapter_mode_schema definition_digest envelope digest prior next later h in
      let bound = Bound-of_validate definition_digest envelope prior p.bindings in
      let retained = Retained-of_validate envelope prior p.tombstones in
      let same = Passed-AsIn adapter_mode_schema definition_digest envelope digest prior next p in
      (
        rw same.5 (
            any-kept KeyTombstone.key_id name prior.key_tombstones envelope.key_tombstones
              (All-imp (kept_key-any envelope) prior.key_tombstones retained.kept_keys) buried),
        rw same.2 (
            All-unnamed KeyRecord.key_id (is_tombstoned_key prior) name envelope.keys buried (
              All-imp (λ k fresh. (fresh_key-IsUntaken prior k fresh).0) envelope.keys
                bound.fresh_keys)),
      )

  -- Along any sequence of accepted bundles of growing generations, a key id with a tombstone keeps
  -- one and is never again the id of a key.
  pub Reach-IsBuriedKey :
      (name : Str) {s t : DurableState}
      → Reach adapter_mode_schema definition_digest s t
      → is_tombstoned_key s name ≡ true
      → IsBuriedKey name t
  Reach-IsBuriedKey name (once step) buried = Step-IsBuriedKey name step buried
  Reach-IsBuriedKey name (then_on reach step) buried =
      Step-IsBuriedKey name step (Reach-IsBuriedKey name reach buried).0

  pub Step-IsBuriedRelease :
      (name : Str) {s t : DurableState}
      → Step adapter_mode_schema definition_digest s t
      → is_tombstoned_release s name ≡ true
      → IsBuriedRelease name t
  Step-IsBuriedRelease name (accept envelope digest prior next later h) buried =
      let p =
        Step-Passed adapter_mode_schema definition_digest envelope digest prior next later h in
      let bound = Bound-of_validate definition_digest envelope prior p.bindings in
      let retained = Retained-of_validate envelope prior p.tombstones in
      let same = Passed-AsIn adapter_mode_schema definition_digest envelope digest prior next p in
      (
        rw same.6 (
            any-kept ReleaseTombstone.release_id name prior.release_tombstones
              envelope.release_tombstones
              (All-imp (kept_release-any envelope) prior.release_tombstones retained.kept_releases)
              buried),
        rw same.3 (
            All-unnamed release_name (is_tombstoned_release prior) name envelope.releases buried
              (All-imp (fresh_release-IsUntaken prior) envelope.releases bound.fresh_releases)),
      )

  -- Along any sequence of accepted bundles of growing generations, a release id with a tombstone
  -- keeps one and is never again the id of a release.
  pub Reach-IsBuriedRelease :
      (name : Str) {s t : DurableState}
      → Reach adapter_mode_schema definition_digest s t
      → is_tombstoned_release s name ≡ true
      → IsBuriedRelease name t
  Reach-IsBuriedRelease name (once step) buried = Step-IsBuriedRelease name step buried
  Reach-IsBuriedRelease name (then_on reach step) buried =
      Step-IsBuriedRelease name step (Reach-IsBuriedRelease name reach buried).0
