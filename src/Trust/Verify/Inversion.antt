-- ===== src/Trust/Verify/Inversion.antt =====
-- tools/marketplace-core/src/trust-bundle.ts: the checks that a verified bundle has passed.
use mandate_x.Base.{
  ◌≡◌, refl, Bool, true, List, map, Option, some, Option-cases, inl, inr, Str, str_eq, str_beq_iff,
  ◌!=◌, Result, ok, >>=-eq-ok, check-eq-ok, ok-injective, not_refused, refuse_if, arith,
}
use mandate_x.Trust.{
  KeyRecord, TrustBundle, DurableState, TrustError, root_key_mismatch, signature_invalid,
  authorization_invalid, key_invalid, release_invalid,
}
use mandate_x.Trust.Lookup.{find}
use mandate_x.Trust.Transition.{validate_durable_transition}
use mandate_x.Trust.Transition.Consistency.{assert_sorted_unique, authorization_key, release_name}
use mandate_x.Trust.Verify.{
  Platform, VerifiedBundle, check_bundle, conclude, select, has_names_of, verify_envelope,
  verify_bundle,
}
use mandate_x.Trust.Verify.Envelope.{
  VerificationOptions, RollbackFloor, assert_freshness, assert_rollback_floor,
}
use mandate_x.Trust.Verify.Records.{assert_canonical_record_sets, assert_release_definitions}
use mandate_x.Trust.Verify.Revocation.{assert_revocation_state, assert_terminal_tombstones}
use mandate_x.Trust.Verify.Tuples.{AuthorizedTuple, assert_active_tuple, build_authorized_tuples}

module _ (platform : Platform) where
  pub record Checked (envelope : TrustBundle) (options : VerificationOptions)
      (floor : RollbackFloor) : Type 0 where
    pub signed : platform.signature_is_valid envelope ≡ true
    pub fresh : assert_freshness envelope options ≡ ok tt
    pub above : assert_rollback_floor envelope (platform.bundle_digest envelope) floor ≡ ok tt
    pub record_sets : assert_canonical_record_sets platform.is_registered envelope ≡ ok tt
    pub definitions : assert_release_definitions platform.definition_digest envelope ≡ ok tt
    pub revocations : assert_revocation_state envelope ≡ ok tt
    pub tombstones : assert_terminal_tombstones envelope ≡ ok tt

  pub check_bundle-Checked :
      (envelope : TrustBundle) (options : VerificationOptions) (floor : RollbackFloor)
      → check_bundle platform envelope options floor ≡ ok tt
      → Checked envelope options floor
  unfolding check_bundle
  check_bundle-Checked envelope options floor h =
      let a = check-eq-ok _ _ tt h in
      let b = check-eq-ok _ _ tt a.1 in
      let c = check-eq-ok _ _ tt b.1 in
      let d = check-eq-ok _ _ tt c.1 in
      let e = check-eq-ok _ _ tt d.1 in
      let f = check-eq-ok _ _ tt e.1 in
      let g = check-eq-ok _ _ tt f.1 in
      record {
        signed = not_refused (platform.signature_is_valid envelope) signature_invalid a.0;
        fresh = b.0;
        above = c.0;
        record_sets = e.0;
        definitions = f.0;
        revocations = g.0;
        tombstones = g.1;
      }

  -- What a verified bundle is.
  pub record Verified (v : VerifiedBundle) (root_key_id : Str) (options : VerificationOptions)
      (floor : RollbackFloor) (prior : Option DurableState) : Type 0 where
    pub rooted : v.envelope.root_key_id ≡ root_key_id
    pub checked : Checked v.envelope options floor
    pub active : AuthorizedTuple
    pub active_is : assert_active_tuple v.envelope ≡ ok active
    pub tuples_are : build_authorized_tuples v.envelope ≡ ok v.authorized_tuples
    pub selected : find (has_names_of platform active) v.authorized_tuples ≡ some v.active_tuple
    pub digest : v.bundle_sha256 ≡ platform.bundle_digest v.envelope
    pub next :
        validate_durable_transition platform.adapter_mode_schema platform.definition_digest
          v.envelope
          (platform.bundle_digest v.envelope)
          prior
        ≡ ok v.next_state

  conclude-eq-ok :
      (envelope : TrustBundle) (prior : Option DurableState) (tuples : List AuthorizedTuple)
      (tuple : AuthorizedTuple) (v : VerifiedBundle)
      → conclude platform envelope prior tuples tuple ≡ ok v
      → (v.envelope ≡ envelope)
        × (v.bundle_sha256 ≡ platform.bundle_digest envelope)
        × (v.active_tuple ≡ tuple)
        × (v.authorized_tuples ≡ tuples)
        × (validate_durable_transition platform.adapter_mode_schema platform.definition_digest
              envelope
              (platform.bundle_digest envelope)
              prior
            ≡ ok v.next_state)
  unfolding conclude
  conclude-eq-ok envelope prior tuples tuple v h =
      let n =
        >>=-eq-ok
          (validate_durable_transition platform.adapter_mode_schema platform.definition_digest
            envelope (platform.bundle_digest envelope) prior)
          _ v h in
      let same = ok-injective _ v n.1.1 in rw same (refl, refl, refl, refl, n.1.0)

  select-eq-ok :
      (envelope : TrustBundle) (prior : Option DurableState) (active : AuthorizedTuple)
      (tuples : List AuthorizedTuple) (v : VerifiedBundle)
      → select platform envelope prior active tuples ≡ ok v
      → (find (has_names_of platform active) tuples ≡ some v.active_tuple)
        × (v.envelope ≡ envelope)
        × (v.bundle_sha256 ≡ platform.bundle_digest envelope)
        × (v.authorized_tuples ≡ tuples)
        × (validate_durable_transition platform.adapter_mode_schema platform.definition_digest
              envelope
              (platform.bundle_digest envelope)
              prior
            ≡ ok v.next_state)
  unfolding select
  select-eq-ok envelope prior active tuples v h =
      elim (Option-cases (find (has_names_of platform active) tuples)) [
        | inl lost ↦ ground arith
        | inr found ↦
            let c = conclude-eq-ok envelope prior tuples found.0 v (ground (arith, found.1)) in
            (rw c.2 found.1, c.0, c.1, c.3, c.4)
      ]

  pub verify_envelope-Verified :
      (envelope : TrustBundle) (root_key_id : Str) (options : VerificationOptions)
      (floor : RollbackFloor) (prior : Option DurableState) (v : VerifiedBundle)
      → verify_envelope platform envelope root_key_id options floor prior ≡ ok v
      → (v.envelope ≡ envelope) × Verified v root_key_id options floor prior
  unfolding verify_envelope
  verify_envelope-Verified envelope root_key_id options floor prior v h =
      let root =
        check-eq-ok (refuse_if (envelope.root_key_id != root_key_id) root_key_mismatch) _ v h in
      let checks = check-eq-ok _ _ v root.1 in
      let active = >>=-eq-ok (assert_active_tuple envelope) _ v checks.1 in
      let tuples = >>=-eq-ok (build_authorized_tuples envelope) _ v active.1.1 in
      let s = select-eq-ok envelope prior active.0 tuples.0 v tuples.1.1 in
      (
        s.1,
        record {
          rooted =
              rw s.1 ((str_beq_iff envelope.root_key_id root_key_id).0 (ground (arith, root.0)));
          checked = rw s.1 (check_bundle-Checked envelope options floor checks.0);
          active = active.0;
          active_is = rw s.1 active.1.0;
          tuples_are = rw (s.1, s.3) tuples.1.0;
          selected = rw s.3 s.0;
          digest = rw s.1 s.2;
          next = rw s.1 s.4;
        },
      )

  pub verify_bundle-Verified :
      (decoded : Result TrustError TrustBundle) (root_key_id : Str) (root_is_valid : Bool)
      (options : VerificationOptions) (floor : RollbackFloor) (prior : Option DurableState)
      (v : VerifiedBundle)
      → verify_bundle platform decoded root_key_id root_is_valid options floor prior ≡ ok v
      → (decoded ≡ ok v.envelope) × Verified v root_key_id options floor prior
  unfolding verify_bundle
  verify_bundle-Verified decoded root_key_id root_is_valid options floor prior v h =
      let a = check-eq-ok _ _ v h in
      let b = check-eq-ok _ _ v a.1 in
      let c = >>=-eq-ok decoded _ v b.1 in
      let e = verify_envelope-Verified c.0 root_key_id options floor prior v c.1.1 in
      (rw e.0 c.1.0, e.1)

-- The lists that are maps.
pub record_sets-sorted :
    (is_registered : Str → Bool) (envelope : TrustBundle)
    → assert_canonical_record_sets is_registered envelope ≡ ok tt
    → (assert_sorted_unique key_invalid (map KeyRecord.key_id envelope.keys) ≡ ok tt)
      × (assert_sorted_unique release_invalid (map release_name envelope.releases) ≡ ok tt)
      × (assert_sorted_unique authorization_invalid (map authorization_key envelope.authorizations)
          ≡ ok tt)
unfolding assert_canonical_record_sets
record_sets-sorted is_registered envelope h =
    let a = check-eq-ok _ _ tt h in
    let b = check-eq-ok _ _ tt a.1 in let c = check-eq-ok _ _ tt b.1 in (a.0, b.0, c.0)
