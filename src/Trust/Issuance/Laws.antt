-- ===== src/Trust/Issuance/Laws.antt =====
-- tools/marketplace-core/src/trust-bundle.ts: from the verification of a bundle to the resolution of a tuple.
use mandate_x.Base.{
  ◌≤◌, ◌<◌, ◌≡◌, inl, refl, sym, subst, Bool, true, All, Option, some, Str, str_eq, Result, ok,
  All-imp, keep-All, arith,
}
use mandate_x.Core.Primitives.{max_safe_integer}
use mandate_x.Trust.{
  Lifecycle, Validity, KeyRecord, ReleaseRecord, AdapterMode, TrustBundle, DurableState, TrustError,
}
use mandate_x.Trust.Lookup.{find, find-true}
use mandate_x.Trust.Resolve.{
  issuance, ResolveInput, ResolvedTuple, has_names, mode_matches, check_tuple, resolve_mode,
  resolve_tuple, find_and_resolve, resolve_attestation_tuple,
}
use mandate_x.Trust.Verify.{Platform, VerifiedBundle, verify_bundle, has_names_of}
use mandate_x.Trust.Verify.Envelope.{VerificationOptions, RollbackFloor}
use mandate_x.Trust.Verify.Tuples.{AuthorizedTuple, is_active, is_production_edge}
use mandate_x.Trust.Verify.Edges.{IsAuthorized}
use mandate_x.Trust.Verify.Active.{IsActiveTuple, active-IsActiveTuple}
use mandate_x.Trust.Verify.Inversion.{verify_bundle-Verified}
use mandate_x.Trust.Issuance.{Verified-FromEdge, Verified-active, production_edge-names}
use mandate_x.Trust.Issuance.Conditions.{Authorizes, check_tuple-Authorizes}

abbrev IsFound : VerifiedBundle → ResolveInput → ResolvedTuple → Type 0
IsFound v input r =
    (find (has_names input) v.authorized_tuples ≡ some r.tuple)
    × (find (mode_matches input) r.tuple.release.definition.enabled_adapter_modes
        ≡ some r.adapter_mode)
    × (check_tuple v input r.tuple ≡ ok tt)
    × (r.issued_at ≡ input.issued_at)

-- Where the tuple and the mode are found and the checks pass, so does the resolution.
find_and_resolve-of_found :
    (v : VerifiedBundle) (input : ResolveInput) (t : AuthorizedTuple) (m : AdapterMode)
    → find (has_names input) v.authorized_tuples ≡ some t
    → find (mode_matches input) t.release.definition.enabled_adapter_modes ≡ some m
    → check_tuple v input t ≡ ok tt
    → find_and_resolve v input
      ≡ ok (record { tuple = t; adapter_mode = m; issued_at = input.issued_at })
unfolding find_and_resolve resolve_tuple resolve_mode
find_and_resolve-of_found v input t m found mode passed = ground arith

resolve-of_found :
    (v : VerifiedBundle) (input : ResolveInput) (t : AuthorizedTuple) (m : AdapterMode)
    → 1 ≤ input.issued_at
    → input.issued_at ≤ max_safe_integer
    → find (has_names input) v.authorized_tuples ≡ some t
    → find (mode_matches input) t.release.definition.enabled_adapter_modes ≡ some m
    → check_tuple v input t ≡ ok tt
    → resolve_attestation_tuple v input
      ≡ ok (record { tuple = t; adapter_mode = m; issued_at = input.issued_at })
unfolding resolve_attestation_tuple
resolve-of_found v input t m low high found mode passed =
    ground (arith, find_and_resolve-of_found v input t m found mode passed)

active_lifecycle : (v : Validity) → is_active v ≡ true → v.lifecycle ≡ Lifecycle.active
active_lifecycle v h = ground arith

module _ (platform : Platform) where
  -- Each tuple of a verified bundle joins the key and the release that its ids give in the bundle,
  -- neither revoked, by an edge inside both their validities and fit for its channel; the active
  -- tuple is that of the only active key and release, which are the named ones, with a production
  -- edge, all three in force from the issuance to the expiry of the bundle.
  pub verify-IsAuthorized :
      (decoded : Result TrustError TrustBundle) (root_key_id : Str) (root_is_valid : Bool)
      (options : VerificationOptions) (floor : RollbackFloor) (prior : Option DurableState)
      (v : VerifiedBundle)
      → verify_bundle platform decoded root_key_id root_is_valid options floor prior ≡ ok v
      → All (IsAuthorized v.envelope) v.authorized_tuples × IsActiveTuple v.envelope v.active_tuple
  verify-IsAuthorized decoded root_key_id root_is_valid options floor prior v verified =
      let bundle =
        verify_bundle-Verified platform decoded root_key_id root_is_valid options floor prior v
          verified in
      let edges = Verified-FromEdge platform v root_key_id options floor prior bundle.1 in
      let active = Verified-active platform v root_key_id options floor prior bundle.1 in
      (
        All-imp (λ t f. f.0) v.authorized_tuples edges.0,
        rw active (active-IsActiveTuple v.envelope bundle.1.active bundle.1.active_is),
      )

  active-Authorizes :
      (envelope : TrustBundle) (input : ResolveInput) (t : AuthorizedTuple)
      → IsActiveTuple envelope t
      → input.phase ≡ issuance
      → envelope.issued_at ≤ input.issued_at
      → input.issued_at < envelope.expires_at
      → Authorizes envelope input t
  active-Authorizes envelope input t a phase low high =
      let key : t.key.validity.lifecycle ≡ Lifecycle.active =
        (active_lifecycle t.key.validity
          (subst (All (λ k. is_active k.validity ≡ true)) a.0
            (keep-All (λ (k : KeyRecord). is_active k.validity) envelope.keys)).0) in
      let release : t.release.validity.lifecycle ≡ Lifecycle.active =
        (active_lifecycle t.release.validity
          (subst (All (λ r. is_active r.validity ≡ true)) a.1
            (keep-All (λ (r : ReleaseRecord). is_active r.validity) envelope.releases)).0) in
      let edge = production_edge-names t.key t.release t.authorization (
        find-true (is_production_edge t.key t.release) envelope.authorizations t.authorization
          a.4) in
      (
        (omega arith, omega arith),
        (omega arith, omega arith),
        (omega arith, omega arith),
        inl edge.2,
        rw phase (low, (inl key, omega arith), (inl release, omega arith)),
        high,
      )

  -- At every time from the issuance of a verified bundle to before its expiry, that is a positive
  -- safe integer, a request for issuance by the active key and release of the bundle, in a mode
  -- that the active release enables, resolves to the active tuple and that mode.
  pub active-IsUsable :
      (decoded : Result TrustError TrustBundle) (root_key_id : Str) (root_is_valid : Bool)
      (options : VerificationOptions) (floor : RollbackFloor) (prior : Option DurableState)
      (v : VerifiedBundle) (input : ResolveInput) (m : AdapterMode)
      → verify_bundle platform decoded root_key_id root_is_valid options floor prior ≡ ok v
      → input.key_id ≡ v.envelope.active_signer_key_id
      → input.release_id ≡ v.envelope.active_release_id
      → input.phase ≡ issuance
      → 1 ≤ input.issued_at
      → input.issued_at ≤ max_safe_integer
      → v.envelope.issued_at ≤ input.issued_at
      → input.issued_at < v.envelope.expires_at
      → find (mode_matches input) v.active_tuple.release.definition.enabled_adapter_modes ≡ some m
      → resolve_attestation_tuple v input
        ≡ ok (record { tuple = v.active_tuple; adapter_mode = m; issued_at = input.issued_at })
  active-IsUsable decoded root_key_id root_is_valid options floor prior v input m verified key
        release phase one most low high mode =
      let bundle =
        verify_bundle-Verified platform decoded root_key_id root_is_valid options floor prior v
          verified in
      let same = Verified-active platform v root_key_id options floor prior bundle.1 in
      let active =
        (verify-IsAuthorized decoded root_key_id root_is_valid options floor prior v verified).1 in
      let names : has_names input ≡ has_names_of platform bundle.1.active =
        (rw (key, release, sym active.2, sym active.3, sym active.9, sym active.10, same) refl) in
      resolve-of_found v input v.active_tuple m one most (rw names bundle.1.selected) mode (
        (check_tuple-Authorizes v input v.active_tuple).1
          (active-Authorizes v.envelope input v.active_tuple active phase low high))
