-- ===== src/Trust/Verify/Active.antt =====
-- tools/marketplace-core/src/trust-bundle.ts: the one active key and release of a verified bundle.
use mandate_x.Base.{
  ◌≤◌, ◌≡◌, refl, Bool, true, not, List, [], ◌∷◌, keep, some, Option-cases, str_eq, str_beq_iff,
  ◌==◌, ok, ◌>>=◌, refuse_if, >>=-eq-ok, arith, inl, inr,
}
use mandate_x.Trust.{
  Validity, KeyRecord, ReleaseRecord, Authorization, TrustBundle, TrustError, active_signer_invalid,
  active_release_invalid,
}
use mandate_x.Trust.Lookup.{find}
use mandate_x.Trust.Transition.Consistency.{release_name}
use mandate_x.Trust.Verify.Tuples.{
  AuthorizedTuple, only, covers_bundle, is_active, is_production_edge, active_key, active_release,
  active_tuple_of, active_edge, assert_active_tuple,
}

only-eq-ok {ℓ} :
    {A : Type ℓ} (thrown : TrustError) (p : A → Bool) (l : List A) (a : A)
    → only thrown p l ≡ ok a
    → (l ≡ a ∷ []) × (p a ≡ true)
only-eq-ok thrown p [] a h = cc
only-eq-ok thrown p (b ∷ []) a h = ground arith
only-eq-ok thrown p (b ∷ c ∷ l) a h = cc

abbrev pub Covers : TrustBundle → Validity → Type 0
Covers envelope v =
    (v.lifecycle_changed_at ≤ envelope.issued_at)
    × (v.not_before ≤ envelope.issued_at)
    × (envelope.expires_at ≤ v.not_after)

-- What `assertActiveTuple` returns: the only active key and release, and an edge that covers the bundle.
abbrev pub IsActiveTuple : TrustBundle → AuthorizedTuple → Type 0
IsActiveTuple envelope t =
    (keep (λ (k : KeyRecord). is_active k.validity) envelope.keys ≡ t.key ∷ [])
    × (keep (λ (r : ReleaseRecord). is_active r.validity) envelope.releases ≡ t.release ∷ [])
    × (t.key.key_id ≡ envelope.active_signer_key_id)
    × (release_name t.release ≡ envelope.active_release_id)
    × (find (is_production_edge t.key t.release) envelope.authorizations ≡ some t.authorization)
    × Covers envelope t.key.validity
    × Covers envelope t.release.validity
    × (t.authorization.not_before ≤ envelope.issued_at)
    × (envelope.expires_at ≤ t.authorization.not_after)
    × (t.key_id ≡ t.key.key_id)
    × (t.release_id ≡ release_name t.release)

active_key-eq-ok :
    (envelope : TrustBundle) (k : KeyRecord)
    → active_key envelope ≡ ok k
    → (keep (λ (k : KeyRecord). is_active k.validity) envelope.keys ≡ k ∷ [])
      × (k.key_id ≡ envelope.active_signer_key_id)
unfolding active_key
active_key-eq-ok envelope k h =
    let o =
      only-eq-ok active_signer_invalid
        (λ (k : KeyRecord). k.key_id == envelope.active_signer_key_id)
        (keep (λ (k : KeyRecord). is_active k.validity) envelope.keys) k h in
    (o.0, (str_beq_iff k.key_id envelope.active_signer_key_id).0 o.1)

active_release-eq-ok :
    (envelope : TrustBundle) (r : ReleaseRecord)
    → active_release envelope ≡ ok r
    → (keep (λ (r : ReleaseRecord). is_active r.validity) envelope.releases ≡ r ∷ [])
      × (release_name r ≡ envelope.active_release_id)
unfolding active_release
active_release-eq-ok envelope r h =
    let o =
      only-eq-ok active_release_invalid
        (λ (r : ReleaseRecord). release_name r == envelope.active_release_id)
        (keep (λ (r : ReleaseRecord). is_active r.validity) envelope.releases) r h in
    (o.0, (str_beq_iff (release_name r) envelope.active_release_id).0 o.1)

-- What a check before a value says.
guard-eq-ok {ℓ} :
    {A : Type ℓ} (b : Bool) (thrown : TrustError) (x y : A)
    → (refuse_if (not b) thrown >>= λ _. ok x) ≡ ok y
    → (b ≡ true) × (y ≡ x)
guard-eq-ok b thrown x y h = ground arith

active_tuple_of-eq-ok :
    (envelope : TrustBundle) (k : KeyRecord) (r : ReleaseRecord) (a : Authorization)
    (t : AuthorizedTuple)
    → active_tuple_of envelope k r a ≡ ok t
    → (t ≡ record {
      key_id = k.key_id;
      release_id = release_name r;
      key = k;
      release = r;
      authorization = a;
    })
      × Covers envelope k.validity
      × Covers envelope r.validity
      × (a.not_before ≤ envelope.issued_at)
      × (envelope.expires_at ≤ a.not_after)
unfolding active_tuple_of covers_bundle
active_tuple_of-eq-ok envelope k r a t h =
    let g = guard-eq-ok _ _ _ t h in
    (
      g.1,
      (ground (arith, g.0), ground (arith, g.0), ground (arith, g.0)),
      (ground (arith, g.0), ground (arith, g.0), ground (arith, g.0)),
      ground (arith, g.0),
      ground (arith, g.0),
    )

active_edge-eq-ok :
    (envelope : TrustBundle) (k : KeyRecord) (r : ReleaseRecord) (t : AuthorizedTuple)
    → active_edge envelope k r ≡ ok t
    → (t.key ≡ k)
      × (t.release ≡ r)
      × (t.key_id ≡ k.key_id)
      × (t.release_id ≡ release_name r)
      × (find (is_production_edge k r) envelope.authorizations ≡ some t.authorization)
      × Covers envelope k.validity
      × Covers envelope r.validity
      × (t.authorization.not_before ≤ envelope.issued_at)
      × (envelope.expires_at ≤ t.authorization.not_after)
unfolding active_edge
active_edge-eq-ok envelope k r t h =
    elim (Option-cases (find (is_production_edge k r) envelope.authorizations)) [
      | inl lost ↦ ground arith
      | inr a ↦
          let e = active_tuple_of-eq-ok envelope k r a.0 t (ground (arith, a.1)) in
          rw e.0 (refl, refl, refl, refl, a.1, e.1, e.2, e.3, e.4)
    ]

pub active-IsActiveTuple :
    (envelope : TrustBundle) (t : AuthorizedTuple)
    → assert_active_tuple envelope ≡ ok t
    → IsActiveTuple envelope t
unfolding assert_active_tuple
active-IsActiveTuple envelope t h =
    let key = >>=-eq-ok (active_key envelope) _ t h in
    let release = >>=-eq-ok (active_release envelope) _ t key.1.1 in
    let k = active_key-eq-ok envelope key.0 key.1.0 in
    let r = active_release-eq-ok envelope release.0 release.1.0 in
    let e = active_edge-eq-ok envelope key.0 release.0 t release.1.1 in
    rw (e.0, e.1) (k.0, r.0, k.1, r.1, e.4, e.5, e.6, e.7, e.8, e.2, e.3)
