-- ===== src/Trust/Verify/Edges.antt =====
-- tools/marketplace-core/src/trust-bundle.ts: what the authorized tuples of a verified bundle are.
use mandate_x.Base.{
  ◌≤◌, ◌<◌, ◌≡◌, ◌≢◌, ◌⊎◌, inl, inr, refl, false, List, [], ◌∷◌, ◌++◌, All, some, Option-cases,
  str_eq, ok, >>=-eq-ok, ◌||◌, leb, subst, sym, All-imp, All-append, arith,
}
use mandate_x.Trust.{
  Lifecycle, Validity, KeyRecord, ReleaseRecord, Channel, production, canary, lifecycle_beq,
  Authorization, TrustBundle,
}
use mandate_x.Trust.Lookup.{map_get}
use mandate_x.Trust.Transition.Consistency.{release_name}
use mandate_x.Trust.Verify.Tuples.{
  AuthorizedTuple, non_empty, exceeds, canary_compatible, check_channel, tuple_of, tuple_of_edge,
  build_tuple, build_from, build_authorized_tuples,
}

abbrev IsInside : Authorization → Validity → Type 0
IsInside a v = (v.not_before ≤ a.not_before) × (a.not_after ≤ v.not_after)

abbrev IsPreactiveOrActive : Validity → Type 0
IsPreactiveOrActive v = (v.lifecycle ≡ Lifecycle.preactive) ⊎ (v.lifecycle ≡ Lifecycle.active)

-- A canary edge is for material of which one part is preactive, a production edge for none that is.
abbrev pub FitsChannel : Channel → Validity → Validity → Type 0
FitsChannel canary key release =
    IsPreactiveOrActive key
    × IsPreactiveOrActive release
    × ((key.lifecycle ≡ Lifecycle.preactive) ⊎ (release.lifecycle ≡ Lifecycle.preactive))
FitsChannel production key release =
    (key.lifecycle ≢ Lifecycle.preactive) × (release.lifecycle ≢ Lifecycle.preactive)

abbrev pub IsAuthorized : TrustBundle → AuthorizedTuple → Type 0
IsAuthorized envelope t =
    (t.authorization.key_id ≡ t.key_id)
    × (t.authorization.release_id ≡ t.release_id)
    × (map_get KeyRecord.key_id t.key_id envelope.keys ≡ some t.key)
    × (map_get release_name t.release_id envelope.releases ≡ some t.release)
    × (t.authorization.not_before < t.authorization.not_after)
    × IsInside t.authorization t.key.validity
    × IsInside t.authorization t.release.validity
    × (t.key.validity.lifecycle ≢ Lifecycle.revoked)
    × (t.release.validity.lifecycle ≢ Lifecycle.revoked)
    × FitsChannel t.authorization.channel t.key.validity t.release.validity

channel-FitsChannel :
    (c : Channel) (key release : Validity)
    → check_channel c key release ≡ ok tt
    → FitsChannel c key release
unfolding check_channel canary_compatible
channel-FitsChannel canary key release h = ground arith
channel-FitsChannel production key release h = ground arith

-- The part of it that the edge and its records decide.
abbrev IsSound : Authorization → KeyRecord → ReleaseRecord → Type 0
IsSound a key release =
    (a.not_before < a.not_after)
    × IsInside a key.validity
    × IsInside a release.validity
    × (key.validity.lifecycle ≢ Lifecycle.revoked)
    × (release.validity.lifecycle ≢ Lifecycle.revoked)
    × FitsChannel a.channel key.validity release.validity

tuple_of_edge-cases :
    (a : Authorization) (key : KeyRecord) (release : ReleaseRecord) (ts : List AuthorizedTuple)
    → tuple_of_edge a key release ≡ ok ts
    → (ts ≡ [])
      ⊎ ((ts ≡ tuple_of a key release ∷ [])
          × (check_channel a.channel key.validity release.validity ≡ ok tt)
          × ((lifecycle_beq key.validity.lifecycle Lifecycle.revoked
                || lifecycle_beq release.validity.lifecycle Lifecycle.revoked)
              ≡ false)
          × ((leb a.not_after a.not_before || exceeds a key.validity || exceeds a release.validity)
              ≡ false))
unfolding tuple_of_edge
tuple_of_edge-cases a key release ts h = ground arith

tuple_of_edge-IsSound :
    (a : Authorization) (key : KeyRecord) (release : ReleaseRecord) (ts : List AuthorizedTuple)
    → tuple_of_edge a key release ≡ ok ts
    → (ts ≡ []) ⊎ ((ts ≡ tuple_of a key release ∷ []) × IsSound a key release)
unfolding exceeds
tuple_of_edge-IsSound a key release ts h = elim (tuple_of_edge-cases a key release ts h) [
  | inl e ↦ inl e
  | inr e ↦ inr (
    e.0,
    (
      ground (arith, e.3),
      (ground (arith, e.3), ground (arith, e.3)),
      (ground (arith, e.3), ground (arith, e.3)),
      ground (arith, e.2),
      ground (arith, e.2),
      channel-FitsChannel a.channel key.validity release.validity e.1,
    ),
  )
]

build_tuple-IsAuthorized :
    (envelope : TrustBundle) (a : Authorization) (ts : List AuthorizedTuple)
    → build_tuple envelope a ≡ ok ts
    → All (λ t. IsAuthorized envelope t × (t.authorization ≡ a)) ts
unfolding build_tuple
build_tuple-IsAuthorized envelope a ts h =
    elim (Option-cases (map_get KeyRecord.key_id a.key_id envelope.keys)) [
      | inl lost ↦ ground arith
      | inr key ↦ elim (Option-cases (map_get release_name a.release_id envelope.releases)) [
        | inl lost ↦ ground arith
        | inr release ↦
            elim (tuple_of_edge-IsSound a key.0 release.0 ts (ground (arith, key.1, release.1))) [
              | inl e ↦ rw e tt
              | inr e ↦ rw e.0 (
                ((refl, refl, key.1, release.1, e.1.0, e.1.1, e.1.2, e.1.3, e.1.4, e.1.5), refl),
                tt,
              )
            ]
      ]
    ]

build_from-IsAuthorized {κ} :
    (P : Authorization → Type κ) (envelope : TrustBundle) (l : List Authorization)
    (ts : List AuthorizedTuple)
    → All P l
    → build_from envelope l ≡ ok ts
    → All (λ t. IsAuthorized envelope t × P t.authorization) ts
unfolding build_from
build_from-IsAuthorized P envelope [] ts p h = ground arith
build_from-IsAuthorized P envelope (a ∷ l) ts p h =
    let first = >>=-eq-ok (build_tuple envelope a) _ ts h in
    let rest = >>=-eq-ok (build_from envelope l) _ ts first.1.1 in
    let here =
      All-imp (λ t s. (s.0, subst P (sym s.1) p.0)) first.0
        (build_tuple-IsAuthorized envelope a first.0 first.1.0) in
    let there = build_from-IsAuthorized P envelope l rest.0 p.1 rest.1.0 in
    let same : ts ≡ first.0 ++ rest.0 = (ground (arith, rest.1.1)) in
    rw same
      (All-append (λ t. IsAuthorized envelope t × P t.authorization) first.0 rest.0 here there)

non_empty-eq-ok : (l ts : List AuthorizedTuple) → non_empty l ≡ ok ts → (ts ≡ l) × (l ≢ [])
non_empty-eq-ok [] ts h = cc
non_empty-eq-ok (t ∷ l) ts h = (ground arith, λ e. ground arith)

pub build-IsAuthorized {κ} :
    (P : Authorization → Type κ) (envelope : TrustBundle) (ts : List AuthorizedTuple)
    → All P envelope.authorizations
    → build_authorized_tuples envelope ≡ ok ts
    → All (λ t. IsAuthorized envelope t × P t.authorization) ts × (ts ≢ [])
unfolding build_authorized_tuples
build-IsAuthorized P envelope ts p h =
    let all = >>=-eq-ok (build_from envelope envelope.authorizations) _ ts h in
    let built = build_from-IsAuthorized P envelope envelope.authorizations all.0 p all.1.0 in
    let same = non_empty-eq-ok all.0 ts all.1.1 in (rw same.0 built, rw same.0 same.1)
