-- ===== src/Trust/Permanence/Bindings.antt =====
-- tools/marketplace-core/src/trust-bundle.ts: what a key id and a release id stand for, over the steps of
-- the durable state.
use mandate_x.Base.{
  ℕ, ◌≤◌, ◌≡◌, Bool, true, false, List, any, some, Option-cases, ◌⊎◌, inl, inr, Str, str_eq,
  str_beq_iff, ◌==◌, ◌!=◌, subst, ok, arith,
}
use mandate_x.Trust.{
  Lifecycle, Validity, AdapterMode, KeyRecord, ReleaseDefinition, ReleaseRecord, KeyTombstone,
  ReleaseTombstone, TrustBundle, DurableState,
}
use mandate_x.Trust.Lookup.{find-is_some, map_get, All-map_get}
use mandate_x.Trust.Transition.Consistency.{release_name}
use mandate_x.Trust.Transition.Lifecycle.{is_allowed, validate_lifecycle_transition}
use mandate_x.Trust.Transition.Bindings.{
  prior_key_gone, prior_key_next, validate_prior_key, prior_release_gone, prior_release_next,
  validate_prior_release,
}
use mandate_x.Trust.Permanence.Steps.{Step, accept, Reach, once, then_on, Step-Passed, Passed-AsIn}
use mandate_x.Trust.Permanence.Revocation.{
  Bound-of_validate, Step-IsBuriedKey, Step-IsBuriedRelease,
}

-- The order of the lifecycles, which `allowed` never goes back in.
abbrev pub rank : Lifecycle → ℕ
rank Lifecycle.preactive = 0
rank Lifecycle.active = 1
rank Lifecycle.retiring = 2
rank Lifecycle.retired = 3
rank Lifecycle.revoked = 4

-- The start stays, the end is never put off, and the lifecycle does not go back.
abbrev pub Narrows : Validity → Validity → Type 0
Narrows old next =
    (next.not_before ≡ old.not_before)
    × (next.not_after ≤ old.not_after)
    × (rank old.lifecycle ≤ rank next.lifecycle)
    × (old.lifecycle_changed_at ≤ next.lifecycle_changed_at)

allowed-rank : (old next : Lifecycle) → is_allowed old next ≡ true → rank old ≤ rank next
allowed-rank old next h = ground arith

pub lifecycle-Narrows :
    (old next : Validity) → validate_lifecycle_transition old next ≡ ok tt → Narrows old next
unfolding validate_lifecycle_transition
lifecycle-Narrows old next h =
    let allowed : is_allowed old.lifecycle next.lifecycle ≡ true = (ground arith) in
    (ground arith, ground arith, allowed-rank old.lifecycle next.lifecycle allowed, ground arith)

abbrev pub KeyContinues : KeyRecord → KeyRecord → Type 0
KeyContinues old next =
    (next.public_key_spki_der_base64 ≡ old.public_key_spki_der_base64)
    × (next.public_key_fingerprint_sha256 ≡ old.public_key_fingerprint_sha256)
    × Narrows old.validity next.validity

same_of_not : (a b : Str) → (a != b) ≡ false → a ≡ b
same_of_not a b h = (str_beq_iff a b).0 (ground arith)

key_next-KeyContinues :
    (prior : DurableState) (old next : KeyRecord)
    → prior_key_next prior old next ≡ ok tt
    → KeyContinues old next
unfolding prior_key_next
key_next-KeyContinues prior old next h = (
  same_of_not next.public_key_spki_der_base64 old.public_key_spki_der_base64 (ground arith),
  same_of_not next.public_key_fingerprint_sha256 old.public_key_fingerprint_sha256 (ground arith),
  lifecycle-Narrows old.validity next.validity (ground arith),
)

-- What becomes of a key: the bundle has it, or has its tombstone.
abbrev pub KeyIsKept : Str → KeyRecord → List KeyRecord → List KeyTombstone → Type 0
KeyIsKept name old keys tombstones =
    ((next : KeyRecord) × ((map_get KeyRecord.key_id name keys ≡ some next)
        × KeyContinues old next))
    ⊎ (any (λ (t : KeyTombstone). t.key_id == name) tombstones ≡ true)

prior_key-KeyIsKept :
    (envelope : TrustBundle) (prior : DurableState) (old : KeyRecord)
    → validate_prior_key envelope prior old ≡ ok tt
    → KeyIsKept old.key_id old envelope.keys envelope.key_tombstones
unfolding validate_prior_key prior_key_gone
prior_key-KeyIsKept envelope prior old h =
    elim (Option-cases (map_get KeyRecord.key_id old.key_id envelope.keys)) [
      | inl gone ↦ inr (
          ground (
            arith,
            find-is_some (λ (t : KeyTombstone). t.key_id == old.key_id) envelope.key_tombstones,
          ))
      | inr found ↦ inl (found.0, (found.1, key_next-KeyContinues prior old found.0 (ground arith)))
    ]

abbrev pub ReleaseContinues : ReleaseRecord → ReleaseRecord → Type 0
ReleaseContinues old next =
    (next.definition_sha256 ≡ old.definition_sha256) × Narrows old.validity next.validity

abbrev pub ReleaseIsKept : Str → ReleaseRecord → List ReleaseRecord → List ReleaseTombstone → Type 0
ReleaseIsKept name old releases tombstones =
    ((next : ReleaseRecord) × ((map_get release_name name releases ≡ some next)
        × ReleaseContinues old next))
    ⊎ (any (λ (t : ReleaseTombstone). t.release_id == name) tombstones ≡ true)

module _ (definition_digest : ReleaseDefinition → Str) where
  release_next-ReleaseContinues :
      (prior : DurableState) (old next : ReleaseRecord)
      → prior_release_next definition_digest prior old next ≡ ok tt
      → ReleaseContinues old next
  unfolding prior_release_next
  release_next-ReleaseContinues prior old next h = (
    same_of_not next.definition_sha256 old.definition_sha256 (ground arith),
    lifecycle-Narrows old.validity next.validity (ground arith),
  )

  prior_release-ReleaseIsKept :
      (envelope : TrustBundle) (prior : DurableState) (old : ReleaseRecord)
      → validate_prior_release definition_digest envelope prior old ≡ ok tt
      → ReleaseIsKept (release_name old) old envelope.releases envelope.release_tombstones
  unfolding validate_prior_release prior_release_gone
  prior_release-ReleaseIsKept envelope prior old h =
      elim (Option-cases (map_get release_name (release_name old) envelope.releases)) [
        | inl gone ↦ inr (
            ground (
              arith,
              find-is_some (λ (t : ReleaseTombstone). t.release_id == release_name old)
                  envelope.release_tombstones,
            ))
        | inr found ↦
            inl (found.0, (found.1, release_next-ReleaseContinues prior old found.0 (ground arith)))
      ]

module _ (adapter_mode_schema : AdapterMode → Bool)
    (definition_digest : ReleaseDefinition → Str) where
  Step-KeyIsKept :
      (name : Str) (old : KeyRecord) {s t : DurableState}
      → Step adapter_mode_schema definition_digest s t
      → map_get KeyRecord.key_id name s.keys ≡ some old
      → KeyIsKept name old t.keys t.key_tombstones
  Step-KeyIsKept name old (accept envelope digest prior next later h) found =
      let p =
        Step-Passed adapter_mode_schema definition_digest envelope digest prior next later h in
      let bound = Bound-of_validate definition_digest envelope prior p.bindings in
      let same = Passed-AsIn adapter_mode_schema definition_digest envelope digest prior next p in
      let passed =
        All-map_get (λ k. validate_prior_key envelope prior k ≡ ok tt) KeyRecord.key_id name
          prior.keys old bound.keys found in
      rw (same.2, same.5)
        (subst (λ n. KeyIsKept n old envelope.keys envelope.key_tombstones) passed.1
          (prior_key-KeyIsKept envelope prior old passed.0))

  KeyIsKept-on :
      (name : Str) (old : KeyRecord) {t u : DurableState}
      → KeyIsKept name old t.keys t.key_tombstones
      → Step adapter_mode_schema definition_digest t u
      → KeyIsKept name old u.keys u.key_tombstones
  KeyIsKept-on name old (inl kept) step = elim (Step-KeyIsKept name kept.0 step kept.1.0) [
    | inl on ↦ inl (on.0, (on.1.0, ground (arith, on.1.1, kept.1.1)))
    | inr buried ↦ inr buried
  ]
  KeyIsKept-on name old (inr buried) step =
      inr (Step-IsBuriedKey adapter_mode_schema definition_digest name step buried).0

  -- Along any sequence of accepted bundles of growing generations, a key id that a state gives a
  -- key either still gives one of the same public key and fingerprint, whose start is the same,
  -- whose end is no later and whose lifecycle has not gone back, or has a tombstone.
  pub Reach-KeyIsKept :
      (name : Str) (old : KeyRecord) {s t : DurableState}
      → Reach adapter_mode_schema definition_digest s t
      → map_get KeyRecord.key_id name s.keys ≡ some old
      → KeyIsKept name old t.keys t.key_tombstones
  Reach-KeyIsKept name old (once step) found = Step-KeyIsKept name old step found
  Reach-KeyIsKept name old (then_on reach step) found =
      KeyIsKept-on name old (Reach-KeyIsKept name old reach found) step

  Step-ReleaseIsKept :
      (name : Str) (old : ReleaseRecord) {s t : DurableState}
      → Step adapter_mode_schema definition_digest s t
      → map_get release_name name s.releases ≡ some old
      → ReleaseIsKept name old t.releases t.release_tombstones
  Step-ReleaseIsKept name old (accept envelope digest prior next later h) found =
      let p =
        Step-Passed adapter_mode_schema definition_digest envelope digest prior next later h in
      let bound = Bound-of_validate definition_digest envelope prior p.bindings in
      let same = Passed-AsIn adapter_mode_schema definition_digest envelope digest prior next p in
      let passed =
        All-map_get (λ r. validate_prior_release definition_digest envelope prior r ≡ ok tt)
          release_name name prior.releases old bound.releases found in
      rw (same.3, same.6)
        (subst (λ n. ReleaseIsKept n old envelope.releases envelope.release_tombstones) passed.1
          (prior_release-ReleaseIsKept definition_digest envelope prior old passed.0))

  ReleaseIsKept-on :
      (name : Str) (old : ReleaseRecord) {t u : DurableState}
      → ReleaseIsKept name old t.releases t.release_tombstones
      → Step adapter_mode_schema definition_digest t u
      → ReleaseIsKept name old u.releases u.release_tombstones
  ReleaseIsKept-on name old (inl kept) step = elim (Step-ReleaseIsKept name kept.0 step kept.1.0) [
    | inl on ↦ inl (on.0, (on.1.0, ground (arith, on.1.1, kept.1.1)))
    | inr buried ↦ inr buried
  ]
  ReleaseIsKept-on name old (inr buried) step =
      inr (Step-IsBuriedRelease adapter_mode_schema definition_digest name step buried).0

  -- Along any sequence of accepted bundles of growing generations, a release id that a state gives
  -- a release either still gives one of the same definition digest, whose start is the same, whose
  -- end is no later and whose lifecycle has not gone back, or has a tombstone.
  pub Reach-ReleaseIsKept :
      (name : Str) (old : ReleaseRecord) {s t : DurableState}
      → Reach adapter_mode_schema definition_digest s t
      → map_get release_name name s.releases ≡ some old
      → ReleaseIsKept name old t.releases t.release_tombstones
  Reach-ReleaseIsKept name old (once step) found = Step-ReleaseIsKept name old step found
  Reach-ReleaseIsKept name old (then_on reach step) found =
      ReleaseIsKept-on name old (Reach-ReleaseIsKept name old reach found) step
