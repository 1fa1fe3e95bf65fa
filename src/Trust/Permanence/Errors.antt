-- ===== src/Trust/Permanence/Errors.antt =====
-- tools/marketplace-core/src/trust-bundle.ts: the checks of a transition that have errors of their own, never the
-- one of a rollback.
use mandate_x.Base.{
  ◌≢◌, List, [], ◌∷◌, Bool, Option-cases, inl, inr, Str, str_eq, ◌>>=◌, for_each, Avoids,
  >>=-Avoids, for_each-Avoids, arith,
}
use mandate_x.Trust.{
  Validity, KeyRecord, ReleaseRecord, ReleaseDefinition, Authorization, KeyTombstone,
  ReleaseTombstone, TrustBundle, DurableState, TrustError, AdapterMode, rollback_detected,
  tombstone_invalid, authorization_invalid, key_invalid, release_invalid,
}
use mandate_x.Trust.Lookup.{map_get}
use mandate_x.Trust.Transition.Consistency.{
  release_name, assert_sorted_unique, check_key_tombstone, check_terminal_key,
  check_release_tombstone, check_terminal_release, check_revoked_key,
  assert_durable_state_consistency,
}
use mandate_x.Trust.Transition.Lifecycle.{validate_lifecycle_transition}
use mandate_x.Trust.Transition.Bindings.{
  prior_key_gone, prior_key_next, validate_prior_key, validate_fresh_key, validate_fresh_release,
  prior_release_gone, prior_release_next, validate_prior_release, validate_prior_bindings,
}
use mandate_x.Trust.Transition.Tombstones.{
  validate_key_tombstone, validate_release_tombstone, key_tombstone_kept, release_tombstone_kept,
  validate_current_tombstones,
}
use mandate_x.Trust.Transition.Authorizations.{
  validate_prior_edge, validate_new_edge, validate_authorization_transition,
}
use mandate_x.Trust.Transition.{
  parse_state, advance, fingerprint_kept, fingerprint_absent, revoked_fingerprints,
}

validate_lifecycle_transition-Avoids :
    (old next : Validity) → Avoids rollback_detected (validate_lifecycle_transition old next)
unfolding validate_lifecycle_transition
validate_lifecycle_transition-Avoids old next = λ h. ground arith

prior_key_gone-Avoids :
    (envelope : TrustBundle) (prior : DurableState) (old : KeyRecord)
    → Avoids rollback_detected (prior_key_gone envelope prior old)
unfolding prior_key_gone
prior_key_gone-Avoids envelope prior old = λ h. ground arith

prior_key_next-Avoids :
    (prior : DurableState) (old next : KeyRecord)
    → Avoids rollback_detected (prior_key_next prior old next)
unfolding prior_key_next
prior_key_next-Avoids prior old next =
    λ h. ground (arith, validate_lifecycle_transition-Avoids old.validity next.validity)

validate_prior_key-Avoids :
    (envelope : TrustBundle) (prior : DurableState) (old : KeyRecord)
    → Avoids rollback_detected (validate_prior_key envelope prior old)
unfolding validate_prior_key
validate_prior_key-Avoids envelope prior old = λ h.
    elim (Option-cases (map_get KeyRecord.key_id old.key_id envelope.keys)) [
      | inl gone ↦ ground (arith, gone, prior_key_gone-Avoids envelope prior old)
      | inr next ↦ ground (arith, next.1, prior_key_next-Avoids prior old next.0)
    ]

validate_key_tombstone-Avoids :
    (envelope : TrustBundle) (prior : DurableState) (t : KeyTombstone)
    → Avoids rollback_detected (validate_key_tombstone envelope prior t)
unfolding validate_key_tombstone
validate_key_tombstone-Avoids envelope prior t = λ h. ground arith

validate_prior_edge-Avoids :
    (envelope : TrustBundle) (old : Authorization)
    → Avoids rollback_detected (validate_prior_edge envelope old)
unfolding validate_prior_edge
validate_prior_edge-Avoids envelope old = λ h. ground arith

prior_release_gone-Avoids :
    (envelope : TrustBundle) (prior : DurableState) (old : ReleaseRecord)
    → Avoids rollback_detected (prior_release_gone envelope prior old)
unfolding prior_release_gone
prior_release_gone-Avoids envelope prior old = λ h. ground arith

validate_release_tombstone-Avoids :
    (envelope : TrustBundle) (prior : DurableState) (t : ReleaseTombstone)
    → Avoids rollback_detected (validate_release_tombstone envelope prior t)
unfolding validate_release_tombstone
validate_release_tombstone-Avoids envelope prior t = λ h. ground arith

validate_current_tombstones-Avoids :
    (envelope : TrustBundle) (prior : DurableState)
    → Avoids rollback_detected (validate_current_tombstones envelope prior)
unfolding validate_current_tombstones key_tombstone_kept release_tombstone_kept
validate_current_tombstones-Avoids envelope prior =
    >>=-Avoids rollback_detected _ _
      (for_each-Avoids rollback_detected (validate_key_tombstone envelope prior)
        envelope.key_tombstones (validate_key_tombstone-Avoids envelope prior))
      (>>=-Avoids rollback_detected _ _
        (for_each-Avoids rollback_detected (key_tombstone_kept envelope) prior.key_tombstones
          (λ t h. ground arith))
        (>>=-Avoids rollback_detected _ _
          (for_each-Avoids rollback_detected (validate_release_tombstone envelope prior)
            envelope.release_tombstones (validate_release_tombstone-Avoids envelope prior))
          (for_each-Avoids rollback_detected (release_tombstone_kept envelope)
            prior.release_tombstones (λ t h. ground arith))))

validate_new_edge-Avoids :
    (envelope : TrustBundle) (prior : DurableState) (next : Authorization)
    → Avoids rollback_detected (validate_new_edge envelope prior next)
unfolding validate_new_edge
validate_new_edge-Avoids envelope prior next = λ h. ground arith

validate_authorization_transition-Avoids :
    (envelope : TrustBundle) (prior : DurableState)
    → Avoids rollback_detected (validate_authorization_transition envelope prior)
unfolding validate_authorization_transition
validate_authorization_transition-Avoids envelope prior =
    >>=-Avoids rollback_detected _ _
      (for_each-Avoids rollback_detected (validate_prior_edge envelope) prior.authorizations
        (validate_prior_edge-Avoids envelope))
      (for_each-Avoids rollback_detected (validate_new_edge envelope prior) envelope.authorizations
        (validate_new_edge-Avoids envelope prior))

-- The consistency of a prior state.
assert_sorted_unique-Avoids :
    (code : TrustError) (l : List Str)
    → code ≢ rollback_detected
    → Avoids rollback_detected (assert_sorted_unique code l)
unfolding assert_sorted_unique
assert_sorted_unique-Avoids code [] other = λ h. cc
assert_sorted_unique-Avoids code (s ∷ []) other = λ h. cc
assert_sorted_unique-Avoids code (s ∷ t ∷ l) other =
    λ h. ground (arith, assert_sorted_unique-Avoids code (t ∷ l) other)

check_key_tombstone-Avoids :
    (s : DurableState) (t : KeyTombstone) → Avoids rollback_detected (check_key_tombstone s t)
unfolding check_key_tombstone
check_key_tombstone-Avoids s t = λ h. ground arith

check_release_tombstone-Avoids :
    (s : DurableState) (t : ReleaseTombstone)
    → Avoids rollback_detected (check_release_tombstone s t)
unfolding check_release_tombstone
check_release_tombstone-Avoids s t = λ h. ground arith

-- The loops over records and tombstones.
records-Avoids :
    (s : DurableState)
    → Avoids rollback_detected (
        for_each (check_key_tombstone s) s.key_tombstones >>= λ _.
        for_each (check_terminal_key s) s.keys >>= λ _.
        for_each (check_release_tombstone s) s.release_tombstones >>= λ _.
        for_each (check_terminal_release s) s.releases >>= λ _.
        for_each (check_revoked_key s) s.keys)
unfolding check_terminal_key check_terminal_release check_revoked_key
records-Avoids s =
    >>=-Avoids rollback_detected _ _
      (for_each-Avoids rollback_detected (check_key_tombstone s) s.key_tombstones
        (check_key_tombstone-Avoids s))
      (>>=-Avoids rollback_detected _ _
        (for_each-Avoids rollback_detected (check_terminal_key s) s.keys (λ k h. ground arith))
        (>>=-Avoids rollback_detected _ _
          (for_each-Avoids rollback_detected (check_release_tombstone s) s.release_tombstones
            (check_release_tombstone-Avoids s))
          (>>=-Avoids rollback_detected _ _
            (for_each-Avoids rollback_detected (check_terminal_release s) s.releases
              (λ r h. ground arith))
            (for_each-Avoids rollback_detected (check_revoked_key s) s.keys
              (λ k h. ground arith)))))

pub assert_durable_state_consistency-Avoids :
    (s : DurableState) → Avoids rollback_detected (assert_durable_state_consistency s)
unfolding assert_durable_state_consistency
assert_durable_state_consistency-Avoids s =
    >>=-Avoids rollback_detected _ _ (assert_sorted_unique-Avoids key_invalid _ (λ h. cc)) (
      >>=-Avoids rollback_detected _ _ (assert_sorted_unique-Avoids release_invalid _ (λ h. cc)) (
        >>=-Avoids rollback_detected _ _
          (assert_sorted_unique-Avoids authorization_invalid _ (λ h. cc))
          (>>=-Avoids rollback_detected _ _
            (assert_sorted_unique-Avoids tombstone_invalid _ (λ h. cc))
            (>>=-Avoids rollback_detected _ _
              (assert_sorted_unique-Avoids tombstone_invalid _ (λ h. cc))
              (>>=-Avoids rollback_detected _ _
                (assert_sorted_unique-Avoids tombstone_invalid _ (λ h. cc)) (records-Avoids s))))))

module _ (adapter_mode_schema : AdapterMode → Bool)
    (definition_digest : ReleaseDefinition → Str) where
  prior_release_next-Avoids :
      (prior : DurableState) (old next : ReleaseRecord)
      → Avoids rollback_detected (prior_release_next definition_digest prior old next)
  unfolding prior_release_next
  prior_release_next-Avoids prior old next =
      λ h. ground (arith, validate_lifecycle_transition-Avoids old.validity next.validity)

  validate_prior_release-Avoids :
      (envelope : TrustBundle) (prior : DurableState) (old : ReleaseRecord)
      → Avoids rollback_detected (validate_prior_release definition_digest envelope prior old)
  unfolding validate_prior_release
  validate_prior_release-Avoids envelope prior old = λ h.
      elim (Option-cases (map_get release_name (release_name old) envelope.releases)) [
        | inl gone ↦ ground (arith, gone, prior_release_gone-Avoids envelope prior old)
        | inr next ↦ ground (arith, next.1, prior_release_next-Avoids prior old next.0)
      ]

  validate_prior_bindings-Avoids :
      (envelope : TrustBundle) (prior : DurableState)
      → Avoids rollback_detected (validate_prior_bindings definition_digest envelope prior)
  unfolding validate_prior_bindings validate_fresh_key validate_fresh_release
  validate_prior_bindings-Avoids envelope prior =
      >>=-Avoids rollback_detected _ _
        (for_each-Avoids rollback_detected (validate_prior_key envelope prior) prior.keys
          (validate_prior_key-Avoids envelope prior))
        (>>=-Avoids rollback_detected _ _
          (for_each-Avoids rollback_detected
            (validate_prior_release definition_digest envelope prior) prior.releases
            (validate_prior_release-Avoids envelope prior))
          (>>=-Avoids rollback_detected _ _
            (for_each-Avoids rollback_detected (validate_fresh_key prior) envelope.keys
              (λ k h. ground arith))
            (for_each-Avoids rollback_detected (validate_fresh_release prior) envelope.releases
              (λ r h. ground arith))))

  parse_state-Avoids :
      (s : DurableState)
      → Avoids rollback_detected (parse_state adapter_mode_schema definition_digest s)
  unfolding parse_state
  parse_state-Avoids s = λ h. ground arith

  -- Of a later generation nothing is a rollback.
  pub advance-Avoids :
      (envelope : TrustBundle) (current prior : DurableState)
      → Avoids rollback_detected
          (advance adapter_mode_schema definition_digest envelope current prior)
  unfolding advance fingerprint_kept fingerprint_absent
  advance-Avoids envelope current prior =
      >>=-Avoids rollback_detected _ _
        (for_each-Avoids rollback_detected (fingerprint_kept envelope)
          prior.revoked_key_fingerprints (λ f h. ground arith))
        (>>=-Avoids rollback_detected _ _ (validate_prior_bindings-Avoids envelope prior) (
          >>=-Avoids rollback_detected _ _ (validate_current_tombstones-Avoids envelope prior) (
            >>=-Avoids rollback_detected _ _
              (validate_authorization_transition-Avoids envelope prior)
              (>>=-Avoids rollback_detected _ _
                (for_each-Avoids rollback_detected (fingerprint_absent envelope)
                  (revoked_fingerprints envelope prior) (λ f h. ground arith))
                (parse_state-Avoids _)))))
