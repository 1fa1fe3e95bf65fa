-- ===== src/Trust/Resolve.antt =====
-- tools/marketplace-core/src/trust-bundle.ts: `resolveMarketplaceTrustBundleAttestationTuple`.
use mandate_x.Base.{
  ℕ, Bool, true, false, not, ◌&&◌, ◌||◌, none, some, leb, ltb, Str, str_eq, ◌==◌, Result, ok, err,
  ◌>>=◌, refuse_if, if◌then◌else◌,
}
use mandate_x.Core.Primitives.{max_safe_integer}
use mandate_x.Trust.{
  Lifecycle, lifecycle_beq, ServiceMode, observe_only, transactional, Validity, AdapterMode, canary,
  TrustError, tuple_invalid, Check,
}
use mandate_x.Trust.Lookup.{find}
use mandate_x.Trust.Transition.Authorizations.{channel_beq}
use mandate_x.Trust.Verify.{VerifiedBundle}
use mandate_x.Trust.Verify.Tuples.{AuthorizedTuple, is_active, is_preactive}

pub data Phase : Type 0 where
  issuance verification : Phase

abbrev phase_is_issuance : Phase → Bool
phase_is_issuance issuance = true
phase_is_issuance verification = false

pub record ResolveInput : Type 0 where
  pub key_id : Str
  pub release_id : Str
  pub issued_at : ℕ
  pub adapter_id : Str
  pub service_mode : ServiceMode
  pub phase : Phase
  pub allow_canary : Bool

-- `MarketplaceTrustResolvedTuple`
pub record ResolvedTuple : Type 0 where
  pub tuple : AuthorizedTuple
  pub adapter_mode : AdapterMode
  pub issued_at : ℕ

abbrev is_revoked_record : Validity → Bool
is_revoked_record v = lifecycle_beq v.lifecycle Lifecycle.revoked

-- Retiring or retired.
abbrev pub is_leaving : Validity → Bool
is_leaving v =
    lifecycle_beq v.lifecycle Lifecycle.retiring || lifecycle_beq v.lifecycle Lifecycle.retired

unfoldable pub assert_issuance : Validity → Validity → ℕ → Check
assert_issuance key release issued_at =
    refuse_if (not (is_active key) && not (is_preactive key)) tuple_invalid >>= λ _.
    refuse_if (not (is_active release) && not (is_preactive release)) tuple_invalid >>= λ _.
    refuse_if (ltb issued_at key.lifecycle_changed_at || ltb issued_at release.lifecycle_changed_at)
      tuple_invalid

unfoldable pub assert_verification : Validity → Validity → ℕ → ℕ → Check
assert_verification key release issued_at bundle_issued_at =
    refuse_if
      ((is_leaving key || is_leaving release)
        && (is_leaving key && leb key.lifecycle_changed_at issued_at
            || is_leaving release && leb release.lifecycle_changed_at issued_at
            || leb bundle_issued_at issued_at))
      tuple_invalid
    >>= λ _.
        refuse_if (is_active key && ltb issued_at key.lifecycle_changed_at) tuple_invalid >>= λ _.
        refuse_if (is_active release && ltb issued_at release.lifecycle_changed_at) tuple_invalid

unfoldable pub assert_lifecycle_at_tuple : AuthorizedTuple → ℕ → Phase → Bool → ℕ → Check
assert_lifecycle_at_tuple tuple issued_at phase allow_canary bundle_issued_at =
    refuse_if (is_revoked_record tuple.key.validity || is_revoked_record tuple.release.validity)
      tuple_invalid
    >>= λ _.
        refuse_if
          ((is_preactive tuple.key.validity || is_preactive tuple.release.validity)
            && (not allow_canary || not (channel_beq tuple.authorization.channel canary)))
          tuple_invalid
        >>= λ _.
            (if phase_is_issuance phase
              then assert_issuance tuple.key.validity tuple.release.validity issued_at
              else assert_verification tuple.key.validity tuple.release.validity issued_at
                  bundle_issued_at)

-- `t` is in `[notBefore, notAfter)`.
abbrev pub is_within : ℕ → ℕ → ℕ → Bool
is_within t not_before not_after = leb not_before t && ltb t not_after

abbrev pub service_mode_beq : ServiceMode → ServiceMode → Bool
service_mode_beq observe_only observe_only = true
service_mode_beq transactional transactional = true
service_mode_beq _ _ = false

abbrev pub mode_matches : ResolveInput → AdapterMode → Bool
mode_matches input m =
    m.adapter_id == input.adapter_id && service_mode_beq m.service_mode input.service_mode

-- The checks once the edge and the mode are found.
unfoldable pub check_tuple : VerifiedBundle → ResolveInput → AuthorizedTuple → Check
check_tuple verified input tuple =
    refuse_if
      (not (
        is_within input.issued_at tuple.authorization.not_before tuple.authorization.not_after
        && is_within input.issued_at tuple.key.validity.not_before tuple.key.validity.not_after
        && is_within input.issued_at tuple.release.validity.not_before
            tuple.release.validity.not_after))
      tuple_invalid
    >>= λ _.
        refuse_if (channel_beq tuple.authorization.channel canary && not input.allow_canary)
          tuple_invalid
        >>= λ _.
            assert_lifecycle_at_tuple tuple input.issued_at input.phase input.allow_canary
              verified.envelope.issued_at
            >>= λ _.
                refuse_if
                  (phase_is_issuance input.phase && ltb input.issued_at verified.envelope.issued_at)
                  tuple_invalid
                >>= λ _. refuse_if (leb verified.envelope.expires_at input.issued_at) tuple_invalid

unfoldable pub resolve_mode :
    VerifiedBundle → ResolveInput → AuthorizedTuple → AdapterMode → Result TrustError ResolvedTuple
resolve_mode verified input tuple mode = check_tuple verified input tuple >>= λ _.
    ok (record { tuple = tuple; adapter_mode = mode; issued_at = input.issued_at })

unfoldable pub resolve_tuple :
    VerifiedBundle → ResolveInput → AuthorizedTuple → Result TrustError ResolvedTuple
resolve_tuple verified input tuple =
    elim (find (mode_matches input) tuple.release.definition.enabled_adapter_modes) [
      | none ↦ err tuple_invalid
      | some mode ↦ resolve_mode verified input tuple mode
    ]

-- The tuple that the input names.
abbrev pub has_names : ResolveInput → AuthorizedTuple → Bool
has_names input t = t.key_id == input.key_id && t.release_id == input.release_id

unfoldable pub find_and_resolve : VerifiedBundle → ResolveInput → Result TrustError ResolvedTuple
find_and_resolve verified input = elim (find (has_names input) verified.authorized_tuples) [
  | none ↦ err tuple_invalid
  | some tuple ↦ resolve_tuple verified input tuple
]

unfoldable pub resolve_attestation_tuple :
    VerifiedBundle → ResolveInput → Result TrustError ResolvedTuple
resolve_attestation_tuple verified input =
    refuse_if (not (leb 1 input.issued_at && leb input.issued_at max_safe_integer)) tuple_invalid
    >>= λ _. find_and_resolve verified input
