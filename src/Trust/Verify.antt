-- ===== src/Trust/Verify.antt =====
-- tools/marketplace-core/src/trust-bundle.ts: `verifyMarketplaceTrustBundle`. The decoding of the wire text, the
-- signature and the digests are parameters.
pub mod Envelope
pub mod Records
pub mod Revocation
pub mod Tuples
pub mod Uniqueness
pub mod Active
pub mod Edges
pub mod Inversion
pub mod Bounds
use mandate_x.Base.{
  Bool, not, ◌&&◌, List, Option, none, some, Str, str_eq, ◌==◌, ◌!=◌, Result, ok, err, ◌>>=◌,
  refuse_if,
}
use mandate_x.Trust.{
  KeyRecord, AdapterMode, ReleaseDefinition, TrustBundle, DurableState, TrustError,
  root_key_mismatch, signature_invalid, authorization_invalid, Check,
}
use mandate_x.Trust.Lookup.{find}
use mandate_x.Trust.Transition.{validate_durable_transition}
use Envelope.{
  VerificationOptions, RollbackFloor, assert_verification_options, parse_rollback_floor,
  assert_freshness, assert_rollback_floor,
}
use Records.{validate_bundle_key_records, assert_canonical_record_sets, assert_release_definitions}
use Revocation.{assert_revocation_state, assert_terminal_tombstones}
use Tuples.{AuthorizedTuple, assert_active_tuple, build_authorized_tuples}

-- What the code takes from other modules and from the platform.
pub record Platform : Type 0 where
  pub adapter_mode_schema : AdapterMode → Bool
  pub is_registered : Str → Bool
  pub key_is_valid : KeyRecord → Bool
  pub signature_is_valid : TrustBundle → Bool
  pub definition_digest : ReleaseDefinition → Str
  pub bundle_digest : TrustBundle → Str

-- `VerifiedMarketplaceTrustBundle`
pub record VerifiedBundle : Type 0 where
  pub envelope : TrustBundle
  pub bundle_sha256 : Str
  pub active_tuple : AuthorizedTuple
  pub authorized_tuples : List AuthorizedTuple
  pub next_state : DurableState

module _ (platform : Platform) where
  -- The checks of the bundle alone.
  unfoldable pub check_bundle : TrustBundle → VerificationOptions → RollbackFloor → Check
  check_bundle envelope options floor =
      refuse_if (not (platform.signature_is_valid envelope)) signature_invalid >>= λ _.
      assert_freshness envelope options >>= λ _.
      assert_rollback_floor envelope (platform.bundle_digest envelope) floor >>= λ _.
      validate_bundle_key_records platform.key_is_valid envelope >>= λ _.
      assert_canonical_record_sets platform.is_registered envelope >>= λ _.
      assert_release_definitions platform.definition_digest envelope >>= λ _.
      assert_revocation_state envelope >>= λ _. assert_terminal_tombstones envelope

  unfoldable pub conclude :
      TrustBundle
      → Option DurableState
      → List AuthorizedTuple
      → AuthorizedTuple
      → Result TrustError VerifiedBundle
  conclude envelope prior tuples tuple =
      validate_durable_transition platform.adapter_mode_schema platform.definition_digest envelope
        (platform.bundle_digest envelope) prior
      >>= λ next. ok (record {
        envelope = envelope;
        bundle_sha256 = platform.bundle_digest envelope;
        active_tuple = tuple;
        authorized_tuples = tuples;
        next_state = next;
      })

  abbrev pub has_names_of : AuthorizedTuple → AuthorizedTuple → Bool
  has_names_of active t = t.key_id == active.key_id && t.release_id == active.release_id

  unfoldable pub select :
      TrustBundle
      → Option DurableState
      → AuthorizedTuple
      → List AuthorizedTuple
      → Result TrustError VerifiedBundle
  select envelope prior active tuples = elim (find (has_names_of active) tuples) [
    | none ↦ err authorization_invalid
    | some tuple ↦ conclude envelope prior tuples tuple
  ]

  unfoldable pub verify_envelope :
      TrustBundle
      → Str
      → VerificationOptions
      → RollbackFloor
      → Option DurableState
      → Result TrustError VerifiedBundle
  verify_envelope envelope root_key_id options floor prior =
      refuse_if (envelope.root_key_id != root_key_id) root_key_mismatch >>= λ _.
      check_bundle envelope options floor >>= λ _. assert_active_tuple envelope >>= λ active.
      build_authorized_tuples envelope >>= λ tuples. select envelope prior active tuples

  -- `decoded` is the outcome of reading the wire text as canonical JSON of the schema.
  unfoldable pub verify_bundle :
      Result TrustError TrustBundle
      → Str
      → Bool
      → VerificationOptions
      → RollbackFloor
      → Option DurableState
      → Result TrustError VerifiedBundle
  verify_bundle decoded root_key_id root_is_valid options floor prior =
      assert_verification_options root_is_valid options >>= λ _. parse_rollback_floor floor >>= λ _.
      decoded >>= λ envelope. verify_envelope envelope root_key_id options floor prior
