-- ===== src/Trust/Examples/Data.antt =====
-- A state after the rotation from one key to another, and the bundle that drops the retired key once its
-- tombstone allows it.
use mandate_x.Base.{Bool, true, false, [], ◌∷◌, none, some, Str, codes}
use mandate_x.Trust.{
  active, retired, KeyRecord, AdapterMode, observe_only, interface_only_unendorsed,
  ReleaseDefinition, ReleaseRecord, Authorization, production, KeyTombstone, ReleaseTombstone,
  TombstoneReason, TrustBundle, DurableState,
}
use mandate_x.Trust.Transition.{state_of}
use mandate_x.Trust.Verify.{Platform}
use mandate_x.Trust.Verify.Envelope.{VerificationOptions, RollbackFloor}
use mandate_x.Trust.Resolve.{ResolveInput, issuance}

abbrev sha_a : Str
sha_a = codes "aaaaaaaaaaaaaaaaaaaaaaaaaaaaaaaaaaaaaaaaaaaaaaaaaaaaaaaaaaaaaaaa"

abbrev pub sha_b : Str
sha_b = codes "bbbbbbbbbbbbbbbbbbbbbbbbbbbbbbbbbbbbbbbbbbbbbbbbbbbbbbbbbbbbbbbb"

abbrev pub sha_c : Str
sha_c = codes "cccccccccccccccccccccccccccccccccccccccccccccccccccccccccccccccc"

abbrev pub definition_sha : Str
definition_sha = codes "dddddddddddddddddddddddddddddddddddddddddddddddddddddddddddddddd"

-- A fingerprint that was revoked long ago.
abbrev pub revoked_sha : Str
revoked_sha = codes "eeeeeeeeeeeeeeeeeeeeeeeeeeeeeeeeeeeeeeeeeeeeeeeeeeeeeeeeeeeeeeee"

abbrev pub signer_one : Str
signer_one = codes "signer-k1"

abbrev pub signer_two : Str
signer_two = codes "signer-k2"

abbrev pub release_one : Str
release_one = codes "release-r1"

abbrev pub release_two : Str
release_two = codes "release-r2"

abbrev spki_one : Str
spki_one = codes "AAA="

abbrev spki_two : Str
spki_two = codes "AAE="

abbrev pub retired_key : KeyRecord
retired_key = record {
  key_id = signer_one;
  public_key_spki_der_base64 = spki_one;
  public_key_fingerprint_sha256 = sha_a;
  validity = record {
    lifecycle = retired;
    lifecycle_changed_at = 1300;
    not_before = 800;
    not_after = 5000;
    revoked_at = none;
    revocation_epoch = none;
  };
}

abbrev pub current_key : KeyRecord
current_key = record {
  key_id = signer_two;
  public_key_spki_der_base64 = spki_two;
  public_key_fingerprint_sha256 = sha_b;
  validity = record {
    lifecycle = active;
    lifecycle_changed_at = 1200;
    not_before = 900;
    not_after = 5000;
    revoked_at = none;
    revocation_epoch = none;
  };
}

abbrev pub health_mode : AdapterMode
health_mode = record {
  adapter_id = codes "aave-v3-health-v1";
  service_mode = observe_only;
  read_profile_id = codes "read";
  read_profile_sha256 = sha_a;
  action_profile_id = none;
  action_profile_sha256 = none;
  minimum_target_assurance = interface_only_unendorsed;
}

abbrev pub release : ReleaseRecord
release = record {
  definition = record {
    release_id = release_two;
    attestation_schema = codes "attestation.v1";
    signature_profile = codes "ed25519";
    verifier_policy_sha256 = sha_a;
    category_deployment_sha256 = sha_a;
    enabled_adapter_modes = health_mode ∷ [];
  };
  definition_sha256 = definition_sha;
  validity = record {
    lifecycle = active;
    lifecycle_changed_at = 1200;
    not_before = 900;
    not_after = 5000;
    revoked_at = none;
    revocation_epoch = none;
  };
}

abbrev pub edge : Authorization
edge = record {
  key_id = signer_two;
  release_id = release_two;
  channel = production;
  not_before = 1200;
  not_after = 5000;
}

abbrev pub key_tombstone : KeyTombstone
key_tombstone = record {
  key_id = signer_one;
  public_key_spki_der_base64 = spki_one;
  public_key_fingerprint_sha256 = sha_a;
  reason = TombstoneReason.retired;
  tombstoned_at_generation = 9;
  retain_until_generation = some 11;
}

abbrev pub release_tombstone : ReleaseTombstone
release_tombstone = record {
  release_id = release_one;
  definition_sha256 = sha_c;
  reason = TombstoneReason.retired;
  tombstoned_at_generation = 7;
  retain_until_generation = some 8;
}

abbrev pub prior : DurableState
prior = record {
  generation = 9;
  revocation_epoch = 2;
  bundle_sha256 = sha_b;
  keys = retired_key ∷ current_key ∷ [];
  releases = release ∷ [];
  authorizations = edge ∷ [];
  key_tombstones = key_tombstone ∷ [];
  release_tombstones = release_tombstone ∷ [];
  revoked_key_fingerprints = revoked_sha ∷ [];
}

abbrev pub envelope : TrustBundle
envelope = record {
  root_key_id = codes "root-1";
  generation = 11;
  revocation_epoch = 2;
  issued_at = 1500;
  expires_at = 1800;
  active_signer_key_id = signer_two;
  active_release_id = release_two;
  keys = current_key ∷ [];
  releases = release ∷ [];
  authorizations = edge ∷ [];
  key_tombstones = key_tombstone ∷ [];
  release_tombstones = release_tombstone ∷ [];
  revoked_key_fingerprints = revoked_sha ∷ [];
  signature = [];
}

abbrev pub next : DurableState
next = state_of envelope sha_c

abbrev pub any_mode : AdapterMode → Bool
any_mode m = true

abbrev pub digest_of : ReleaseDefinition → Str
digest_of d = definition_sha

abbrev pub platform : Platform
platform = record {
  adapter_mode_schema = any_mode;
  is_registered = λ s. true;
  key_is_valid = λ k. true;
  signature_is_valid = λ e. true;
  definition_digest = digest_of;
  bundle_digest = λ e. sha_c;
}

abbrev pub options : VerificationOptions
options = record { evaluated_at = 1550; max_clock_skew_seconds = 30; max_bundle_ttl_seconds = 600 }

abbrev pub floor : RollbackFloor
floor = record { generation = 9; revocation_epoch = 2; bundle_sha256 = some sha_b }

abbrev pub request : ResolveInput
request = record {
  key_id = signer_two;
  release_id = release_two;
  issued_at = 1600;
  adapter_id = codes "aave-v3-health-v1";
  service_mode = observe_only;
  phase = issuance;
  allow_canary = false;
}
