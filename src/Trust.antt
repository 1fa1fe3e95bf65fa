-- ===== src/Trust.antt =====
-- tools/marketplace-core/src/trust-bundle.ts: the signed bundles of keys and releases, as data.
-- Fields that hold one literal are left out.
pub mod Lookup
pub mod Schema
pub mod Transition
pub mod Verify
pub mod Resolve
pub mod Permanence
pub mod Issuance
pub mod Examples
use mandate_x.Base.{ℕ, Bool, true, false, List, Option, Str, Result}

pub data Lifecycle : Type 0 where
  preactive active retiring retired revoked : Lifecycle

abbrev pub lifecycle_beq : Lifecycle → Lifecycle → Bool
lifecycle_beq preactive preactive = true
lifecycle_beq active active = true
lifecycle_beq retiring retiring = true
lifecycle_beq retired retired = true
lifecycle_beq revoked revoked = true
lifecycle_beq _ _ = false

pub data ServiceMode : Type 0 where
  observe_only transactional : ServiceMode

pub data TargetAssurance : Type 0 where
  interface_only_unendorsed protocol_instance_verified : TargetAssurance

pub data Channel : Type 0 where
  production canary : Channel

-- The part of a record of a key or of a release that says when it is good.
pub record Validity : Type 0 where
  pub lifecycle : Lifecycle
  pub lifecycle_changed_at : ℕ
  pub not_before : ℕ
  pub not_after : ℕ
  pub revoked_at : Option ℕ
  pub revocation_epoch : Option ℕ

pub record KeyRecord : Type 0 where
  pub key_id : Str
  pub public_key_spki_der_base64 : Str
  pub public_key_fingerprint_sha256 : Str
  pub validity : Validity

pub record AdapterMode : Type 0 where
  pub adapter_id : Str
  pub service_mode : ServiceMode
  pub read_profile_id : Str
  pub read_profile_sha256 : Str
  pub action_profile_id : Option Str
  pub action_profile_sha256 : Option Str
  pub minimum_target_assurance : TargetAssurance

-- `releaseDefinitionShape`
pub record ReleaseDefinition : Type 0 where
  pub release_id : Str
  pub attestation_schema : Str
  pub signature_profile : Str
  pub verifier_policy_sha256 : Str
  pub category_deployment_sha256 : Str
  pub enabled_adapter_modes : List AdapterMode

pub record ReleaseRecord : Type 0 where
  pub definition : ReleaseDefinition
  pub definition_sha256 : Str
  pub validity : Validity

pub record Authorization : Type 0 where
  pub key_id : Str
  pub release_id : Str
  pub channel : Channel
  pub not_before : ℕ
  pub not_after : ℕ

pub data TombstoneReason : Type 0 where
  retired revoked : TombstoneReason

pub record KeyTombstone : Type 0 where
  pub key_id : Str
  pub public_key_spki_der_base64 : Str
  pub public_key_fingerprint_sha256 : Str
  pub reason : TombstoneReason
  pub tombstoned_at_generation : ℕ
  pub retain_until_generation : Option ℕ

pub record ReleaseTombstone : Type 0 where
  pub release_id : Str
  pub definition_sha256 : Str
  pub reason : TombstoneReason
  pub tombstoned_at_generation : ℕ
  pub retain_until_generation : Option ℕ

-- `MarketplaceTrustBundle`
pub record TrustBundle : Type 0 where
  pub root_key_id : Str
  pub generation : ℕ
  pub revocation_epoch : ℕ
  pub issued_at : ℕ
  pub expires_at : ℕ
  pub active_signer_key_id : Str
  pub active_release_id : Str
  pub keys : List KeyRecord
  pub releases : List ReleaseRecord
  pub authorizations : List Authorization
  pub key_tombstones : List KeyTombstone
  pub release_tombstones : List ReleaseTombstone
  pub revoked_key_fingerprints : List Str
  pub signature : Str

-- `MarketplaceTrustBundleDurableState`
pub record DurableState : Type 0 where
  pub generation : ℕ
  pub revocation_epoch : ℕ
  pub bundle_sha256 : Str
  pub keys : List KeyRecord
  pub releases : List ReleaseRecord
  pub authorizations : List Authorization
  pub key_tombstones : List KeyTombstone
  pub release_tombstones : List ReleaseTombstone
  pub revoked_key_fingerprints : List Str

-- `MarketplaceTrustBundleErrorCode`, and the error of a `parse` that fails.
pub data TrustError : Type 0 where
  active_release_invalid active_signer_invalid authorization_invalid expired : TrustError
  freshness_invalid input_invalid json_invalid key_invalid lifecycle_invalid : TrustError
  noncanonical not_yet_valid profile_invalid release_invalid rollback_detected : TrustError
  root_invalid root_key_mismatch schema_invalid signature_invalid too_large : TrustError
  transition_invalid tombstone_invalid tuple_invalid utf8_invalid zod_error : TrustError

abbrev pub Check : Type 0
Check = Result {0, 0} TrustError Unit

abbrev pub is_terminal : Lifecycle → Bool
is_terminal Lifecycle.retired = true
is_terminal Lifecycle.revoked = true
is_terminal _ = false

-- `record.lifecycle === tombstone.reason`
abbrev pub has_reason : Lifecycle → TombstoneReason → Bool
has_reason Lifecycle.retired TombstoneReason.retired = true
has_reason Lifecycle.revoked TombstoneReason.revoked = true
has_reason _ _ = false

abbrev pub is_revoked : TombstoneReason → Bool
is_revoked TombstoneReason.revoked = true
is_revoked TombstoneReason.retired = false
