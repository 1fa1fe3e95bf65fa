-- ===== src/Trust/Schema.antt =====
-- tools/marketplace-core/src/trust-bundle.ts: the schemas of the records and of the durable state.
use mandate_x.Base.{
  ℕ, Bool, true, false, ◌&&◌, ◌||◌, List, [], ◌∷◌, Option, none, some, leb, ltb, eqb, length, every,
  Str,
}
use mandate_x.Core.Primitives.{max_safe_integer, unix_seconds_schema}
use mandate_x.Core.Texts.{canonical_identifier_schema, sha256_schema}
use mandate_x.Trust.{
  Validity, KeyRecord, AdapterMode, ReleaseDefinition, ReleaseRecord, Authorization,
  TombstoneReason, KeyTombstone, ReleaseTombstone, DurableState,
}

abbrev pub monotonic_counter_schema : ℕ → Bool
monotonic_counter_schema n = leb n max_safe_integer

abbrev pub generation_schema : ℕ → Bool
generation_schema n = leb 1 n && leb n max_safe_integer

abbrev optional {ℓ} : {A : Type ℓ} → (A → Bool) → Option A → Bool
optional p none = true
optional p (some a) = p a

abbrev is_base64 : ℕ → Bool
is_base64 c =
    leb b'A' c && leb c b'Z'
    || leb b'a' c && leb c b'z'
    || leb b'0' c && leb c b'9'
    || eqb c b'+'
    || eqb c b'/'

-- Groups of four, the last one padded by "=" or "==".
base64_groups : Str → Bool
base64_groups [] = true
base64_groups (a ∷ b ∷ c ∷ d ∷ []) =
    is_base64 a
    && is_base64 b
    && (is_base64 c && is_base64 d || is_base64 c && eqb d b'=' || eqb c b'=' && eqb d b'=')
base64_groups (a ∷ b ∷ c ∷ d ∷ s) =
    is_base64 a && is_base64 b && is_base64 c && is_base64 d && base64_groups s
base64_groups _ = false

unfoldable pub canonical_base64_schema : Str → Bool
unfolding base64_groups
canonical_base64_schema s = leb 4 (length s) && leb (length s) 4096 && base64_groups s

abbrev pub validity_schema : Validity → Bool
validity_schema v =
    unix_seconds_schema v.lifecycle_changed_at
    && unix_seconds_schema v.not_before
    && unix_seconds_schema v.not_after
    && optional unix_seconds_schema v.revoked_at
    && optional generation_schema v.revocation_epoch

unfoldable pub key_record_schema : KeyRecord → Bool
key_record_schema r =
    canonical_identifier_schema r.key_id
    && canonical_base64_schema r.public_key_spki_der_base64
    && sha256_schema r.public_key_fingerprint_sha256
    && validity_schema r.validity

module _ (adapter_mode_schema : AdapterMode → Bool) where
  unfoldable pub release_definition_schema : ReleaseDefinition → Bool
  release_definition_schema d =
      canonical_identifier_schema d.release_id
      && canonical_identifier_schema d.attestation_schema
      && canonical_identifier_schema d.signature_profile
      && sha256_schema d.verifier_policy_sha256
      && sha256_schema d.category_deployment_sha256
      && leb 1 (length d.enabled_adapter_modes)
      && leb (length d.enabled_adapter_modes) 8
      && every adapter_mode_schema d.enabled_adapter_modes

  unfoldable pub release_record_schema : ReleaseRecord → Bool
  release_record_schema r =
      release_definition_schema r.definition
      && sha256_schema r.definition_sha256
      && validity_schema r.validity

unfoldable pub authorization_schema : Authorization → Bool
authorization_schema a =
    canonical_identifier_schema a.key_id
    && canonical_identifier_schema a.release_id
    && unix_seconds_schema a.not_before
    && unix_seconds_schema a.not_after

-- A retired record is kept until a later generation, a revoked one for good.
abbrev pub retention_schema : TombstoneReason → ℕ → Option ℕ → Bool
retention_schema TombstoneReason.retired at none = false
retention_schema TombstoneReason.retired at (some until) = generation_schema until && ltb at until
retention_schema TombstoneReason.revoked at none = true
retention_schema TombstoneReason.revoked at (some _) = false

unfoldable pub key_tombstone_schema : KeyTombstone → Bool
key_tombstone_schema t =
    canonical_identifier_schema t.key_id
    && canonical_base64_schema t.public_key_spki_der_base64
    && sha256_schema t.public_key_fingerprint_sha256
    && generation_schema t.tombstoned_at_generation
    && retention_schema t.reason t.tombstoned_at_generation t.retain_until_generation

unfoldable pub release_tombstone_schema : ReleaseTombstone → Bool
release_tombstone_schema t =
    canonical_identifier_schema t.release_id
    && sha256_schema t.definition_sha256
    && generation_schema t.tombstoned_at_generation
    && retention_schema t.reason t.tombstoned_at_generation t.retain_until_generation

abbrev at_most {ℓ} : {A : Type ℓ} → ℕ → (A → Bool) → List A → Bool
at_most most p l = leb (length l) most && every p l

unfoldable pub durable_state_schema : (AdapterMode → Bool) → DurableState → Bool
durable_state_schema adapter_mode_schema s =
    monotonic_counter_schema s.generation
    && monotonic_counter_schema s.revocation_epoch
    && sha256_schema s.bundle_sha256
    && at_most 32 key_record_schema s.keys
    && at_most 16 (release_record_schema adapter_mode_schema) s.releases
    && at_most 64 authorization_schema s.authorizations
    && at_most 64 key_tombstone_schema s.key_tombstones
    && at_most 64 release_tombstone_schema s.release_tombstones
    && at_most 64 sha256_schema s.revoked_key_fingerprints
