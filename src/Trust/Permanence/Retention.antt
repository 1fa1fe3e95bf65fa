-- ===== src/Trust/Permanence/Retention.antt =====
-- tools/marketplace-core/src/trust-bundle.ts: the generations that can follow a state with a retired key.
use mandate_x.Base.{
  ℕ, ◌≡◌, ◌≢◌, refl, sym, ap, Bool, true, false, List, [], ◌∷◌, All, any, Option, none, some,
  Option-cases, not_true, inl, inr, Str, str_eq, str_beq_iff, ◌==◌, ok, arith,
}
use mandate_x.Trust.{
  Lifecycle, AdapterMode, KeyRecord, ReleaseDefinition, KeyTombstone, TrustBundle, DurableState,
  is_revoked,
}
use mandate_x.Trust.Lookup.{find-is_some, map_get, All-find}
use mandate_x.Trust.Transition.Bindings.{tombstone_of, is_tombstoned_key}
use mandate_x.Trust.Transition.Tombstones.{
  key_tombstone_changed, validate_key_tombstone, is_retained, gone_too_soon, option_beq,
}
use mandate_x.Trust.Permanence.Steps.{Step, accept, Step-Passed, Passed-AsIn}
use mandate_x.Trust.Permanence.Revocation.{Retained-of_validate, Step-IsBuriedKey}

option_beq-eq : (a b : Option ℕ) → option_beq a b ≡ true → a ≡ b
option_beq-eq none none h = refl
option_beq-eq none (some b) h = cc
option_beq-eq (some a) none h = cc
option_beq-eq (some a) (some b) h = ap some (ground arith)

-- A tombstone that is not one of a revocation is unchanged.
unchanged-until :
    (t old : KeyTombstone)
    → key_tombstone_changed t old ≡ false
    → is_revoked t.reason ≡ false
    → old.retain_until_generation ≡ t.retain_until_generation
unfolding key_tombstone_changed
unchanged-until t old h r =
    option_beq-eq old.retain_until_generation t.retain_until_generation (ground arith)

-- The tombstone of a retired key that the bundle has no more.
gone-IsPast :
    (envelope : TrustBundle) (prior : DurableState) (t old_tombstone : KeyTombstone)
    (key : KeyRecord)
    → map_get KeyRecord.key_id t.key_id envelope.keys ≡ none
    → map_get KeyRecord.key_id t.key_id prior.keys ≡ some key
    → tombstone_of t.key_id prior.key_tombstones ≡ some old_tombstone
    → key.validity.lifecycle ≡ Lifecycle.retired
    → validate_key_tombstone envelope prior t ≡ ok tt
    → is_retained envelope.generation old_tombstone.retain_until_generation ≡ false
unfolding validate_key_tombstone
gone-IsPast envelope prior t old_tombstone key gone was had retired h =
    let changed : key_tombstone_changed t old_tombstone ≡ false = (ground arith) in
    let too_soon : gone_too_soon envelope.generation Lifecycle.retired t.reason
          t.retain_until_generation
        ≡ false =
      (ground arith) in
    let until = unchanged-until t old_tombstone changed (ground arith) in rw until (ground arith)

unmatched-find :
    (name : Str) (l : List KeyRecord)
    → All (λ (k : KeyRecord). k.key_id ≢ name) l
    → map_get KeyRecord.key_id name l ≡ none
unfolding map_get
unmatched-find name [] h = refl
unmatched-find name (k ∷ l) h =
    let other : (k.key_id == name) ≡ false =
      (not_true (k.key_id == name) (λ e. h.0 ((str_beq_iff k.key_id name).0 e))) in
    ground (arith, unmatched-find name l h.1)

module _ (adapter_mode_schema : AdapterMode → Bool)
    (definition_digest : ReleaseDefinition → Str) where
  -- After a state that has a key which is retired, with its tombstone, every accepted bundle of a
  -- later generation is past the retention of that tombstone and has no key of that id: until then
  -- there is none to accept.
  pub Step-IsPast :
      (name : Str) (key : KeyRecord) (tombstone : KeyTombstone) {s t : DurableState}
      → Step adapter_mode_schema definition_digest s t
      → map_get KeyRecord.key_id name s.keys ≡ some key
      → key.validity.lifecycle ≡ Lifecycle.retired
      → tombstone_of name s.key_tombstones ≡ some tombstone
      → (is_retained t.generation tombstone.retain_until_generation ≡ false)
        × All (λ (k : KeyRecord). k.key_id ≢ name) t.keys
  Step-IsPast name key tombstone {s} {t} (accept envelope digest prior next later h) was retired
        had =
      let p =
        Step-Passed adapter_mode_schema definition_digest envelope digest prior next later h in
      let retained = Retained-of_validate envelope prior p.tombstones in
      let same = Passed-AsIn adapter_mode_schema definition_digest envelope digest prior next p in
      let is_buried : is_tombstoned_key prior name ≡ true =
        (ground
          (arith, find-is_some (λ (t : KeyTombstone). t.key_id == name) prior.key_tombstones)) in
      let buried =
        Step-IsBuriedKey adapter_mode_schema definition_digest name
          (accept envelope digest prior next later h) is_buried in
      let gone = unmatched-find name envelope.keys (rw (sym same.2) buried.1) in
      let kept : any (λ (t : KeyTombstone). t.key_id == name) envelope.key_tombstones ≡ true =
        (rw (sym same.5) buried.0) in
      elim (Option-cases (tombstone_of name envelope.key_tombstones)) [
        | inl lost ↦
            ground
              (arith, find-is_some (λ (t : KeyTombstone). t.key_id == name) envelope.key_tombstones)
        | inr now ↦
            let found =
              All-find (λ t. validate_key_tombstone envelope prior t ≡ ok tt)
                (λ (t : KeyTombstone). t.key_id == name) envelope.key_tombstones now.0 retained.keys
                now.1 in
            let named = (str_beq_iff now.0.key_id name).0 found.1 in
            let past =
              gone-IsPast envelope prior now.0 tombstone key (rw named gone) (rw named was)
                (rw named had) retired found.0 in
            (rw same.0 past, buried.1)
      ]
