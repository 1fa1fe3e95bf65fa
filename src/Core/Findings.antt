-- ===== src/Core/Findings.antt =====
-- tools/marketplace-core/src/codes.ts: findings, and the list of findings of a decision. A finding's
-- message is that of its code (`Codes`, `Messages`), so a finding is its kind and its code.
pub mod Keys
pub mod Order
use mandate_x.Base.{
  Ordering, Bool, true, false, String, List, [], ◌∷◌, ◌++◌, if◌then◌else◌, Str, codes, ◌==◌, str_eq,
}
use mandate_x.Base.Sort.{sort_by}
use mandate_x.Core.Codes.{
  ExclusionCode, InconclusiveCode, UnsupportedCode, exclusion_name, inconclusive_name,
  unsupported_name,
}
use mandate_x.Core.Messages.{exclusion_message, inconclusive_message, unsupported_message}
use mandate_x.Core.Primitives.{compare_canonical_strings}

pub data Finding : Type 0 where
  exclusion : ExclusionCode → Finding
  inconclusive : InconclusiveCode → Finding
  unsupported : UnsupportedCode → Finding

unfoldable pub message : Finding → String
message (exclusion c) = exclusion_message c
message (inconclusive c) = inconclusive_message c
message (unsupported c) = unsupported_message c

-- `${finding.kind}:${finding.code}`
unfoldable pub key : Finding → Str
unfolding exclusion_name inconclusive_name unsupported_name
key (exclusion c) = codes "exclusion:" ++ codes (exclusion_name c)
key (inconclusive c) = codes "inconclusive:" ++ codes (inconclusive_name c)
key (unsupported c) = codes "unsupported:" ++ codes (unsupported_name c)

-- `unique.set(key, finding)`: a key that is there keeps its place.
unfoldable pub put : Finding → List Finding → List Finding
put f [] = f ∷ []
put f (g ∷ gs) = if key g == key f then f ∷ gs else g ∷ put f gs

-- The loop of `sortFindings` over the map that it fills.
unfoldable pub unique_from : List Finding → List Finding → List Finding
unfolding put
unique_from unique [] = unique
unique_from unique (f ∷ fs) = unique_from (put f unique) fs

abbrev pub compare_findings : Finding → Finding → Ordering
compare_findings left right = compare_canonical_strings (key left) (key right)

unfoldable pub sort_findings : List Finding → List Finding
unfolding unique_from
sort_findings findings = sort_by compare_findings (unique_from [] findings)
