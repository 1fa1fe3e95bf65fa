-- ===== src/Core/Decision.antt =====
-- tools/marketplace-core/src/schemas.ts: eligibility decisions and their schema.
pub mod Refinement
use mandate_x.Base.{
  ℕ, Bool, true, false, not, ◌&&◌, List, [], ◌∷◌, map, Option, none, some, leb, eqb, length, any,
  Str, str_beq, str_eq, ◌==◌, if◌then◌else◌, Result, ok, err,
}
use mandate_x.Base.Sort.{sort_by}
use mandate_x.Base.Sets.{set_size}
use mandate_x.Core.Primitives.{unix_seconds_schema, compare_canonical_strings}
use mandate_x.Core.Texts.{canonical_identifier_schema, sha256_schema}
use mandate_x.Core.Errors.{CoreError, zod_error}
use mandate_x.Core.Findings.{Finding, key}
use mandate_x.Core.Findings
use mandate_x.Core.Quote.{MarketplaceCandidate}
use mandate_x.Core.QuoteSchema.{candidate_schema}
use mandate_x.Core.Ranking.{RankingScore, ranking_score_schema}

pub data EligibilityOutcome : Type 0 where
  eligible excluded inconclusive unsupported : EligibilityOutcome

abbrev pub outcome_beq : EligibilityOutcome → EligibilityOutcome → Bool
outcome_beq eligible eligible = true
outcome_beq excluded excluded = true
outcome_beq inconclusive inconclusive = true
outcome_beq unsupported unsupported = true
outcome_beq _ _ = false

pub record MarketplaceEligibilityDecision : Type 0 where
  pub mandate_id : Str
  pub evaluated_at : ℕ
  pub quote_id : Str
  pub candidate : MarketplaceCandidate
  pub quote_sha256 : Str
  pub outcome : EligibilityOutcome
  pub findings : List Finding
  pub score : Option RankingScore

-- `finding.kind === "exclusion"` and so on
abbrev pub is_exclusion : Finding → Bool
is_exclusion (Findings.exclusion _) = true
is_exclusion _ = false

abbrev pub is_inconclusive : Finding → Bool
is_inconclusive (Findings.inconclusive _) = true
is_inconclusive _ = false

abbrev pub is_unsupported : Finding → Bool
is_unsupported (Findings.unsupported _) = true
is_unsupported _ = false

abbrev pub same_texts : List Str → List Str → Bool
same_texts [] [] = true
same_texts (s ∷ ss) (t ∷ ts) = s == t && same_texts ss ts
same_texts _ _ = false

-- No key twice, and the keys in the order of a sort.
unfoldable pub findings_refinement : List Finding → Bool
findings_refinement findings =
    let keys = map key findings in
    eqb (set_size keys) (length keys) && same_texts keys (sort_by compare_canonical_strings keys)

unfoldable pub expected_outcome : List Finding → EligibilityOutcome
expected_outcome findings =
    if any is_exclusion findings
    then excluded
    else if any is_inconclusive findings
    then inconclusive
    else if any is_unsupported findings
    then unsupported
    else eligible

-- An eligible decision has a score and no finding; any other has findings and no score.
unfoldable pub score_refinement : EligibilityOutcome → List Finding → Option RankingScore → Bool
score_refinement eligible [] (some _) = true
score_refinement eligible _ _ = false
score_refinement _ (_ ∷ _) none = true
score_refinement _ _ _ = false

abbrev pub score_schema : Option RankingScore → Bool
score_schema none = true
score_schema (some s) = ranking_score_schema s

unfoldable pub decision_fields_schema : MarketplaceEligibilityDecision → Bool
decision_fields_schema d =
    canonical_identifier_schema d.mandate_id
    && unix_seconds_schema d.evaluated_at
    && canonical_identifier_schema d.quote_id
    && candidate_schema d.candidate
    && sha256_schema d.quote_sha256
    && leb (length d.findings) 64
    && score_schema d.score

unfoldable pub marketplace_eligibility_decision_schema : MarketplaceEligibilityDecision → Bool
marketplace_eligibility_decision_schema d =
    decision_fields_schema d
    && findings_refinement d.findings
    && outcome_beq d.outcome (expected_outcome d.findings)
    && score_refinement d.outcome d.findings d.score

-- `marketplaceEligibilityDecisionSchema.parse`
unfoldable pub parse_decision :
    MarketplaceEligibilityDecision → Result CoreError MarketplaceEligibilityDecision
parse_decision d = if marketplace_eligibility_decision_schema d then ok d else err zod_error
