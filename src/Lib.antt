-- ===== src/Lib.antt =====
-- MandateX Marketplace Core (tools/marketplace-core): which quotes of agents a mandate permits, how
-- the permitted ones are ranked, and the receipt that commits to the outcome.
--
-- The parts, with files of tools/marketplace-core/src:
--   * primitives.ts, codes.ts, errors.ts: values, texts, codes and findings. Core/Primitives,
--     Core/Texts, Core/Codes, Core/Messages, Core/Findings, Core/Errors.
--   * category-policy.ts: the table from a category to its adapter. Core/CategoryPolicy.
--   * schemas.ts: Core/Mandate, Core/Quote (the data), Core/QuoteSchema, Core/Decision,
--     Core/Receipt (the data) and Core/Receipt/Schema. A schema is a test into Bool: it describes the
--     values that are accepted and left as they are, of the types that are modelled.
--   * normalize.ts: a projection becomes a quote. Core/Normalize.
--   * ranking.ts: the score of a quote. Core/Ranking.
--   * evaluate.ts: Core/Rebalancing (`rebalancingFindings`), Core/Decide (`decide`), Core/Candidates
--     (the candidate set and the time), Core/Receipt (`buildReceipt`), Core/Evaluate
--     (`evaluateMarketplace`), with `readCoreClock` of capture.ts.
-- An evaluation parses the mandate, reads the clock, checks the candidates, normalizes and sorts
-- them, decides on each quote and builds a receipt from the decisions. Code that throws returns a
-- `Result`; a value that is pushed on the list of findings is an element of a list that is returned.
-- Core/Rebalancing/Spec says what a mandate asks of a quote without reference to findings.
-- The category adapters (tools/category-adapters/src), the files of Adapters: Adapters has the result and the
-- reader (result.ts, reader.ts), Abi decodes return data (abi.ts; Abi/Bounds on the range of a word), Evidence
-- has the documents and their schemas (evidence.ts, primitives.ts), and Grid, Yield, Health and VenusHealth are
-- evaluateGrid, evaluateYield, evaluateHealth and evaluateVenusHealth, each with its schema of policy.ts. The
-- reader at a pinned block is an argument, a function from a label, an address and call data to an answer or
-- none; a `parse` that throws is an `err`. Amounts, decimal texts in the source, are natural numbers. The
-- Verdict module below each of the four says what a verdict means without reference to the code's branches.
--
-- The rebalancing agent (agents/mandaterebalance/app/agent/src/rebalance.ts): Agent/Proposal has the
-- trigger and the range of `buildProposal`, after its checks of limits and permissions; its result is
-- part of the evidence that Marketplace Core decides on (Agent/Accepted),
-- and Agent/Complete is about when there is one.
-- Trust bundles (trust-bundle.ts): Trust has the data, Trust/Schema the schemas, Trust/Verify
-- `verifyMarketplaceTrustBundle` after the decoding of the wire (Envelope, Records, Revocation and Tuples are its
-- checks), Trust/Transition `validateDurableTransition` with a child per function that it calls, Trust/Resolve
-- `resolveMarketplaceTrustBundleAttestationTuple`. A verified bundle gives the tuples that may sign, and the durable
-- state that the next bundle has to follow. Trust/Permanence takes the transition as a step between states and
-- follows any number of them; Trust/Issuance goes from a verified bundle to the resolution of its tuples.
-- Core/Consistency is `verifyMarketplaceEvaluationConsistency`.
-- Base holds numbers, texts, sorts and sets that all parts share; Core/Examples and Trust/Examples the tests.
--
-- Choices:
--   * token ids and amounts, canonical decimal texts in the source, are natural numbers, and
--     `chainId:tokenId` is the pair of the two numbers; ticks are integers;
--   * strings are lists of UTF-16 code units, compared unit by unit;
--   * a difference of times stops at 0, where the source goes below: an age below 0 is never above a
--     limit, and `ageScore` clamps it, so no test tells the two apart;
--   * sums of a time and a skew are exact, where the source rounds above 2^53;
--   * all loops go over lists: there is no fuel.
--
-- Not modelled: `canonicalSha256` is a parameter (`Digests`), of which only the shape of its result is
-- used where a theorem says so, and so are the canonical texts that the consistency check compares;
-- the signature, the keys, the digests and the wire format of a trust bundle (`Platform`, and the outcome
-- of decoding as an argument); attestations and the v2 evaluation; capture by an ingress; inputs that are not of the modelled types; `deepFreeze`.
-- Of the agent all but that range, and the services and applications of the repository, are not
-- modelled.
pub mod Base
pub mod Core
pub mod Agent
pub mod Trust
pub mod Adapters
