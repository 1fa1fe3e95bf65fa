-- ===== src/Core/Normalize.antt =====
-- tools/marketplace-core/src/normalize.ts
pub mod Total
use mandate_x.Base.{ℕ, Bool, true, false, eqb, if◌then◌else◌, Result, ok, err, Str}
use mandate_x.Core.Codes.{pricing_usd_unavailable}
use mandate_x.Core.Primitives.{MarketplaceCategory}
use mandate_x.Core.CategoryPolicy.{ReceiptAdapter, supported, category_policies}
use mandate_x.Core.Errors.{CoreError, zod_error}
use mandate_x.Core.Quote.{
  Price, Pricing, normalized_zero, usd_unavailable, QuoteNormalization, DisplaySafeQuoteProjection,
  MarketplaceQuote,
}
use mandate_x.Core.Quote
use mandate_x.Core.QuoteSchema.{marketplace_quote_schema}

unfoldable pub pricing_of : Price → Pricing
pricing_of price =
    if eqb price.amount_atomic 0
    then normalized_zero price.currency
    else usd_unavailable price.amount_atomic price.currency

-- By the adapter that `CATEGORY_POLICIES` has for the category.
unfoldable pub normalization_by : Price → ReceiptAdapter → QuoteNormalization
normalization_by price supported =
    if eqb price.amount_atomic 0
    then QuoteNormalization.normalized
    else QuoteNormalization.inconclusive pricing_usd_unavailable
normalization_by price (ReceiptAdapter.unsupported code) = QuoteNormalization.unsupported code

module _ (canonical_sha256 : DisplaySafeQuoteProjection → Str) where
  -- The value that is handed to `marketplaceQuoteSchema`.
  unfoldable pub quote_of : DisplaySafeQuoteProjection → MarketplaceQuote
  quote_of p = record {
    source_commitments = p.source_commitments;
    source_projection_sha256 = canonical_sha256 p;
    captured_at = p.captured_at;
    quote_id = p.quote_id;
    mandate_id = p.mandate_id;
    category = p.category;
    candidate = p.candidate;
    observed_at = p.observed_at;
    observed_block = p.observed_block;
    observed_block_hash = p.observed_block_hash;
    expires_at = p.expires_at;
    proposed_action = p.proposed_action;
    pricing = pricing_of p.price;
    estimates = p.estimates;
    permissions = p.permissions;
    verification = p.verification;
    preview = p.preview;
    reputation = p.reputation;
    category_evidence = p.category_evidence;
    normalization = normalization_by p.price (category_policies p.category);
  }

  unfoldable pub normalize_display_safe_quote_projection :
      DisplaySafeQuoteProjection → Result CoreError MarketplaceQuote
  normalize_display_safe_quote_projection p =
      if marketplace_quote_schema (quote_of p) then ok (quote_of p) else err zod_error
