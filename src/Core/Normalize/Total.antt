-- ===== src/Core/Normalize/Total.antt =====
-- A projection that passes its schema normalizes to a quote that passes its own.
use mandate_x.Base.{◌≡◌, refl, true, arith, ok, Str}
use mandate_x.Core.Primitives.{
  uint256_decimal_schema, MarketplaceCategory, rebalancing, grid, yield, health, category_eq,
}
use mandate_x.Core.Texts.{sha256_schema, address_schema}
use mandate_x.Core.CategoryPolicy.{category_policies}
use mandate_x.Core.Quote.{Price, DisplaySafeQuoteProjection}
use mandate_x.Core.QuoteSchema.{
  normalization_refinement, pricing_schema, quote_fields_schema, projection_fields_schema,
  quote_chronology, projection_chronology, marketplace_quote_schema,
  display_safe_quote_projection_schema,
}
use mandate_x.Core.Normalize.{
  pricing_of, normalization_by, quote_of, normalize_display_safe_quote_projection,
}

normalization_fits :
    (c : MarketplaceCategory) (price : Price)
    → normalization_refinement c (pricing_of price) (normalization_by price (category_policies c))
      ≡ true
unfolding normalization_refinement pricing_of normalization_by
normalization_fits rebalancing price = ground arith
normalization_fits grid price = refl
normalization_fits yield price = refl
normalization_fits health price = refl

pricing_fits :
    (price : Price)
    → uint256_decimal_schema price.amount_atomic ≡ true
    → address_schema price.currency ≡ true
    → pricing_schema (pricing_of price) ≡ true
unfolding pricing_schema pricing_of
pricing_fits price h k = ground arith

module _ (canonical_sha256 : DisplaySafeQuoteProjection → Str) (p : DisplaySafeQuoteProjection)
    (digest : sha256_schema (canonical_sha256 p) ≡ true)
    (h : display_safe_quote_projection_schema p ≡ true) where
  fields_fit : quote_fields_schema (quote_of canonical_sha256 p) ≡ true
  unfolding display_safe_quote_projection_schema quote_fields_schema projection_fields_schema
      quote_of
  fields_fit = ground (arith, digest, pricing_fits p.price)

  chronology_fits : quote_chronology (quote_of canonical_sha256 p) ≡ true
  unfolding display_safe_quote_projection_schema quote_chronology projection_chronology quote_of
  chronology_fits = ground arith

  pub schema_fits : marketplace_quote_schema (quote_of canonical_sha256 p) ≡ true
  unfolding display_safe_quote_projection_schema marketplace_quote_schema quote_of
  schema_fits = ground (arith, fields_fit, chronology_fits, normalization_fits p.category p.price)

  -- Where the projection passes its schema and its digest is a SHA-256 text, its normalization
  -- returns the quote that it builds: the quote schema does not refuse it.
  pub normalize_display_safe_quote_projection-eq-ok :
      normalize_display_safe_quote_projection canonical_sha256 p ≡ ok (quote_of canonical_sha256 p)
  unfolding normalize_display_safe_quote_projection
  normalize_display_safe_quote_projection-eq-ok = rw schema_fits
