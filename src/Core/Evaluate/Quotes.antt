-- ===== src/Core/Evaluate/Quotes.antt =====
-- The quotes that the projections of an evaluation become.
use mandate_x.Base.{◌≡◌, refl, ap₂, true, List, [], ◌∷◌, map, All, str_eq, ok, traverse}
use mandate_x.Core.Quote.{DisplaySafeQuoteProjection}
use mandate_x.Core.QuoteSchema.{marketplace_quote_schema, display_safe_quote_projection_schema}
use mandate_x.Core.Normalize.{quote_of, normalize_display_safe_quote_projection}
use mandate_x.Core.Normalize.Total.{schema_fits, normalize_display_safe_quote_projection-eq-ok}
use mandate_x.Core.Candidates.{candidate_id_eq}
use mandate_x.Core.Receipt.{Digests}
use mandate_x.Core.Receipt.Total.{IsSha256}
use mandate_x.Core.Receipt.Built.{quote_key}
use mandate_x.Core.Evaluate.{projection_key}

module _ (digests : Digests) (sha256 : IsSha256 digests) where
  pub valid-All :
      (ps : List DisplaySafeQuoteProjection)
      → All (λ p. display_safe_quote_projection_schema p ≡ true) ps
      → All (λ q. marketplace_quote_schema q ≡ true) (map (quote_of digests.of_projection) ps)
  valid-All [] h = tt
  valid-All (p ∷ ps) h =
      (schema_fits digests.of_projection p (sha256.of_projection p) h.0, valid-All ps h.1)

  key_of_quote :
      (p : DisplaySafeQuoteProjection)
      → quote_key (quote_of digests.of_projection p) ≡ projection_key p
  unfolding quote_of
  key_of_quote p = refl

  pub keys_of_quotes :
      (ps : List DisplaySafeQuoteProjection)
      → map quote_key (map (quote_of digests.of_projection) ps) ≡ map projection_key ps
  keys_of_quotes [] = refl
  keys_of_quotes (p ∷ ps) = ap₂ ◌∷◌ (key_of_quote p) (keys_of_quotes ps)

  pub normalized-All :
      (ps : List DisplaySafeQuoteProjection)
      → All (λ p. display_safe_quote_projection_schema p ≡ true) ps
      → traverse (normalize_display_safe_quote_projection digests.of_projection) ps
        ≡ ok (map (quote_of digests.of_projection) ps)
  normalized-All [] h = refl
  normalized-All (p ∷ ps) h =
      rw
        (
          normalize_display_safe_quote_projection-eq-ok digests.of_projection p
              (sha256.of_projection p) h.0,
          normalized-All ps h.1,
        )
        refl
