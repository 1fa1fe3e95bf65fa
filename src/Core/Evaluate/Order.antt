-- ===== src/Core/Evaluate/Order.antt =====
-- The order in which the candidates come in does not matter.
use mandate_x.Base.{
  ℕ, ◌≡◌, ◌≢◌, refl, ap, sym, subst, true, false, List, [], ◌∷◌, map, All, Ordering, ◌==◌, arith,
  str_eq,
}
use mathlib.Core.List.{Permᴰ}
use mandate_x.Base.Sort.{AreDistinct, All-Permᴰ, sort_by-Permᴰ}
use mandate_x.Base.Sets.{AreUnequal}
use mandate_x.Core.Primitives.{compare_candidate_keys}
use mandate_x.Core.Mandate.{MarketplaceMandate}
use mandate_x.Core.Quote.{MarketplaceQuote, DisplaySafeQuoteProjection}
use mandate_x.Core.Normalize.{quote_of}
use mandate_x.Core.QuoteSchema.{display_safe_quote_projection_schema}
use mandate_x.Core.Candidates.{
  CandidateReference, candidate_id_eq, compare_quotes, compare_quotes-IsComparator,
}
use mandate_x.Core.Receipt.{Digests}
use mandate_x.Core.Receipt.Total.{IsSha256}
use mandate_x.Core.Receipt.Built.{quote_key}
use mandate_x.Core.Evaluate.{projection_key, evaluate_projections}
use mandate_x.Core.Evaluate.Quotes.{normalized-All, keys_of_quotes}

compare_quotes_key :
    (a b : MarketplaceQuote)
    → compare_quotes a b ≡ Ordering.eq
    → (a.candidate.id == b.candidate.id) ≡ true
unfolding compare_quotes compare_candidate_keys
compare_quotes_key a b h = ground arith

distinct_heads :
    (q : MarketplaceQuote) (qs : List MarketplaceQuote)
    → All (λ c. (q.candidate.id == c) ≡ false) (map CandidateReference.candidate (map quote_key qs))
    → All (λ r. compare_quotes q r ≢ Ordering.eq) qs
distinct_heads q [] h = tt
distinct_heads q (r ∷ rs) h = (ground (arith, compare_quotes_key q r), distinct_heads q rs h.1)

distinct_quotes :
    (qs : List MarketplaceQuote)
    → AreUnequal (map CandidateReference.candidate (map quote_key qs))
    → AreDistinct compare_quotes qs
distinct_quotes [] h = tt
distinct_quotes (q ∷ qs) h = (distinct_heads q qs h.0, distinct_quotes qs h.1)

map-Permᴰ {ℓ κ} :
    {A : Type ℓ} {B : Type κ} (f : A → B) {l r : List A} → Permᴰ l r → Permᴰ (map f l) (map f r)
map-Permᴰ f Permᴰ.nil = Permᴰ.nil
map-Permᴰ f (Permᴰ.cons e d) = Permᴰ.cons (ap f e) (map-Permᴰ f d)
map-Permᴰ f (Permᴰ.swap e g) = Permᴰ.swap (ap f e) (ap f g)
map-Permᴰ f (Permᴰ.trans d e) = Permᴰ.trans (map-Permᴰ f d) (map-Permᴰ f e)

module _ (digests : Digests) (sha256 : IsSha256 digests) (m : MarketplaceMandate) (t : ℕ) where
  -- Where every digest is a SHA-256 text, the projections pass their schema and no two are of one
  -- candidate, a permutation of them gives the same evaluation: quotes, decisions and receipt.
  pub evaluate_projections-Permᴰ :
      (ps others : List DisplaySafeQuoteProjection)
      → Permᴰ ps others
      → All (λ p. display_safe_quote_projection_schema p ≡ true) ps
      → AreUnequal (map CandidateReference.candidate (map projection_key ps))
      → evaluate_projections digests m t ps ≡ evaluate_projections digests m t others
  unfolding evaluate_projections
  evaluate_projections-Permᴰ ps others d valid unequal =
      let f = quote_of digests.of_projection in
      let distinct = distinct_quotes (map f ps) (
        subst (λ ks. AreUnequal (map CandidateReference.candidate ks))
          (sym (keys_of_quotes digests sha256 ps)) unequal) in
      rw
        (
          normalized-All digests sha256 ps valid,
          normalized-All digests sha256 others
              (All-Permᴰ (λ p. display_safe_quote_projection_schema p ≡ true) d valid),
          sort_by-Permᴰ compare_quotes compare_quotes-IsComparator (map-Permᴰ f d) distinct,
        )
        refl
