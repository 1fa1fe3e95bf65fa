-- ===== src/Core/CategoryPolicy.antt =====
-- tools/marketplace-core/src/category-policy.ts: the closed table from category to receipt adapter.
use mandate_x.Core.Primitives.{MarketplaceCategory, rebalancing, grid, yield, health}
use mandate_x.Core.Codes.{
  UnsupportedCode, category_grid_unsupported, category_yield_unsupported,
  category_health_unsupported,
}

-- A supported adapter is the one of rebalancing; the table has no other.
pub data ReceiptAdapter : Type 0 where
  supported : ReceiptAdapter
  unsupported : UnsupportedCode → ReceiptAdapter

-- The support of a row of `categoryPolicies` is that of its adapter.
unfoldable pub category_policies : MarketplaceCategory → ReceiptAdapter
category_policies rebalancing = supported
category_policies grid = unsupported category_grid_unsupported
category_policies yield = unsupported category_yield_unsupported
category_policies health = unsupported category_health_unsupported
