-- ===== src/Processor.antt =====
-- bin/keeper/src/processor/types.rs: market data, and the payload of the older submission.
use vendor.Base.{ℕ, List, [], ◌∷◌, ◌++◌, Option, Bool, true, ◌&&◌, unwrap_or}
use vendor.Base.Map.{Map, nat_eq, lookup, insert, contains_key}
use vendor.Uint256.{Uint256}
use vendor.Amount.{checked_sub}

pub record AssetMarketData : Type 0 where
  pub asset_id : ℕ
  pub liquidity : ℕ
  pub price : ℕ
  pub slope : ℕ

pub record MarketDataSnapshot : Type 0 where
  pub assets : Map ℕ AssetMarketData
  pub timestamp : ℕ

unfoldable pub new_snapshot : ℕ → MarketDataSnapshot
new_snapshot now = record { assets = []; timestamp = now }

unfoldable pub add_asset : AssetMarketData → MarketDataSnapshot → MarketDataSnapshot
add_asset asset m = record m { assets = insert asset.asset_id asset m.assets }

unfoldable pub get_asset : ℕ → MarketDataSnapshot → Option AssetMarketData
get_asset asset_id m = lookup asset_id m.assets

unfoldable pub has_all_assets : List ℕ → MarketDataSnapshot → Bool
has_all_assets [] m = true
has_all_assets (id ∷ ids) m = contains_key id m.assets && has_all_assets ids m

pub record AssetAllocation : Type 0 where
  pub asset_id : ℕ
  pub quantity : ℕ
  pub target_value_usd : ℕ

pub record IndexBuyOrder : Type 0 where
  pub index_id : ℕ
  pub collateral_added : ℕ
  pub collateral_removed : ℕ
  pub max_order_size : ℕ
  pub asset_allocations : List AssetAllocation

module _ ⦃u : Uint256⦄ where
  unfoldable pub net_collateral_change : IndexBuyOrder → ℕ
  net_collateral_change o = unwrap_or (checked_sub o.collateral_added o.collateral_removed) 0

pub record SubmissionPayload : Type 0 where
  pub market_data : MarketDataSnapshot
  pub buy_orders : List IndexBuyOrder
  pub vendor_id : ℕ

unfoldable pub new_payload : ℕ → MarketDataSnapshot → SubmissionPayload
new_payload vendor_id market_data = record {
  market_data = market_data;
  buy_orders = [];
  vendor_id = vendor_id;
}

unfoldable pub add_buy_order : IndexBuyOrder → SubmissionPayload → SubmissionPayload
add_buy_order order p = record p { buy_orders = p.buy_orders ++ order ∷ [] }
