-- ===== src/Buffer/Costs/Tests.antt =====
-- A fill a tenth above the middle of the book.
use vendor.Base.{◌+◌, ◌≡◌, refl, [], ◌∷◌, arith, returns, some, nat_beq, if◌then◌else◌}
use vendor.Base.Map.{nat_eq, lookup}
use vendor.Uint256.{reference}
use vendor.Buffer.Costs.{
  AssetCost, OrderFill, OrderBookSnapshot, AcquisitionCostTracker, record_fill,
}
use vendor.Buffer.Costs.Ledger.{Sums, IsCharged, spread_charge, slippage_charge, record_fill-Sums}

abbrev fill : OrderFill
fill = record {
  asset_id = 7;
  symbol = "BTC";
  avg_fill_price = 101100000000000000000;
  quantity = 2000000000000000000;
  fee = 5000000000000000;
  fee_currency = "USDC";
}

abbrev book : OrderBookSnapshot
book = record { best_bid = 100000000000000000000; best_ask = 102000000000000000000 }

-- One fill of another asset has been recorded.
abbrev tracker : AcquisitionCostTracker
tracker = record {
  total_spread_cost = 3;
  total_fees = 4;
  total_slippage = 5;
  order_count = 1;
  per_asset_costs =
      (9, record { spread_cost = 3; fees = 4; slippage = 5; quantity_traded = 6; fill_count = 1 })
      ∷ [];
}

tracker-Sums : Sums tracker
tracker-Sums = record { spreads = refl; fees = refl; slippages = refl; fills = refl }

charges :
    (spread_charge fill book ≡ 2000000000000000000)
    × (slippage_charge fill book ≡ 200000000000000000)
charges = (refl, refl)

record_fill-Sums_example :
    (t' : AcquisitionCostTracker) × (record_fill fill book tracker ≡ returns t')
    × Sums t'
    × (t'.total_spread_cost ≡ tracker.total_spread_cost + spread_charge fill book)
    × (t'.total_fees ≡ tracker.total_fees + fill.fee)
    × (t'.total_slippage ≡ tracker.total_slippage + slippage_charge fill book)
    × (c : AssetCost) × IsCharged fill book tracker.per_asset_costs c
    × (lookup 9 t'.per_asset_costs
        ≡ (if nat_beq fill.asset_id 9 then some c else lookup 9 tracker.per_asset_costs))
record_fill-Sums_example =
    record_fill-Sums fill book tracker 9
      (omega arith, omega arith, omega arith, omega arith, omega arith) tracker-Sums (omega arith)
      (omega arith) (omega arith) (omega arith)
