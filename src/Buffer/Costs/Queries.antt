-- ===== src/Buffer/Costs/Queries.antt =====
-- What the queries of `AcquisitionCostTracker` (bin/vendor/src/buffer/cost_tracker.rs) answer.
use vendor.Base.{
  ℕ, ◌+◌, ◌*◌, ◌/◌, ◌<◌, ◌≡◌, ◌≢◌, refl, arith, some, returns, unwrap_or, nat_beq, false,
}
use vendor.Base.Map.{nat_eq, lookup-insert_other}
use vendor.Uint256.{Uint256}
use vendor.Amount.{IsAmount, scale, checked_add}
use vendor.Amount.Arith.{fits, checked_add_lem, checked_div_lem}
use vendor.Buffer.Costs.{
  AssetCost, OrderFill, AcquisitionCostTracker, new_tracker, reset, get_asset_cost, book_costs,
  cost_per_unit, summary, get_acquisition_cost_per_unit,
}

-- A cleared tracker is a new one.
reset_lem : (t : AcquisitionCostTracker) → reset t ≡ new_tracker
unfolding reset
reset_lem t = refl

module _ ⦃u : Uint256⦄ where
  -- The costs of an asset that has been traded are divided by the quantity of it that was traded,
  -- rounded down, as long as they fit an `Amount`; zero stands for a quotient that does not.
  cost_per_unit_lem :
      (c : AssetCost)
      → IsAmount (c.spread_cost + c.fees + c.slippage)
      → IsAmount c.quantity_traded
      → 0 < c.quantity_traded
      → cost_per_unit c
        ≡ returns
            (unwrap_or (fits ((c.spread_cost + c.fees + c.slippage) * scale / c.quantity_traded)) 0)
  unfolding cost_per_unit
  cost_per_unit_lem c fit q traded =
      let first : checked_add c.spread_cost c.fees ≡ some (c.spread_cost + c.fees) =
        ground (arith, checked_add_lem c.spread_cost c.fees (omega arith) (omega arith)) in
      let second : checked_add (c.spread_cost + c.fees) c.slippage
          ≡ some (c.spread_cost + c.fees + c.slippage) =
        ground (
          arith,
          checked_add_lem (c.spread_cost + c.fees) c.slippage (omega arith) (omega arith),
        ) in
      let counted : nat_beq c.quantity_traded 0 ≡ false = ground arith in
      rw
        (
          counted,
          first,
          second,
          checked_div_lem (c.spread_cost + c.fees + c.slippage) c.quantity_traded fit q,
          counted,
        )
        refl

  -- A fill leaves the costs of every other asset alone.
  book_costs-other :
      (fill : OrderFill) (slippage spread_cost j : ℕ) (t : AcquisitionCostTracker)
      → j ≢ fill.asset_id
      → get_asset_cost j (book_costs fill slippage spread_cost t) ≡ get_asset_cost j t
  unfolding get_asset_cost book_costs
  book_costs-other fill slippage spread_cost j t other =
      lookup-insert_other fill.asset_id j _ t.per_asset_costs other

  -- A new tracker reports zeros.
  summary-new :
      summary new_tracker
      ≡ returns (record {
        total_spread_cost = 0;
        total_fees = 0;
        total_slippage = 0;
        order_count = 0;
        cost_per_unit = 0;
      })
  unfolding summary get_acquisition_cost_per_unit
  summary-new = refl
