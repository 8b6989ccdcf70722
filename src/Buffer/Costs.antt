-- ===== src/Buffer/Costs.antt =====
-- `AcquisitionCostTracker` of bin/vendor/src/buffer/cost_tracker.rs. Each counter has a lock of
-- its own; a call of `record_fill` is one step here, as if no other call came between.
pub mod Ledger
pub mod Average
mod Queries
mod Tests
use Prim.Native.String.{String}
use vendor.Base.{
  ℕ, ◌+◌, ◌*◌, ◌%◌, List, [], ◌∷◌, Option, none, some, Bool, ltb, nat_beq, if◌then◌else◌, unwrap_or,
  and_then, Outcome, returns, panics, ◌>>=◌,
}
use vendor.Base.Map.{Map, nat_eq, lookup, insert}
use vendor.Uint256.{Uint256, u64_mod}
use vendor.Amount.{checked_add, checked_sub, checked_mul, checked_div}

pub record AssetCost : Type 0 where
  pub spread_cost : ℕ
  pub fees : ℕ
  pub slippage : ℕ
  pub quantity_traded : ℕ
  pub fill_count : ℕ

-- `AssetCost::default`
abbrev pub no_cost : AssetCost
no_cost = record { spread_cost = 0; fees = 0; slippage = 0; quantity_traded = 0; fill_count = 0 }

pub record OrderFill : Type 0 where
  pub asset_id : ℕ
  pub symbol : String
  pub avg_fill_price : ℕ
  pub quantity : ℕ
  pub fee : ℕ
  pub fee_currency : String

pub record OrderBookSnapshot : Type 0 where
  pub best_bid : ℕ
  pub best_ask : ℕ

pub record AcquisitionCostTracker : Type 0 where
  pub total_spread_cost : ℕ
  pub total_fees : ℕ
  pub total_slippage : ℕ
  pub order_count : ℕ
  pub per_asset_costs : Map ℕ AssetCost

-- `AcquisitionCostTracker::new`
abbrev pub new_tracker : AcquisitionCostTracker
new_tracker = record {
  total_spread_cost = 0;
  total_fees = 0;
  total_slippage = 0;
  order_count = 0;
  per_asset_costs = [];
}

pub reset : AcquisitionCostTracker → AcquisitionCostTracker
reset t = record t {
  total_spread_cost = 0;
  total_fees = 0;
  total_slippage = 0;
  order_count = 0;
  per_asset_costs = [];
}

pub get_per_asset_costs : AcquisitionCostTracker → Map ℕ AssetCost
get_per_asset_costs t = t.per_asset_costs

pub get_asset_cost : ℕ → AcquisitionCostTracker → Option AssetCost
get_asset_cost asset_id t = lookup asset_id t.per_asset_costs

pub record CostSummary : Type 0 where
  pub total_spread_cost : ℕ
  pub total_fees : ℕ
  pub total_slippage : ℕ
  pub order_count : ℕ
  pub cost_per_unit : ℕ

-- Two units, as an amount.
abbrev pub two_units : ℕ
two_units = 2000000000000000000

-- `and_then` with an operation that may panic, and `unwrap_or(Amount::ZERO)`.
abbrev pub and_then_run : Option ℕ → (ℕ → Outcome (Option ℕ)) → Outcome (Option ℕ)
and_then_run none f = returns none
and_then_run (some a) f = f a

abbrev pub or_zero : Outcome (Option ℕ) → Outcome ℕ
or_zero panics = panics
or_zero (returns o) = returns (unwrap_or o 0)

-- `checked_add(amount).unwrap_or(total)`
module _ ⦃u : Uint256⦄ where
  pub add_or_keep : ℕ → ℕ → ℕ
  add_or_keep total amount = unwrap_or (checked_add total amount) total

  pub mid_price : OrderBookSnapshot → Outcome ℕ
  mid_price book =
      or_zero
        (and_then_run (checked_add book.best_bid book.best_ask) (λ sum. checked_div sum two_units))

  pub spread : OrderBookSnapshot → ℕ
  spread book = unwrap_or (checked_sub book.best_ask book.best_bid) 0

  pub half_spread : OrderBookSnapshot → Outcome ℕ
  unfolding spread
  half_spread book = or_zero (checked_div (spread book) two_units)

  pub slippage_of : ℕ → OrderFill → Outcome ℕ
  slippage_of mid fill =
      if ltb mid fill.avg_fill_price
      then or_zero (
          and_then_run (checked_sub fill.avg_fill_price mid)
            (λ diff. checked_mul diff fill.quantity))
      else or_zero (
          and_then_run (checked_sub mid fill.avg_fill_price)
            (λ diff. checked_mul diff fill.quantity))

  -- The updates of the totals and of the entry of the asset.
  pub book_costs : OrderFill → ℕ → ℕ → AcquisitionCostTracker → AcquisitionCostTracker
  unfolding add_or_keep
  book_costs fill slippage spread_cost t =
      let cost = unwrap_or (lookup fill.asset_id t.per_asset_costs) no_cost in
      let cost' : AssetCost = record {
        spread_cost = add_or_keep cost.spread_cost spread_cost;
        fees = add_or_keep cost.fees fill.fee;
        slippage = add_or_keep cost.slippage slippage;
        quantity_traded = add_or_keep cost.quantity_traded fill.quantity;
        fill_count = (cost.fill_count + 1) % u64_mod;
      } in
      record {
        total_spread_cost = add_or_keep t.total_spread_cost spread_cost;
        total_fees = add_or_keep t.total_fees fill.fee;
        total_slippage = add_or_keep t.total_slippage slippage;
        order_count = (t.order_count + 1) % u64_mod;
        per_asset_costs = insert fill.asset_id cost' t.per_asset_costs;
      }

  pub record_fill :
      OrderFill → OrderBookSnapshot → AcquisitionCostTracker → Outcome AcquisitionCostTracker
  unfolding mid_price half_spread slippage_of
  record_fill fill book t = do
    mid ← mid_price book
    half ← half_spread book
    slippage ← slippage_of mid fill
    spread_cost ← or_zero (checked_mul half fill.quantity)
    returns (book_costs fill slippage spread_cost t)

  pub get_acquisition_cost_per_unit : AcquisitionCostTracker → Outcome ℕ
  get_acquisition_cost_per_unit t =
      if nat_beq t.order_count 0
      then returns 0
      else or_zero (
          checked_div
            (unwrap_or
              (and_then (checked_add t.total_spread_cost t.total_fees)
                (λ v. checked_add v t.total_slippage))
              0)
            (t.order_count * 1000000000000000000))

  -- `AssetCost::cost_per_unit`
  pub cost_per_unit : AssetCost → Outcome ℕ
  cost_per_unit c =
      if nat_beq c.quantity_traded 0
      then returns 0
      else or_zero (
          checked_div
            (unwrap_or (and_then (checked_add c.spread_cost c.fees) (λ v. checked_add v c.slippage))
              0)
            c.quantity_traded)

  pub summary : AcquisitionCostTracker → Outcome CostSummary
  unfolding get_acquisition_cost_per_unit
  summary t = do
    per_unit ← get_acquisition_cost_per_unit t
    returns (record {
      total_spread_cost = t.total_spread_cost;
      total_fees = t.total_fees;
      total_slippage = t.total_slippage;
      order_count = t.order_count;
      cost_per_unit = per_unit;
    })
