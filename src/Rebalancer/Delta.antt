-- ===== src/Rebalancer/Delta.antt =====
-- `Delta` of bin/vendor/src/delta_rebalancer/types.rs and `DeltaCalculator` of
-- delta_calculator.rs. A `VendorDemand` is its map from asset ids to quantities.
pub mod Cases
mod Tests
use vendor.Base.{
  ℕ, List, [], ◌∷◌, ◌++◌, Bool, true, false, ◌&&◌, ltb, nat_beq, if◌then◌else◌, unwrap_or, map,
  Outcome, returns, panics, ◌>>=◌, unwrap,
}
use vendor.Base.Map.{Map, nat_eq, insert}
use vendor.Uint256.{Uint256}
use vendor.Amount.{checked_sub}
use vendor.Supply.State.{SupplyState, get_long_quantity, get_short_quantity}

pub record Delta : Type 0 where
  pub long_positions : Map ℕ ℕ
  pub short_positions : Map ℕ ℕ

-- `Delta::new`
abbrev pub no_delta : Delta
no_delta = record { long_positions = []; short_positions = [] }

pub has_no_entries : Map ℕ ℕ → Bool
has_no_entries [] = true
has_no_entries (_ ∷ _) = false

-- `Delta::is_empty`
pub is_balanced : Delta → Bool
unfolding has_no_entries
is_balanced d = has_no_entries d.long_positions && has_no_entries d.short_positions

module _ ⦃u : Uint256⦄ where
  -- The net supply that the calculator compares with.
  pub net_supply : ℕ → SupplyState → ℕ
  net_supply asset_id supply =
      unwrap_or
        (checked_sub (get_long_quantity asset_id supply) (get_short_quantity asset_id supply)) 0

  -- The body of the loop.
  pub add_asset : ℕ → ℕ → SupplyState → Delta → Outcome Delta
  add_asset asset_id demand_qty supply delta =
      let net = net_supply asset_id supply in
      if ltb net demand_qty
      then unwrap (checked_sub demand_qty net) >>= (λ diff.
        returns (record delta { long_positions = insert asset_id diff delta.long_positions }))
      else if ltb demand_qty net
      then unwrap (checked_sub net demand_qty) >>= (λ diff.
        returns (record delta { short_positions = insert asset_id diff delta.short_positions }))
      else returns delta

  pub delta_loop : SupplyState → Map ℕ ℕ → Delta → Outcome Delta
  unfolding add_asset
  delta_loop supply [] delta = returns delta
  delta_loop supply ((asset_id, demand_qty) ∷ rest) delta = do
    delta' ← add_asset asset_id demand_qty supply delta
    delta_loop supply rest delta'

  -- `DeltaCalculator::calculate_delta`
  pub rebalance_delta : Map ℕ ℕ → SupplyState → Outcome Delta
  rebalance_delta demand supply = delta_loop supply demand no_delta
