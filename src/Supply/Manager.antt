-- ===== src/Supply/Manager.antt =====
-- The deltas of `SupplyManager` in bin/vendor/src/supply/manager.rs, and the submission data.
pub mod Deltas
pub mod Assets
mod Tests
use Prim.Native.String.{String}
use vendor.Base.{
  ℕ, List, [], ◌∷◌, Option, none, some, Bool, true, false, ltb, leb, nat_beq, if◌then◌else◌,
  unwrap_or, and_then, map_option,
}
use vendor.Base.Map.{Map, string_eq, lookup, insert}
use vendor.Uint256.{Uint256}
use vendor.Amount.{checked_add, checked_sub}
use vendor.Supply.Asset.{AssetSupply, has_position}
use vendor.Supply.State.{SupplyState}

-- A delta: whether it is long, and its size.
abbrev pub SideDelta : Type 0
SideDelta = Bool × ℕ

-- The running maximum of `calculate_max_delta`.
pub record Largest : Type 0 where
  pub delta : ℕ
  pub symbol : String
  pub is_long : Bool

module _ ⦃u : Uint256⦄ where
  pub delta_of : AssetSupply → ℕ → ℕ → SideDelta
  delta_of supply demand_long demand_short =
      let left_side = unwrap_or (checked_add supply.supply_long demand_short) supply.supply_long in
      let right_side =
        unwrap_or (checked_add supply.supply_short demand_long) supply.supply_short in
      if leb right_side left_side
      then (true, unwrap_or (checked_sub left_side right_side) 0)
      else (false, unwrap_or (checked_sub right_side left_side) 0)

  pub calculate_delta : String → ℕ → ℕ → SupplyState → Option SideDelta
  unfolding delta_of
  calculate_delta symbol demand_long demand_short st =
      map_option (λ s. delta_of s demand_long demand_short) (lookup symbol st.supplies)

  -- The demand of a symbol is zero where the map has none.
  pub demand_delta : Map String ℕ → Map String ℕ → SupplyState → String → Option SideDelta
  demand_delta longs shorts st symbol =
      calculate_delta symbol (unwrap_or (lookup symbol longs) 0)
        (unwrap_or (lookup symbol shorts) 0) st

  pub larger : String → Option SideDelta → Largest → Largest
  larger symbol none best = best
  larger symbol (some (is_long, delta)) best =
      if ltb best.delta delta
      then record { delta = delta; symbol = symbol; is_long = is_long }
      else best

  -- The loop runs over the keys of `supplies`.
  pub max_loop :
      Map String ℕ → Map String ℕ → SupplyState → Map String AssetSupply → Largest → Largest
  unfolding larger
  max_loop longs shorts st [] best = best
  max_loop longs shorts st ((symbol, _) ∷ rest) best =
      max_loop longs shorts st rest (larger symbol (demand_delta longs shorts st symbol) best)

  pub calculate_max_delta : Map String ℕ → Map String ℕ → SupplyState → Option (String × Bool × ℕ)
  unfolding max_loop
  calculate_max_delta longs shorts st =
      let best =
        max_loop longs shorts st st.supplies (record { delta = 0; symbol = ""; is_long = true }) in
      if nat_beq best.delta 0 then none else some (best.symbol, best.is_long, best.delta)

-- Ids, short and long amounts of the assets with an executed position.
pub submission_loop : List (String × AssetSupply) → List ℕ × List ℕ × List ℕ
submission_loop [] = ([], [], [])
submission_loop ((_, s) ∷ rest) =
    let (ids, shorts, longs) = submission_loop rest in
    if has_position s
    then (s.asset_id ∷ ids, s.supply_short ∷ shorts, s.supply_long ∷ longs)
    else (ids, shorts, longs)

pub get_submission_data : SupplyState → List ℕ × List ℕ × List ℕ
unfolding submission_loop
get_submission_data st = submission_loop st.supplies
