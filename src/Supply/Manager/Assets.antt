-- ===== src/Supply/Manager/Assets.antt =====
-- The rest of `SupplyManager` (bin/vendor/src/supply/manager.rs): its assets, its positions and the
-- deltas of all assets. Of the `AssetMapper` of bin/vendor/src/onchain/asset_mapper.rs it asks
-- `get_id` only. An error is a value in place of its message.
mod Registered
mod Tests
use Prim.Native.String.{String}
use vendor.Base.{ℕ, List, [], ◌∷◌, Option, none, some, Bool, Result, ok, err, filter, map}
use vendor.Base.Map.{Map, string_eq, lookup, insert}
use vendor.Uint256.{Uint256}
use vendor.Supply.Asset.{AssetSupply, SupplyError, has_position}
use vendor.Supply.State.{
  SupplyState, init_asset, record_buy as buy, record_sell as sell, add_long_by_id, add_short_by_id,
}
use vendor.Supply.Manager.{SideDelta, demand_delta}

pub record AssetMapper : Type 0 where
  pub symbol_to_id : Map String ℕ
  pub id_to_symbol : Map ℕ String
  pub prefer_usdc : Bool

pub get_id : String → AssetMapper → Option ℕ
get_id symbol mapper = lookup symbol mapper.symbol_to_id

pub record SupplyManager : Type 0 where
  pub state : SupplyState
  pub asset_mapper : AssetMapper

pub data ManagerError : Type 0 where
  not_in_mapper : String → ManagerError
  failed_buy : String → SupplyError → ManagerError
  failed_sell : String → SupplyError → ManagerError
  failed_long : SupplyError → ManagerError
  failed_short : SupplyError → ManagerError

abbrev pub Managed : Type 0
Managed = Result (Unit {0}) ManagerError × SupplyManager

-- `clock` gives the time at which an asset is created, if it is.
pub initialize : (String → ℕ) → List String → SupplyManager → Managed
unfolding get_id
initialize clock [] m = (ok tt, m)
initialize clock (symbol ∷ symbols) m = elim (get_id symbol m.asset_mapper) [
  | none ↦ (err (not_in_mapper symbol), m)
  | some asset_id ↦
      initialize clock symbols
        (record m { state = init_asset (clock symbol) symbol asset_id m.state })
]

-- `init_asset_by_id`
pub init_asset_by_id : ℕ → ℕ → String → SupplyManager → SupplyManager
init_asset_by_id now asset_id symbol m = record m { state = init_asset now symbol asset_id m.state }

-- `map_err` on the result of a call of the state.
abbrev pub map_err :
    (SupplyError → ManagerError)
    → SupplyManager
    → Result (Unit {0}) SupplyError × SupplyState
    → Managed
map_err f m (ok a, st) = (ok a, record m { state = st })
map_err f m (err e, st) = (err (f e), record m { state = st })

-- `get_assets_with_positions`, in the order in which the map is walked.
pub get_assets_with_positions : SupplyManager → List String
get_assets_with_positions m =
    map (λ e. e.1.symbol) (filter (λ e. has_position e.1) m.state.supplies)

module _ ⦃u : Uint256⦄ where
  pub record_buy : ℕ → String → ℕ → SupplyManager → Managed
  record_buy now symbol quantity m = map_err (failed_buy symbol) m (buy now symbol quantity m.state)

  pub record_sell : ℕ → String → ℕ → SupplyManager → Managed
  record_sell now symbol quantity m =
      map_err (failed_sell symbol) m (sell now symbol quantity m.state)

  pub add_long : ℕ → ℕ → ℕ → SupplyManager → Managed
  add_long now asset_id qty m = map_err failed_long m (add_long_by_id now asset_id qty m.state)

  pub add_short : ℕ → ℕ → ℕ → SupplyManager → Managed
  add_short now asset_id qty m = map_err failed_short m (add_short_by_id now asset_id qty m.state)

  -- The loop runs over the keys of `supplies`.
  pub deltas_loop :
      Map String ℕ
      → Map String ℕ
      → SupplyState
      → Map String AssetSupply
      → Map String SideDelta
      → Map String SideDelta
  deltas_loop longs shorts st [] deltas = deltas
  deltas_loop longs shorts st ((symbol, _) ∷ rest) deltas =
      deltas_loop longs shorts st rest (elim (demand_delta longs shorts st symbol) [
        | none ↦ deltas
        | some delta ↦ insert symbol delta deltas
      ])

  pub get_all_deltas : Map String ℕ → Map String ℕ → SupplyManager → Map String SideDelta
  unfolding deltas_loop
  get_all_deltas longs shorts m = deltas_loop longs shorts m.state m.state.supplies []
