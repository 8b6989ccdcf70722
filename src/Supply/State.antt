-- ===== src/Supply/State.antt =====
-- `SupplyState` of bin/vendor/src/supply/types.rs: the supplies by symbol, found by asset id too.
pub mod Records
pub mod Quantities
pub mod ById
mod Tests
use Prim.Native.String.{String}
use vendor.Base.{
  ℕ, List, [], ◌∷◌, Option, none, some, Bool, true, false, not, ◌&&◌, ltb, if◌then◌else◌, Result,
  ok, err, filter, map, nat_beq, map_option, unwrap_or,
}
use vendor.Base.Map.{Map, string_eq, lookup, insert, contains_key}
use vendor.Uint256.{Uint256}
use vendor.Supply.Asset.{
  AssetSupply, SupplyError, not_initialized, not_found, Method, new_supply, total_long, total_short,
  add_long, add_short, add_simulated_long, add_simulated_short, realize_simulated_long,
  realize_simulated_short, has_changed,
}

pub record SupplyState : Type 0 where
  pub supplies : Map String AssetSupply
  pub last_submission : Option ℕ
  pub dirty : Bool

pub new_state : SupplyState
new_state = record { supplies = []; last_submission = none; dirty = false }

unfoldable pub init_asset : ℕ → String → ℕ → SupplyState → SupplyState
init_asset now symbol asset_id st =
    if contains_key symbol st.supplies
    then st
    else record st { supplies = insert symbol (new_supply now symbol asset_id) st.supplies }

pub update_supply : String → AssetSupply → SupplyState → SupplyState
update_supply symbol supply st = record st {
  supplies = insert symbol supply st.supplies;
  dirty = true;
}

-- `get_mut(symbol)`, a method on what is found, `?`, and the dirty flag. A method that fails has
-- written to the supply and does not set the flag.
pub after_method :
    {A : Type 0} → String → SupplyState → Method A → Result A SupplyError × SupplyState
after_method symbol st (ok a, supply) =
    (ok a, record st { supplies = insert symbol supply st.supplies; dirty = true })
after_method symbol st (err e, supply) =
    (err e, record st { supplies = insert symbol supply st.supplies })

pub with_supply :
    {A : Type 0}
    → String
    → SupplyError
    → Option AssetSupply
    → (AssetSupply → Method A)
    → SupplyState
    → Result A SupplyError × SupplyState
unfolding after_method
with_supply symbol missing none method st = (err missing, st)
with_supply symbol missing (some supply) method st = after_method symbol st (method supply)

-- `values().find(|s| s.asset_id == asset_id)`
pub find_by_id : ℕ → Map String AssetSupply → Option AssetSupply
find_by_id asset_id [] = none
find_by_id asset_id ((_, s) ∷ m) =
    if nat_beq s.asset_id asset_id then some s else find_by_id asset_id m

pub get_changed_assets : SupplyState → List String
get_changed_assets st =
    map (λ e. e.1.symbol) (filter (λ e. has_changed st.last_submission e.1) st.supplies)

abbrev pub is_empty : List String → Bool
is_empty [] = true
is_empty (_ ∷ _) = false

pub needs_submission : SupplyState → Bool
unfolding get_changed_assets
needs_submission st = st.dirty && not (is_empty (get_changed_assets st))

pub mark_submitted : ℕ → SupplyState → SupplyState
mark_submitted now st = record st { last_submission = some now; dirty = false }

pub get_supply : String → SupplyState → Option AssetSupply
get_supply symbol st = lookup symbol st.supplies

module _ ⦃u : Uint256⦄ where
  pub record_buy : ℕ → String → ℕ → SupplyState → Result (Unit {0}) SupplyError × SupplyState
  record_buy now symbol quantity st =
      with_supply symbol (not_initialized symbol) (lookup symbol st.supplies)
        (add_long now quantity) st

  pub record_sell : ℕ → String → ℕ → SupplyState → Result (Unit {0}) SupplyError × SupplyState
  record_sell now symbol quantity st =
      with_supply symbol (not_initialized symbol) (lookup symbol st.supplies)
        (add_short now quantity) st

  pub get_long_quantity : ℕ → SupplyState → ℕ
  get_long_quantity asset_id st =
      unwrap_or (map_option total_long (find_by_id asset_id st.supplies)) 0

  pub get_short_quantity : ℕ → SupplyState → ℕ
  get_short_quantity asset_id st =
      unwrap_or (map_option total_short (find_by_id asset_id st.supplies)) 0

  -- `*_by_id`: the symbol stored with the asset that is found names the entry.
  pub add_long_by_id : ℕ → ℕ → ℕ → SupplyState → Result (Unit {0}) SupplyError × SupplyState
  unfolding record_buy
  add_long_by_id now asset_id amount st = elim (find_by_id asset_id st.supplies) [
    | none ↦ (err (not_found asset_id), st)
    | some s ↦ record_buy now s.symbol amount st
  ]

  pub add_short_by_id : ℕ → ℕ → ℕ → SupplyState → Result (Unit {0}) SupplyError × SupplyState
  unfolding record_sell
  add_short_by_id now asset_id amount st = elim (find_by_id asset_id st.supplies) [
    | none ↦ (err (not_found asset_id), st)
    | some s ↦ record_sell now s.symbol amount st
  ]

  -- The four `*_simulated_*_by_id` methods: one method on the entry of the asset that is found.
  pub by_id :
      {A : Type 0} → ℕ → (AssetSupply → Method A) → SupplyState → Result A SupplyError × SupplyState
  by_id asset_id method st = elim (find_by_id asset_id st.supplies) [
    | none ↦ (err (not_found asset_id), st)
    | some s ↦ with_supply s.symbol (not_found asset_id) (lookup s.symbol st.supplies) method st
  ]

  pub add_simulated_long_by_id :
      ℕ → ℕ → ℕ → SupplyState → Result (Unit {0}) SupplyError × SupplyState
  add_simulated_long_by_id now asset_id amount = by_id asset_id (add_simulated_long now amount)

  pub add_simulated_short_by_id :
      ℕ → ℕ → ℕ → SupplyState → Result (Unit {0}) SupplyError × SupplyState
  add_simulated_short_by_id now asset_id amount = by_id asset_id (add_simulated_short now amount)

  pub realize_simulated_long_by_id : ℕ → ℕ → ℕ → SupplyState → Result ℕ SupplyError × SupplyState
  realize_simulated_long_by_id now asset_id amount =
      by_id asset_id (realize_simulated_long now amount)

  pub realize_simulated_short_by_id : ℕ → ℕ → ℕ → SupplyState → Result ℕ SupplyError × SupplyState
  realize_simulated_short_by_id now asset_id amount =
      by_id asset_id (realize_simulated_short now amount)
