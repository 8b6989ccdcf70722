-- ===== src/Supply/Manager/Tests.antt =====
-- A demand for one of two assets.
use Prim.Native.String.{String}
use vendor.Base.{ℕ, ◌≡◌, refl, [], ◌∷◌, none, true}
use vendor.Base.Map.{Map, string_eq}
use vendor.Uint256.{reference}
use vendor.Supply.Manager.{demand_delta, calculate_delta}
use vendor.Supply.Asset.{AssetSupply, has_position}
use vendor.Supply.State.{SupplyState}
use vendor.Supply.Manager.{calculate_max_delta, get_submission_data, submission_loop}
use vendor.Supply.Manager.Deltas.{IsMaximum, calculate_max_delta-IsMaximum}

abbrev asset : String → ℕ → AssetSupply
asset symbol asset_id = record {
  symbol = symbol;
  asset_id = asset_id;
  supply_long = 10;
  supply_short = 3;
  simulated_long = 0;
  simulated_short = 0;
  last_updated = 0;
}

abbrev pub two : SupplyState
two = record {
  supplies = ("BTC", asset "BTC" 7) ∷ ("ETH", asset "ETH" 8) ∷ [];
  last_submission = none;
  dirty = true;
}

abbrev pub longs : Map String ℕ
longs = ("ETH", 30) ∷ []

calculate_max_delta-IsMaximum_example : IsMaximum longs [] two (calculate_max_delta longs [] two)
calculate_max_delta-IsMaximum_example = calculate_max_delta-IsMaximum longs [] two

-- Short amounts come before long ones.
submission : get_submission_data two ≡ (7 ∷ 8 ∷ [], 3 ∷ 3 ∷ [], 10 ∷ 10 ∷ [])
unfolding get_submission_data submission_loop has_position
submission = refl

-- An asset that is not registered has no delta.
unknown_symbol : demand_delta longs [] two "XRP" ≡ none
unfolding demand_delta calculate_delta
unknown_symbol = refl
