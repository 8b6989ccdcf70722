-- ===== src/Supply/State/Tests.antt =====
-- Two assets, found by symbol and by id.
use Prim.Native.String.{String}
use vendor.Base.{ℕ, ◌≡◌, ◌⊎◌, refl, [], ◌∷◌, none, some, true, false, arith, if◌then◌else◌, ok, err}
use vendor.Base.Map.{◌==◌, string_eq, lookup}
use vendor.Uint256.{reference}
use vendor.Supply.Asset.{AssetSupply, IsValid, not_found, add_long, new_supply}
use vendor.Supply.Asset.Netting.{add_long_lem}
use vendor.Supply.State.{
  SupplyState, new_state, init_asset, update_supply, record_buy, add_long_by_id, mark_submitted,
  get_supply, after_method, with_supply,
}
use vendor.Supply.State.Records.{LacksId, IsFirst, Coherent, dirty_after, add_long_by_id_lem}

abbrev asset : String → ℕ → AssetSupply
asset symbol asset_id = record {
  symbol = symbol;
  asset_id = asset_id;
  supply_long = 10;
  supply_short = 3;
  simulated_long = 2;
  simulated_short = 0;
  last_updated = 0;
}

abbrev two : SupplyState
two = record {
  supplies = ("BTC", asset "BTC" 7) ∷ ("ETH", asset "ETH" 8) ∷ [];
  last_submission = none;
  dirty = false;
}

asset-IsValid : (symbol : String) (asset_id : ℕ) → IsValid (asset symbol asset_id)
asset-IsValid symbol asset_id = record {
  long_fits = omega arith;
  short_fits = omega arith;
  simulated_long_fits = omega arith;
  simulated_short_fits = omega arith;
}

two-Coherent : Coherent two
two-Coherent = record {
  keyed = (refl, (refl, tt));
  distinct = (refl, (refl, tt));
  valid = (asset-IsValid "BTC" 7, (asset-IsValid "ETH" 8, tt));
}

add_long_by_id_lem_example :
    let (result, st') = add_long_by_id 5 8 4 two in
    (LacksId 8 two.supplies × (result ≡ err (not_found 8)) × (st' ≡ two))
    ⊎ ((s : AssetSupply) × IsFirst 8 two.supplies s
        × (result ≡ (add_long 5 4 s).0)
        × (lookup "BTC" st'.supplies ≡ (
            if ◌==◌ {K = String} s.symbol "BTC"
            then some (add_long 5 4 s).1
            else lookup "BTC" two.supplies))
        × (st'.dirty ≡ dirty_after result two.dirty))
add_long_by_id_lem_example = add_long_by_id_lem 5 8 4 "BTC" two two-Coherent

buy_succeeds : (record_buy 9 "ETH" 4 (mark_submitted 5 two)).0 ≡ ok tt
unfolding record_buy mark_submitted with_supply after_method
buy_succeeds = rw (add_long_lem 9 4 (asset "ETH" 8) (omega arith) (asset-IsValid "ETH" 8)) refl

-- An asset is registered once; a later registration under its symbol changes nothing.
registered :
    (init_asset 4 "BTC" 99 two ≡ two)
    × (get_supply "XRP" (init_asset 4 "XRP" 9 new_state) ≡ some (new_supply 4 "XRP" 9))
    × ((update_supply "ETH" (asset "ETH" 1) two).dirty ≡ true)
unfolding init_asset get_supply new_state update_supply
registered = (refl, refl, refl)
