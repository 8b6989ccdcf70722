-- ===== src/Supply/Asset/Tests.antt =====
-- An asset with ten long and three short, and two simulated long.
use vendor.Base.{
  ◌+◌, ◌-◌, ◌<◌, ◌≡◌, refl, true, false, arith, if◌then◌else◌, ltb, ok, err, none, some,
}
use vendor.Uint256.{reference, u128_mod}
use vendor.Amount.Arith.{checked_add_lem, checked_sub_lem}
use vendor.Supply.Asset.{
  net_position, net_position_actual, net_of, total_long, total_short, simulated_exposure,
  add_simulated_short,
}
use vendor.Supply.Asset.{
  AssetSupply, IsValid, overflow_supply_long, add_long, has_simulated, has_position, has_changed,
  new_supply,
}
use vendor.Supply.Asset.Netting.{remainder, add_long_lem, add_long_overcounts}

abbrev asset : AssetSupply
asset = record {
  symbol = "BTC";
  asset_id = 7;
  supply_long = 10;
  supply_short = 3;
  simulated_long = 2;
  simulated_short = 0;
  last_updated = 0;
}

abbrev asset-IsValid : IsValid asset
asset-IsValid = record {
  long_fits = omega arith;
  short_fits = omega arith;
  simulated_long_fits = omega arith;
  simulated_short_fits = omega arith;
}

add_long_lem_example :
    let reduced : AssetSupply = record asset { supply_short = asset.supply_short - 2 } in
    let long = asset.supply_long + remainder asset.supply_short 2 in
    add_long 5 2 asset ≡ (
      if ltb long u128_mod
      then (ok tt, record reduced { supply_long = long; last_updated = 5 })
      else (err overflow_supply_long, reduced))
add_long_lem_example = add_long_lem 5 2 asset (omega arith) asset-IsValid

add_long_overcounts_example :
    let s' = (add_long 5 2 asset).1 in
    asset.supply_long + 2 + s'.supply_short < s'.supply_long + asset.supply_short
add_long_overcounts_example =
    add_long_overcounts 5 2 asset (omega arith) asset-IsValid (omega arith) (omega arith) succeeds
  where
    succeeds : (add_long 5 2 asset).0 ≡ ok tt
    succeeds = rw (add_long_lem 5 2 asset (omega arith) asset-IsValid) refl

flags :
    (has_simulated asset ≡ true)
    × (has_position (new_supply 0 "ETH" 8) ≡ false)
    × (has_changed (some 0) asset ≡ false)
    × (has_changed none asset ≡ true)
unfolding has_simulated has_position has_changed new_supply
flags = (refl, refl, refl, refl)

-- The simulated sides count in the net position, and in the exposure.
nets :
    (net_position asset ≡ (true, 9))
    × (net_position_actual asset ≡ (true, 7))
    × (simulated_exposure asset ≡ 2)
    × ((add_simulated_short 5 4 asset).0 ≡ ok tt)
unfolding net_position net_position_actual net_of total_long total_short simulated_exposure
    add_simulated_short
nets =
    let longs = checked_add_lem 10 2 (omega arith) (omega arith) in
    let shorts = checked_add_lem 3 0 (omega arith) (omega arith) in
    let all = checked_sub_lem 12 3 (omega arith) (omega arith) in
    let actual = checked_sub_lem 10 3 (omega arith) (omega arith) in
    let both = checked_add_lem 2 0 (omega arith) (omega arith) in
    let added = checked_add_lem 0 4 (omega arith) (omega arith) in
    (rw (longs, shorts, all) refl, rw actual refl, rw both refl, rw added refl)
