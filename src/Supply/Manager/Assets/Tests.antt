-- ===== src/Supply/Manager/Assets/Tests.antt =====
-- A mapper that knows one of the two registered assets and a new one.
use vendor.Base.{◌≡◌, refl, [], ◌∷◌, true, false, err, map}
use vendor.Base.Map.{string_eq}
use vendor.Uint256.{reference}
use vendor.Amount.{checked_add, checked_sub, try_convert_to_u128, convert_from_u128}
use vendor.Supply.State.{init_asset}
use vendor.Supply.Manager.{demand_delta, calculate_delta}
use vendor.Supply.Manager.Tests.{two, longs}
use vendor.Supply.Manager.Assets.{AssetMapper, initialize, get_all_deltas, not_in_mapper}

abbrev mapper : AssetMapper
mapper = record {
  symbol_to_id = ("BTC", 7) ∷ ("SOL", 9) ∷ [];
  id_to_symbol = (7, "BTC") ∷ (9, "SOL") ∷ [];
  prefer_usdc = true;
}

-- The unknown symbol stops the call, after the first asset has been registered.
stops_at_unknown :
    let (result, m) =
      initialize
        (λ _. 1)
        ("SOL" ∷ "XRP" ∷ "BTC" ∷ [])
        (record { state = two; asset_mapper = mapper }) in
    (result ≡ err (not_in_mapper "XRP"))
    × (map (λ e. e.0) m.state.supplies ≡ "BTC" ∷ "ETH" ∷ "SOL" ∷ [])
unfolding initialize init_asset
stops_at_unknown = (refl, refl)

-- The deltas of both assets, the one with the demand short.
both_deltas :
    get_all_deltas longs [] (record { state = two; asset_mapper = mapper })
    ≡ ("BTC", (true, 7)) ∷ ("ETH", (false, 23)) ∷ []
unfolding get_all_deltas demand_delta calculate_delta checked_add try_convert_to_u128
    convert_from_u128 checked_sub
both_deltas = refl
