-- ===== src/Rebalancer/Delta/Tests.antt =====
-- A demand for three assets, of which one is held long and one short.
use Prim.Native.String.{String}
use vendor.Base.{ℕ, ◌≡◌, refl, [], ◌∷◌, none, some, true, false, arith, returns}
use vendor.Base.Map.{Map, nat_eq, string_eq, lookup}
use vendor.Uint256.{reference}
use vendor.Supply.Asset.{AssetSupply}
use vendor.Supply.State.{SupplyState}
use vendor.Supply.State.Records.{Coherent}
use vendor.Rebalancer.Delta.{Delta, no_delta, is_balanced, has_no_entries, rebalance_delta}
use vendor.Rebalancer.Delta.Cases.{excess, IsNet, rebalance_delta_lem}

abbrev asset : String → ℕ → ℕ → ℕ → AssetSupply
asset symbol asset_id long short = record {
  symbol = symbol;
  asset_id = asset_id;
  supply_long = long;
  supply_short = short;
  simulated_long = 1;
  simulated_short = 0;
  last_updated = 0;
}

abbrev supply : SupplyState
supply = record {
  supplies = ("BTC", asset "BTC" 7 10 0) ∷ ("ETH", asset "ETH" 8 0 6) ∷ [];
  last_submission = none;
  dirty = false;
}

supply-Coherent : Coherent supply
supply-Coherent = record {
  keyed = (refl, (refl, tt));
  distinct = (refl, (refl, tt));
  valid = (
    record {
      long_fits = omega arith;
      short_fits = omega arith;
      simulated_long_fits = omega arith;
      simulated_short_fits = omega arith;
    },
    (
      record {
        long_fits = omega arith;
        short_fits = omega arith;
        simulated_long_fits = omega arith;
        simulated_short_fits = omega arith;
      },
      tt,
    ),
  );
}

abbrev demand : Map ℕ ℕ
demand = (7, 4) ∷ (8, 5) ∷ (9, 3) ∷ []

-- The short side of asset 8 does not add to what has to be bought.
rebalance_delta_lem_example :
    (net : ℕ) × IsNet 8 supply net
    × (delta : Delta) × (rebalance_delta demand supply ≡ returns delta)
    × (lookup 8 delta.long_positions
        ≡ elim (lookup 8 demand) [ none ↦ none | some quantity ↦ excess quantity net ])
    × (lookup 8 delta.short_positions
        ≡ elim (lookup 8 demand) [ none ↦ none | some quantity ↦ excess net quantity ])
rebalance_delta_lem_example =
    rebalance_delta_lem supply supply-Coherent 8 demand
      (omega arith, (omega arith, (omega arith, tt))) (refl, (refl, (refl, tt)))

balanced :
    (is_balanced no_delta ≡ true)
    × (is_balanced (record no_delta { long_positions = demand }) ≡ false)
unfolding is_balanced has_no_entries
balanced = (refl, refl)
