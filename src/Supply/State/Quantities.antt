-- ===== src/Supply/State/Quantities.antt =====
-- `SupplyState` (bin/vendor/src/supply/types.rs): the range of the quantities that it reports.
use Prim.Native.String.{String}
use vendor.Base.{ℕ, ◌≡◌, [], ◌∷◌, some, arith, Option-cases, inl, inr, refl, ◌⊎◌}
use vendor.Base.Map.{Map}
use vendor.Uint256.{Uint256}
use vendor.Amount.{IsAmount}
use vendor.Supply.Asset.{AssetSupply, IsValid}
use vendor.Supply.Asset.Simulated.{
  held, total_long-IsAmount, total_short-IsAmount, total_long-held, total_short-held,
}
use vendor.Supply.State.{SupplyState, find_by_id, get_long_quantity, get_short_quantity}
use vendor.Supply.State.Records.{AllValid, Coherent, LacksId, IsFirst, find_by_id-cases}

find_by_id-IsValid :
    (asset_id : ℕ) (m : Map String AssetSupply) {s : AssetSupply}
    → AllValid m
    → find_by_id asset_id m ≡ some s
    → IsValid s
unfolding find_by_id
find_by_id-IsValid asset_id [] all e = cc
find_by_id-IsValid asset_id ((_, t) ∷ m) {s = s} all e =
    ground (arith, find_by_id-IsValid asset_id m {s = s} all.1)

module _ ⦃u : Uint256⦄ (asset_id : ℕ) (st : SupplyState) (c : Coherent st) where
  pub get_long_quantity-IsAmount : IsAmount (get_long_quantity asset_id st)
  unfolding get_long_quantity
  get_long_quantity-IsAmount = elim (Option-cases (find_by_id asset_id st.supplies)) [
    | inl e ↦ rw e (omega arith)
    | inr (s, e) ↦ rw e (total_long-IsAmount s (find_by_id-IsValid asset_id st.supplies c.valid e))
  ]

  pub get_short_quantity-IsAmount : IsAmount (get_short_quantity asset_id st)
  unfolding get_short_quantity
  get_short_quantity-IsAmount = elim (Option-cases (find_by_id asset_id st.supplies)) [
    | inl e ↦ rw e (omega arith)
    | inr (s, e) ↦ rw e (total_short-IsAmount s (find_by_id-IsValid asset_id st.supplies c.valid e))
  ]

  -- The quantities of an asset id are those of the first asset that has it, and zero without one.
  pub get_quantities_lem :
      (LacksId asset_id st.supplies
        × (get_long_quantity asset_id st ≡ 0)
        × (get_short_quantity asset_id st ≡ 0))
      ⊎ ((s : AssetSupply) × IsFirst asset_id st.supplies s
          × (get_long_quantity asset_id st ≡ held s.supply_long s.simulated_long)
          × (get_short_quantity asset_id st ≡ held s.supply_short s.simulated_short))
  unfolding get_long_quantity get_short_quantity
  get_quantities_lem = elim (find_by_id-cases asset_id st.supplies c.keyed) [
    | inl (e, lacks) ↦ inl (lacks, rw e refl, rw e refl)
    | inr (s, e, first) ↦
        let v = find_by_id-IsValid asset_id st.supplies c.valid e in
        inr (s, first, rw e (total_long-held s v), rw e (total_short-held s v))
  ]
