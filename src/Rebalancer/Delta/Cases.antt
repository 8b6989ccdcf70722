-- ===== src/Rebalancer/Delta/Cases.antt =====
-- What the calculator finds for each asset.
use vendor.Base.{
  ℕ, ◌-◌, ◌≡◌, ◌⊎◌, inl, inr, refl, [], ◌∷◌, Option, none, some, ◌&&◌, ltb, nat_beq, nat_beq_iff,
  if◌then◌else◌, arith, Bool-cases, returns,
}
use vendor.Base.Map.{Map, nat_eq, lookup, insert, lookup-insert, Distinct}
use vendor.Uint256.{Uint256}
use vendor.Amount.{IsAmount}
use vendor.Amount.Arith.{checked_sub_lem, fits}
use vendor.Supply.Asset.{AssetSupply}
use vendor.Supply.Asset.Simulated.{held}
use vendor.Supply.State.{SupplyState, get_long_quantity, get_short_quantity}
use vendor.Supply.State.Records.{Coherent, LacksId, IsFirst}
use vendor.Supply.State.Quantities.{
  get_long_quantity-IsAmount, get_short_quantity-IsAmount, get_quantities_lem,
}
use vendor.Rebalancer.Delta.{Delta, no_delta, net_supply, add_asset, delta_loop, rebalance_delta}

-- Every demanded quantity is an amount.
abbrev pub IsDemand : Map ℕ ℕ → Type 0
IsDemand [] = Unit
IsDemand ((_, quantity) ∷ rest) = IsAmount quantity × IsDemand rest

-- The entry of the first quantity over the second, if it is larger.
abbrev pub excess : ℕ → ℕ → Option ℕ
excess a b = if ltb b a then some (a - b) else none

-- The net supply of an asset.
abbrev pub IsNet : ℕ → SupplyState → ℕ → Type 0
IsNet j supply net =
    (LacksId j supply.supplies × (net ≡ 0))
    ⊎ ((s : AssetSupply) × IsFirst j supply.supplies s
        × (net ≡ held s.supply_long s.simulated_long - held s.supply_short s.simulated_short))

module _ ⦃u : Uint256⦄ (supply : SupplyState) (coherent : Coherent supply) where
  -- The net supply is long less short, and zero where the vendor is net short.
  pub net_supply_lem :
      (asset_id : ℕ)
      → net_supply asset_id supply
        ≡ get_long_quantity asset_id supply - get_short_quantity asset_id supply
  unfolding net_supply
  net_supply_lem asset_id = ground (
    arith,
    checked_sub_lem (get_long_quantity asset_id supply) (get_short_quantity asset_id supply)
        (get_long_quantity-IsAmount asset_id supply coherent)
        (get_short_quantity-IsAmount asset_id supply coherent),
  )

  net_supply-IsAmount : (asset_id : ℕ) → IsAmount (net_supply asset_id supply)
  net_supply-IsAmount asset_id =
      omega (arith, net_supply_lem asset_id, get_long_quantity-IsAmount asset_id supply coherent)

  -- The body of the loop never panics, and adds the difference to one side.
  add_asset_lem :
      (asset_id quantity j : ℕ) (delta : Delta)
      → IsAmount quantity
      → let net = net_supply asset_id supply in
        (delta' : Delta) × (add_asset asset_id quantity supply delta ≡ returns delta')
        × (lookup j delta'.long_positions ≡ (
            if nat_beq asset_id j && ltb net quantity
            then some (quantity - net)
            else lookup j delta.long_positions))
        × (lookup j delta'.short_positions ≡ (
            if nat_beq asset_id j && ltb quantity net
            then some (net - quantity)
            else lookup j delta.short_positions))
  unfolding add_asset
  add_asset_lem asset_id quantity j delta fit =
      let net = net_supply asset_id supply in
      let more = checked_sub_lem quantity net fit (net_supply-IsAmount asset_id) in
      let less = checked_sub_lem net quantity (net_supply-IsAmount asset_id) fit in
      elim (Bool-cases (ltb net quantity)) [
        | inl buys ↦ (
          record delta { long_positions = insert asset_id (quantity - net) delta.long_positions },
          ground (arith, more),
          ground (arith, lookup-insert asset_id j (quantity - net) delta.long_positions),
          ground arith,
        )
        | inr rest ↦ elim (Bool-cases (ltb quantity net)) [
          | inl sells ↦ (
            record delta {
              short_positions = insert asset_id (net - quantity) delta.short_positions;
            },
            ground (arith, less),
            ground arith,
            ground (arith, lookup-insert asset_id j (net - quantity) delta.short_positions),
          )
          | inr even ↦ (delta, ground arith, ground arith, ground arith)
        ]
      ]

  -- What a loop over `demand` leaves for an asset where it started from `before`.
  abbrev bought_after : ℕ → Map ℕ ℕ → Option ℕ → Option ℕ
  bought_after j demand before = elim (lookup j demand) [
    | none ↦ before
    | some quantity ↦
        if ltb (net_supply j supply) quantity then some (quantity - net_supply j supply) else before
  ]

  abbrev sold_after : ℕ → Map ℕ ℕ → Option ℕ → Option ℕ
  sold_after j demand before = elim (lookup j demand) [
    | none ↦ before
    | some quantity ↦
        if ltb quantity (net_supply j supply) then some (net_supply j supply - quantity) else before
  ]

  delta_loop_lem :
      (j : ℕ) (demand : Map ℕ ℕ) (delta : Delta)
      → IsDemand demand
      → Distinct demand
      → (delta' : Delta) × (delta_loop supply demand delta ≡ returns delta')
        × (lookup j delta'.long_positions ≡ bought_after j demand (lookup j delta.long_positions))
        × (lookup j delta'.short_positions ≡ sold_after j demand (lookup j delta.short_positions))
  unfolding delta_loop
  delta_loop_lem j [] delta fits d = (delta, refl, refl, refl)
  delta_loop_lem j ((asset_id, quantity) ∷ demand) delta fits d =
      let (delta1, e1, l1, s1) = add_asset_lem asset_id quantity j delta fits.0 in
      let (delta2, e2, l2, s2) = delta_loop_lem j demand delta1 fits.1 d.1 in
      (
        delta2,
        rw e1 e2,
        ground (arith, l1, l2, d.0, nat_beq_iff asset_id j),
        ground (arith, s1, s2, d.0, nat_beq_iff asset_id j),
      )

  net_supply-IsNet : (j : ℕ) → IsNet j supply (net_supply j supply)
  net_supply-IsNet j = elim (get_quantities_lem j supply coherent) [
    | inl (lacks, long, short) ↦ inl (lacks, omega (arith, net_supply_lem j, long, short))
    | inr (s, first, long, short) ↦ inr (s, first, omega (arith, net_supply_lem j, long, short))
  ]

  -- With a coherent supply and a demand of amounts for distinct assets the calculator does not
  -- panic. An asset gets a long entry exactly where its demand is above its net supply, and a
  -- short entry exactly where it is below, each of the difference; an asset without a demand gets
  -- none, whatever the vendor holds of it. The net supply is that of the first asset with the id:
  -- long less short, but zero where the vendor is net short or has no such asset. Each side is what
  -- is executed and simulated, or only what is executed where the sum does not fit an `Amount`.
  pub rebalance_delta_lem :
      (j : ℕ) (demand : Map ℕ ℕ)
      → IsDemand demand
      → Distinct demand
      → (net : ℕ) × IsNet j supply net
        × (delta : Delta) × (rebalance_delta demand supply ≡ returns delta)
        × (lookup j delta.long_positions
            ≡ elim (lookup j demand) [ none ↦ none | some quantity ↦ excess quantity net ])
        × (lookup j delta.short_positions
            ≡ elim (lookup j demand) [ none ↦ none | some quantity ↦ excess net quantity ])
  unfolding rebalance_delta
  rebalance_delta_lem j demand fits d =
      let (delta, e, l, s) = delta_loop_lem j demand no_delta fits d in
      (net_supply j supply, net_supply-IsNet j, delta, e, ground (arith, l), ground (arith, s))
