-- ===== src/Supply/Asset/Simulated.antt =====
-- Simulated positions: adding to them, and turning them into executed ones.
use vendor.Base.{ℕ, ◌+◌, ◌-◌, ◌≡◌, some, ltb, if◌then◌else◌, ok, err, arith, min}
use vendor.Uint256.{Uint256, u128_mod}
use vendor.Amount.{IsAmount, checked_add}
use vendor.Amount.Arith.{checked_add_lem, checked_sub_lem, min_amount_lem}
use vendor.Supply.Asset.{
  AssetSupply, IsValid, overflow_supply_long, overflow_supply_short, total_long, total_short,
  add_simulated_long, realize_simulated_long, realize_simulated_short,
}

-- What is held on one side: the executed and the simulated quantity, or only the executed one where
-- the sum does not fit an `Amount`.
abbrev pub held : (executed simulated : ℕ) → ℕ
held executed simulated =
    if ltb (executed + simulated) u128_mod then executed + simulated else executed

module _ ⦃u : Uint256⦄ (s : AssetSupply) (v : IsValid s) where
  pub total_long-held : total_long s ≡ held s.supply_long s.simulated_long
  unfolding total_long
  total_long-held =
      ground
        (arith, checked_add_lem s.supply_long s.simulated_long v.long_fits v.simulated_long_fits)

  pub total_short-held : total_short s ≡ held s.supply_short s.simulated_short
  unfolding total_short
  total_short-held =
      ground (
        arith,
        checked_add_lem s.supply_short s.simulated_short v.short_fits v.simulated_short_fits,
      )

  pub total_long-IsAmount : IsAmount (total_long s)
  unfolding total_long
  total_long-IsAmount = ground (
    arith,
    checked_add_lem s.supply_long s.simulated_long v.long_fits v.simulated_long_fits,
    v.long_fits,
  )

  pub total_short-IsAmount : IsAmount (total_short s)
  unfolding total_short
  total_short-IsAmount = ground (
    arith,
    checked_add_lem s.supply_short s.simulated_short v.short_fits v.simulated_short_fits,
    v.short_fits,
  )

module _ ⦃u : Uint256⦄ (now amount : ℕ) (s : AssetSupply) (fit : IsAmount amount)
    (v : IsValid s) where
  -- Realizing moves the amount, but no more than is simulated, from the simulated to the executed
  -- long side, and reports it. It fails only where the executed side overflows, and the amount
  -- has then left the simulated side all the same.
  pub realize_simulated_long_lem :
      let moved = min amount s.simulated_long in
      let reduced : AssetSupply = record s { simulated_long = s.simulated_long - moved } in
      realize_simulated_long now amount s ≡ (
        if ltb (s.supply_long + moved) u128_mod
        then (ok moved, record reduced { supply_long = s.supply_long + moved; last_updated = now })
        else (err overflow_supply_long, reduced))
  unfolding realize_simulated_long
  realize_simulated_long_lem = rw min_amount_lem (
      ground (
        arith,
        checked_sub_lem s.simulated_long (min amount s.simulated_long) v.simulated_long_fits,
        checked_add_lem s.supply_long (min amount s.simulated_long) v.long_fits,
      ))

  pub realize_simulated_short_lem :
      let moved = min amount s.simulated_short in
      let reduced : AssetSupply = record s { simulated_short = s.simulated_short - moved } in
      realize_simulated_short now amount s ≡ (
        if ltb (s.supply_short + moved) u128_mod
        then (
          ok moved,
          record reduced { supply_short = s.supply_short + moved; last_updated = now },
        )
        else (err overflow_supply_short, reduced))
  unfolding realize_simulated_short
  realize_simulated_short_lem = rw min_amount_lem (
      ground (
        arith,
        checked_sub_lem s.simulated_short (min amount s.simulated_short) v.simulated_short_fits,
        checked_add_lem s.supply_short (min amount s.simulated_short) v.short_fits,
      ))

  -- Where executed and simulated long fit an amount together, realizing succeeds and keeps their
  -- total.
  pub realize-total_long :
      IsAmount (s.supply_long + s.simulated_long)
      → let (result, s') = realize_simulated_long now amount s in
        (result ≡ ok (min amount s.simulated_long)) × (total_long s' ≡ total_long s)
  unfolding total_long
  realize-total_long together =
      let moved = min amount s.simulated_long in
      ground (
        arith,
        realize_simulated_long_lem,
        checked_add_lem s.supply_long s.simulated_long v.long_fits v.simulated_long_fits,
        checked_add_lem (s.supply_long + moved) (s.simulated_long - moved),
      )

-- Adding a simulated position and realizing the same amount is an executed trade of that amount:
-- it succeeds, and what was simulated before stays simulated.
pub add-realize_simulated_long :
    ⦃u : Uint256⦄ (now amount : ℕ) (s : AssetSupply)
    → IsValid s
    → IsAmount (s.supply_long + s.simulated_long + amount)
    → let added = (add_simulated_long now amount s).1 in
      let (result, s') = realize_simulated_long now amount added in
      (result ≡ ok amount)
      × (s'.supply_long ≡ s.supply_long + amount)
      × (s'.simulated_long ≡ s.simulated_long)
unfolding add_simulated_long
add-realize_simulated_long now amount s v together =
    let sum : checked_add s.simulated_long amount ≡ some (s.simulated_long + amount) =
      ground (arith, checked_add_lem s.simulated_long amount v.simulated_long_fits) in
    let s' : AssetSupply = record s {
      simulated_long = s.simulated_long + amount;
      last_updated = now;
    } in
    rw sum (
      ground (
        arith,
        realize_simulated_long_lem now amount s' (omega arith) (record {
          long_fits = v.long_fits;
          short_fits = v.short_fits;
          simulated_long_fits = omega arith;
          simulated_short_fits = v.simulated_short_fits;
        }),
      ))
