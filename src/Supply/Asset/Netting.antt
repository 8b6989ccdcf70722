-- ===== src/Supply/Asset/Netting.antt =====
-- `AssetSupply` (bin/vendor/src/supply/types.rs): what a trade does to the two sides of a position.
use vendor.Base.{
  ℕ, ◌+◌, ◌-◌, ◌*◌, ◌≤◌, ◌<◌, ◌≡◌, ◌⊎◌, some, true, ltb, leb, if◌then◌else◌, ok, err, arith,
}
use vendor.Uint256.{Uint256, u128_mod}
use vendor.Amount.{IsAmount}
use vendor.Amount.Arith.{checked_add_lem, checked_sub_lem, saturating_sub_lem}
use vendor.Supply.Asset.{
  AssetSupply, IsValid, overflow_supply_long, overflow_supply_short, add_long, add_short, net_of,
  net_position_actual, has_changed,
}

-- What goes to the other side, as the code computes it.
abbrev pub remainder : ℕ → ℕ → ℕ
remainder offset amount = amount - (offset - amount)

module _ ⦃u : Uint256⦄ (now amount : ℕ) (s : AssetSupply) (fit : IsAmount amount)
    (v : IsValid s) where
  -- A buy lowers the short side by as much as it can. Then the amount less the short side that
  -- is left goes to the long side; where that overflows, the call fails with the short side
  -- already lowered.
  pub add_long_lem :
      let reduced : AssetSupply = record s { supply_short = s.supply_short - amount } in
      let long = s.supply_long + remainder s.supply_short amount in
      add_long now amount s ≡ (
        if ltb long u128_mod
        then (ok tt, record reduced { supply_long = long; last_updated = now })
        else (err overflow_supply_long, reduced))
  unfolding add_long
  add_long_lem = ground (
    arith,
    saturating_sub_lem s.supply_short amount v.short_fits fit,
    saturating_sub_lem amount (s.supply_short - amount) fit,
    checked_add_lem s.supply_long (remainder s.supply_short amount) v.long_fits,
  )

  -- A sell is the same with the sides exchanged.
  pub add_short_lem :
      let reduced : AssetSupply = record s { supply_long = s.supply_long - amount } in
      let short = s.supply_short + remainder s.supply_long amount in
      add_short now amount s ≡ (
        if ltb short u128_mod
        then (ok tt, record reduced { supply_short = short; last_updated = now })
        else (err overflow_supply_short, reduced))
  unfolding add_short
  add_short_lem = ground (
    arith,
    saturating_sub_lem s.supply_long amount v.long_fits fit,
    saturating_sub_lem amount (s.supply_long - amount) fit,
    checked_add_lem s.supply_short (remainder s.supply_long amount) v.short_fits,
  )

  -- Without a short side, or when the amount is at most half of it, a buy that succeeds raises
  -- long less short by exactly its amount.
  pub add_long_exact :
      (s.supply_short ≡ 0) ⊎ (2 * amount ≤ s.supply_short)
      → (add_long now amount s).0 ≡ ok tt
      → let s' = (add_long now amount s).1 in
        s'.supply_long + s.supply_short ≡ s.supply_long + amount + s'.supply_short
  add_long_exact small done = ground (arith, add_long_lem)

  -- Against a short side of less than twice its amount, a buy that succeeds raises long less
  -- short by more than its amount.
  pub add_long_overcounts :
      0 < s.supply_short
      → s.supply_short < 2 * amount
      → (add_long now amount s).0 ≡ ok tt
      → let s' = (add_long now amount s).1 in
        s.supply_long + amount + s'.supply_short < s'.supply_long + s.supply_short
  add_long_overcounts some_short large done = ground (arith, add_long_lem)

-- A trade never leaves the amounts out of range, whether it succeeds or fails.
module _ ⦃u : Uint256⦄ (now amount : ℕ) (s : AssetSupply) (fit : IsAmount amount)
    (v : IsValid s) where
  pub add_long-IsValid : IsValid (add_long now amount s).1
  add_long-IsValid = ground (arith, add_long_lem now amount s fit v)

  pub add_short-IsValid : IsValid (add_short now amount s).1
  add_short-IsValid = ground (arith, add_short_lem now amount s fit v)

  -- The net position is the difference of the two sides, on the side of the larger.
  pub net_position_actual_lem :
      let (is_long, net) = net_position_actual s in
      (s.supply_short + (if is_long then net else 0) ≡ s.supply_long + (if is_long then 0 else net))
      × (is_long ≡ leb s.supply_short s.supply_long)
  unfolding net_position_actual net_of
  net_position_actual_lem = ground (
    arith,
    checked_sub_lem s.supply_long s.supply_short v.long_fits v.short_fits,
    checked_sub_lem s.supply_short s.supply_long v.short_fits v.long_fits,
  )

  -- A trade keeps the name and the id of the asset.
  pub add_long-symbol : (add_long now amount s).1.symbol ≡ s.symbol
  add_long-symbol = ground (arith, add_long_lem now amount s fit v)

  pub add_short-symbol : (add_short now amount s).1.symbol ≡ s.symbol
  add_short-symbol = ground (arith, add_short_lem now amount s fit v)

-- A buy that succeeds after a submission counts as a change.
pub bought_changed :
    ⦃u : Uint256⦄ (now submitted quantity : ℕ) (s : AssetSupply)
    → IsAmount quantity
    → IsValid s
    → submitted < now
    → (add_long now quantity s).0 ≡ ok tt
    → has_changed (some submitted) (add_long now quantity s).1 ≡ true
unfolding has_changed
bought_changed now submitted quantity s fit v later done =
    ground (arith, add_long_lem now quantity s fit v)
