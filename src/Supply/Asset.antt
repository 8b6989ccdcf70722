-- ===== src/Supply/Asset.antt =====
-- `AssetSupply` of bin/vendor/src/supply/types.rs. A method that returns early by `?` keeps what
-- it has written by then, so each gives back the state beside its result.
pub mod Netting
pub mod Simulated
mod Tests
use Prim.Native.String.{String}
use vendor.Base.{
  ℕ, Option, none, some, Bool, true, false, not, ◌||◌, ltb, leb, nat_beq, if◌then◌else◌, unwrap_or,
  Result, ok, err,
}
use vendor.Uint256.{Uint256}
use vendor.Amount.{IsAmount, checked_add, checked_sub, saturating_sub, min_amount}

pub record AssetSupply : Type 0 where
  pub symbol : String
  pub asset_id : ℕ
  pub supply_long : ℕ
  pub supply_short : ℕ
  pub simulated_long : ℕ
  pub simulated_short : ℕ
  pub last_updated : ℕ

pub record IsValid (s : AssetSupply) : Type 0 where
  pub long_fits : IsAmount s.supply_long
  pub short_fits : IsAmount s.supply_short
  pub simulated_long_fits : IsAmount s.simulated_long
  pub simulated_short_fits : IsAmount s.simulated_short

-- The texts of the error results, as constructors.
pub data SupplyError : Type 0 where
  overflow_supply_long overflow_supply_short : SupplyError
  overflow_simulated_long overflow_simulated_short : SupplyError
  not_initialized : String → SupplyError
  not_found : ℕ → SupplyError

pub new_supply : ℕ → String → ℕ → AssetSupply
new_supply now symbol asset_id = record {
  symbol = symbol;
  asset_id = asset_id;
  supply_long = 0;
  supply_short = 0;
  simulated_long = 0;
  simulated_short = 0;
  last_updated = now;
}

-- The result of a method, with the state that it leaves.
abbrev pub Method : Type 0 → Type 0
Method A = Result A SupplyError × AssetSupply

-- `checked_add(..).ok_or(..)?` into `supply_long` and the like: `write` stores the sum.
abbrev pub store_or_fail :
    {A : Type 0} → Option ℕ → SupplyError → AssetSupply → (ℕ → AssetSupply) → A → Method A
store_or_fail none e before write a = (err e, before)
store_or_fail (some v) e before write a = (ok a, write v)

module _ ⦃u : Uint256⦄ where
  pub total_long : AssetSupply → ℕ
  total_long s = unwrap_or (checked_add s.supply_long s.simulated_long) s.supply_long

  pub total_short : AssetSupply → ℕ
  total_short s = unwrap_or (checked_add s.supply_short s.simulated_short) s.supply_short

  pub add_simulated_long : ℕ → ℕ → AssetSupply → Method (Unit {0})
  add_simulated_long now amount s =
      store_or_fail (checked_add s.simulated_long amount) overflow_simulated_long s
        (λ v. record s { simulated_long = v; last_updated = now }) tt

  pub add_simulated_short : ℕ → ℕ → AssetSupply → Method (Unit {0})
  add_simulated_short now amount s =
      store_or_fail (checked_add s.simulated_short amount) overflow_simulated_short s
        (λ v. record s { simulated_short = v; last_updated = now }) tt

  pub realize_simulated_long : ℕ → ℕ → AssetSupply → Method ℕ
  realize_simulated_long now amount s =
      let to_realize = min_amount amount s.simulated_long in
      let reduced : AssetSupply = record s {
        simulated_long = unwrap_or (checked_sub s.simulated_long to_realize) 0;
      } in
      store_or_fail (checked_add reduced.supply_long to_realize) overflow_supply_long reduced
        (λ v. record reduced { supply_long = v; last_updated = now }) to_realize

  pub realize_simulated_short : ℕ → ℕ → AssetSupply → Method ℕ
  realize_simulated_short now amount s =
      let to_realize = min_amount amount s.simulated_short in
      let reduced : AssetSupply = record s {
        simulated_short = unwrap_or (checked_sub s.simulated_short to_realize) 0;
      } in
      store_or_fail (checked_add reduced.supply_short to_realize) overflow_supply_short reduced
        (λ v. record reduced { supply_short = v; last_updated = now }) to_realize

  pub simulated_exposure : AssetSupply → ℕ
  simulated_exposure s = unwrap_or (checked_add s.simulated_long s.simulated_short) 0

  -- The remainder is taken against the short position that is left.
  pub add_long : ℕ → ℕ → AssetSupply → Method (Unit {0})
  add_long now amount s =
      let reduced : AssetSupply = record s {
        supply_short = unwrap_or (saturating_sub s.supply_short amount) s.supply_short;
      } in
      let remainder = unwrap_or (saturating_sub amount reduced.supply_short) amount in
      store_or_fail (checked_add reduced.supply_long remainder) overflow_supply_long reduced
        (λ v. record reduced { supply_long = v; last_updated = now }) tt

  pub add_short : ℕ → ℕ → AssetSupply → Method (Unit {0})
  add_short now amount s =
      let reduced : AssetSupply = record s {
        supply_long = unwrap_or (saturating_sub s.supply_long amount) s.supply_long;
      } in
      let remainder = unwrap_or (saturating_sub amount reduced.supply_long) amount in
      store_or_fail (checked_add reduced.supply_short remainder) overflow_supply_short reduced
        (λ v. record reduced { supply_short = v; last_updated = now }) tt

  -- The difference of two totals, with the side that it is on.
  pub net_of : ℕ → ℕ → Bool × ℕ
  net_of long short =
      if leb short long
      then (true, unwrap_or (checked_sub long short) 0)
      else (false, unwrap_or (checked_sub short long) 0)

  pub net_position : AssetSupply → Bool × ℕ
  unfolding net_of
  net_position s = net_of (total_long s) (total_short s)

  pub net_position_actual : AssetSupply → Bool × ℕ
  unfolding net_of
  net_position_actual s = net_of s.supply_long s.supply_short

pub has_simulated : AssetSupply → Bool
has_simulated s = not (nat_beq s.simulated_long 0) || not (nat_beq s.simulated_short 0)

-- Anything held, by executed trades.
unfoldable pub has_position : AssetSupply → Bool
has_position s = not (nat_beq s.supply_long 0) || not (nat_beq s.supply_short 0)

pub has_changed : Option ℕ → AssetSupply → Bool
unfolding has_position
has_changed none s = has_position s
has_changed (some last_submission) s = ltb last_submission s.last_updated
