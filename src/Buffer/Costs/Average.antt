-- ===== src/Buffer/Costs/Average.antt =====
-- What `get_acquisition_cost_per_unit` is an average over.
use native.Mathlib.Nat.{mul-div-mul_right, div-le_self}
use vendor.Base.{
  ℕ, ◌+◌, ◌*◌, ◌/◌, ◌<◌, ◌≡◌, refl, arith, some, returns, false, true, ltb, lt→ltb, nat_beq,
}
use vendor.Uint256.{Uint256, u64_mod, u128_mod}
use vendor.Amount.{IsAmount, scale, checked_add}
use vendor.Amount.Arith.{checked_add_lem, checked_div_lem}
use vendor.Buffer.Costs.{AcquisitionCostTracker, get_acquisition_cost_per_unit}

div_scaled : (total n : ℕ) → total * scale / (n * scale) ≡ total / n
div_scaled total n = mul-div-mul_right total n (omega arith)

-- Once a fill is recorded, the result is the three totals divided by the number of fills, not by
-- the quantity traded, as long as they fit an `Amount` together; the call does not panic.
pub cost_per_unit_averages_fills :
    ⦃u : Uint256⦄ (t : AcquisitionCostTracker)
    → IsAmount (t.total_spread_cost + t.total_fees + t.total_slippage)
    → 0 < t.order_count
    → t.order_count < u64_mod
    → get_acquisition_cost_per_unit t
      ≡ returns ((t.total_spread_cost + t.total_fees + t.total_slippage) / t.order_count)
unfolding get_acquisition_cost_per_unit
cost_per_unit_averages_fills t fit some_fill bound =
    let total = t.total_spread_cost + t.total_fees + t.total_slippage in
    let first : checked_add t.total_spread_cost t.total_fees
        ≡ some (t.total_spread_cost + t.total_fees) =
      ground
        (arith, checked_add_lem t.total_spread_cost t.total_fees (omega arith) (omega arith)) in
    let second : checked_add (t.total_spread_cost + t.total_fees) t.total_slippage ≡ some total =
      ground (
        arith,
        checked_add_lem (t.total_spread_cost + t.total_fees) t.total_slippage (omega arith)
            (omega arith),
      ) in
    let counted : nat_beq t.order_count 0 ≡ false = ground arith in
    let scaled : nat_beq (t.order_count * scale) 0 ≡ false = ground arith in
    let small : ltb (total / t.order_count) u128_mod ≡ true =
      lt→ltb _ _ (omega (arith, div-le_self total t.order_count)) in
    rw
      (
        counted,
        first,
        second,
        checked_div_lem total (t.order_count * scale) fit (omega arith),
        scaled,
        div_scaled total t.order_count,
        small,
      )
      refl
