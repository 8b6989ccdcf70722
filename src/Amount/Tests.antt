-- ===== src/Amount/Tests.antt =====
-- Amounts of one and a half, two and a quarter, and none.
use vendor.Base.{ℕ, ◌*◌, ◌/◌, ◌≡◌, some, none, arith, if◌then◌else◌, nat_beq, returns, panics}
use vendor.Uint256.{reference}
use vendor.Amount.{scale, checked_mul, checked_div, sqrt_u256, max_amount}
use vendor.Amount.Arith.{fits, checked_mul_lem, checked_div_lem}
use vendor.Amount.Sqrt.{IsFloorSqrt, sqrt_u256-IsFloorSqrt}

abbrev one_half : ℕ
one_half = 1500000000000000000

sqrt_u256-IsFloorSqrt_example : (r : ℕ) × (sqrt_u256 99 ≡ some (some r)) × IsFloorSqrt 99 r
sqrt_u256-IsFloorSqrt_example = sqrt_u256-IsFloorSqrt 99 (omega arith)

-- The largest amount does not double.
checked_mul_overflows : checked_mul max_amount (2 * scale) ≡ returns none
checked_mul_overflows = checked_mul_lem max_amount (2 * scale) (omega arith) (omega arith)

checked_div_lem_example :
    checked_div one_half 0 ≡ (if nat_beq 0 0 then panics else returns (fits (one_half * scale / 0)))
checked_div_lem_example = checked_div_lem one_half 0 (omega arith) (omega arith)
