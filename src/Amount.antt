-- ===== src/Amount.antt =====
-- libs/common/src/amount.rs: a fixed-point number with 18 decimals in a `u128`. An `Amount` is
-- its raw value, a number below 2 ^ 128; every operation goes through `U256` and back.
pub mod Arith
pub mod Sqrt
mod Tests
use vendor.Base.{
  ℕ, zero, suc, ◌+◌, ◌-◌, ◌*◌, ◌/◌, ◌%◌, ◌^◌, ◌≤◌, ◌<◌, Option, none, some, Bool, true, false, min,
  ltb, nat_beq, if◌then◌else◌, Outcome, returns, panics, ◌>>=◌, unwrap, and_then, map_option,
}
use vendor.Uint256.{Uint256, u64_mod, u128_mod}

-- The range of an `Amount`, which is that of `u128`.
abbrev pub IsAmount : ℕ → Type 0
IsAmount a = a < u128_mod

-- `Amount::SCALE`, `Amount::SCALE_SQRT` and `Amount::MAX`
abbrev pub scale : ℕ
scale = 1_000_000_000_000_000_000

abbrev pub scale_sqrt : ℕ
scale_sqrt = 1_000_000_000

abbrev pub max_amount : ℕ
max_amount = 2 ^ 128 - 1

pub is_less_than : ℕ → ℕ → Bool
is_less_than a b = ltb a b

pub min_amount : ℕ → ℕ → ℕ
unfolding is_less_than
min_amount a b = if is_less_than a b then a else b

module _ ⦃u : Uint256⦄ where
  unfoldable pub try_convert_to_u128 : ℕ → Option ℕ
  try_convert_to_u128 v = u.try_to_u128 v

  unfoldable pub convert_from_u128 : ℕ → ℕ
  convert_from_u128 v = u.from_limbs (v % u64_mod) ((v / 2 ^ 64) % u64_mod) 0 0

  pub convert_from_u8 : ℕ → ℕ
  convert_from_u8 v = u.from_limbs v 0 0 0

  abbrev to_u256 : ℕ → ℕ
  to_u256 a = convert_from_u128 a

  abbrev u256_scale : ℕ
  u256_scale = convert_from_u128 scale

  unfoldable pub checked_add : ℕ → ℕ → Option ℕ
  checked_add a b = try_convert_to_u128 (u.add (to_u256 a) (to_u256 b))

  unfoldable pub checked_sub : ℕ → ℕ → Option ℕ
  checked_sub a b = try_convert_to_u128 (u.sub (to_u256 a) (to_u256 b))

  pub saturating_sub : ℕ → ℕ → Option ℕ
  saturating_sub a b =
      let x = to_u256 a in let y = to_u256 b in try_convert_to_u128 (u.sub x (min x y))

  pub checked_mul : ℕ → ℕ → Outcome (Option ℕ)
  checked_mul a b = do
    result ← unwrap (u.div (u.mul (to_u256 a) (to_u256 b)) u256_scale)
    returns (try_convert_to_u128 result)

  pub checked_div : ℕ → ℕ → Outcome (Option ℕ)
  checked_div a b = do
    result ← unwrap (u.div (u.mul (to_u256 a) u256_scale) (to_u256 b))
    returns (try_convert_to_u128 result)

  pub checked_idiv : ℕ → ℕ → Outcome (Option ℕ)
  checked_idiv a b = do
    quotient ← unwrap (u.div (to_u256 a) (to_u256 b))
    returns (try_convert_to_u128 (u.mul quotient u256_scale))

  pub checked_sq : ℕ → Outcome (Option ℕ)
  checked_sq a = do
    result ← unwrap (u.div (u.mul (to_u256 a) (to_u256 a)) u256_scale)
    returns (try_convert_to_u128 result)

  -- The factor comes first, then the division: `value * 10 ^ 18 / 10 ^ scale`.
  pub from_u128_with_scale : ℕ → ℕ → Outcome ℕ
  from_u128_with_scale value digits = do
    result ← unwrap (
        u.div (u.mul (convert_from_u128 value) (convert_from_u128 scale))
          (u.pow (convert_from_u128 10) (convert_from_u8 digits)))
    unwrap (try_convert_to_u128 result)

  -- `while next < current` in `sqrt_u256`; `none` on fuel is a run that has not ended.
  pub sqrt_loop : ℕ → ℕ → ℕ → ℕ → Option (Option ℕ)
  sqrt_loop zero n current next = none
  sqrt_loop (suc fuel) n current next = elim (ltb next current) [
    | false ↦ some (some current)
    | true ↦
        elim (and_then (u.checked_div n next)
          λ q. and_then (u.checked_add q next) λ s. u.checked_div s (convert_from_u128 2)) [
            | none ↦ some none
            | some next' ↦ sqrt_loop fuel n next next'
          ]
  ]

  -- The bound of a run: the inner `Option` is the function's own result.
  pub sqrt_u256 : ℕ → Option (Option ℕ)
  sqrt_u256 n =
      if nat_beq n 0
      then some (some 0)
      else elim (and_then (u.checked_add 1 n) λ s. u.checked_div s (convert_from_u128 2)) [
        | none ↦ some none
        | some next ↦ sqrt_loop (suc n) n n next
      ]

  pub checked_sqrt : ℕ → Option (Option ℕ)
  checked_sqrt a =
      map_option
        (λ r. and_then r λ root. try_convert_to_u128 (u.mul root (convert_from_u128 scale_sqrt)))
        (sqrt_u256 (to_u256 a))
