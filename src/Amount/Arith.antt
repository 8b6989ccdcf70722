-- ===== src/Amount/Arith.antt =====
-- What the operations of `Amount` compute, as equations on natural numbers.
use vendor.Base.{
  ℕ, ◌+◌, ◌-◌, ◌*◌, ◌/◌, ◌%◌, ◌^◌, ◌≤◌, ◌<◌, ◌≡◌, Option, none, some, arith, min, ltb, leb, nat_beq,
  if◌then◌else◌, returns, panics, unwrap,
}
use native.Mathlib.Nat.{pow-le-pow_right, one-le-pow}
use vendor.Uint256.{Uint256, u64_mod, u128_mod, u256_mod}
use vendor.Amount.{
  IsAmount, scale, is_less_than, min_amount, try_convert_to_u128, convert_from_u128,
  convert_from_u8, checked_add, checked_sub, saturating_sub, checked_mul, checked_div, checked_idiv,
  checked_sq, from_u128_with_scale,
}

-- The value of a checked operation: the exact result, or `none` where it leaves `u128`.
abbrev pub fits : ℕ → Option ℕ
fits v = if ltb v u128_mod then some v else none

pub min_amount_lem : (a b : ℕ) → min_amount a b ≡ min a b
unfolding min_amount is_less_than
min_amount_lem a b = ground arith

mul-lt : (a b : ℕ) → IsAmount a → IsAmount b → a * b < u256_mod
mul-lt a b p q = grind arith

pub div-le : (a b : ℕ) → a / b ≤ a
div-le a b = grind arith

ten_pow-lt : (d : ℕ) → d ≤ 77 → 10 ^ d < u256_mod
ten_pow-lt d h = omega (arith, pow-le-pow_right {n = 10} (omega arith) h)

ten_pow_pos : (d : ℕ) → 0 < 10 ^ d
ten_pow_pos d = one-le-pow d 10 (omega arith)

module _ ⦃u : Uint256⦄ where
  -- A `u128` keeps its value on the way into `U256`.
  pub convert_from_u128_lem : (v : ℕ) → IsAmount v → convert_from_u128 v ≡ v
  unfolding convert_from_u128
  convert_from_u128_lem v h =
      omega (arith, u.from_limbs_lem (v % u64_mod) ((v / 2 ^ 64) % u64_mod) 0 0)

  pub convert_from_u8_lem : (v : ℕ) → v < 256 → convert_from_u8 v ≡ v
  unfolding convert_from_u8
  convert_from_u8_lem v h = omega (arith, u.from_limbs_lem v 0 0 0)

  pub try_convert_to_u128_lem : (v : ℕ) → v < u256_mod → try_convert_to_u128 v ≡ fits v
  unfolding try_convert_to_u128
  try_convert_to_u128_lem v h = u.try_to_u128_lem v h

  pub checked_add_lem : (a b : ℕ) → IsAmount a → IsAmount b → checked_add a b ≡ fits (a + b)
  unfolding checked_add
  checked_add_lem a b p q =
      rw (convert_from_u128_lem a p, convert_from_u128_lem b q)
        (ground (arith, u.add_lem a b, try_convert_to_u128_lem (a + b)))

  pub checked_sub_lem :
      (a b : ℕ)
      → IsAmount a
      → IsAmount b
      → checked_sub a b ≡ (if leb b a then some (a - b) else none)
  unfolding checked_sub
  checked_sub_lem a b p q =
      rw (convert_from_u128_lem a p, convert_from_u128_lem b q)
        (ground (arith, u.sub_lem a b, try_convert_to_u128_lem ((a + u256_mod - b) % u256_mod)))

  pub saturating_sub_lem : (a b : ℕ) → IsAmount a → IsAmount b → saturating_sub a b ≡ some (a - b)
  unfolding saturating_sub
  saturating_sub_lem a b p q =
      rw (convert_from_u128_lem a p, convert_from_u128_lem b q)
        (ground (arith, u.sub_lem a (min a b), try_convert_to_u128_lem (a - b)))

  -- The product of two amounts is the exact product divided by the scale, rounded down, or `none`
  -- where that leaves `u128`; nothing wraps on the way, and the call never panics.
  pub checked_mul_lem :
      (a b : ℕ) → IsAmount a → IsAmount b → checked_mul a b ≡ returns (fits (a * b / scale))
  unfolding checked_mul
  checked_mul_lem a b p q =
      rw
        (
          convert_from_u128_lem a p,
          convert_from_u128_lem b q,
          convert_from_u128_lem scale (omega arith),
        )
        (ground (
          arith,
          mul-lt a b p q,
          u.mul_lem a b,
          u.div_lem (a * b) scale,
          try_convert_to_u128_lem (a * b / scale),
        ))

  -- The quotient of two amounts is the scaled exact quotient, rounded down, or `none` where it
  -- leaves `u128`; a divisor of zero panics.
  pub checked_div_lem :
      (a b : ℕ)
      → IsAmount a
      → IsAmount b
      → checked_div a b ≡ (if nat_beq b 0 then panics else returns (fits (a * scale / b)))
  unfolding checked_div
  checked_div_lem a b p q =
      rw
        (
          convert_from_u128_lem a p,
          convert_from_u128_lem b q,
          convert_from_u128_lem scale (omega arith),
        )
        (ground (
          arith,
          u.mul_lem a scale,
          u.div_lem (a * scale) b,
          div-le (a * scale) b,
          try_convert_to_u128_lem (a * scale / b),
        ))

  pub checked_idiv_lem :
      (a b : ℕ)
      → IsAmount a
      → IsAmount b
      → checked_idiv a b ≡ (if nat_beq b 0 then panics else returns (fits (a / b * scale)))
  unfolding checked_idiv
  checked_idiv_lem a b p q =
      rw
        (
          convert_from_u128_lem a p,
          convert_from_u128_lem b q,
          convert_from_u128_lem scale (omega arith),
        )
        (ground (
          arith,
          div-le a b,
          u.div_lem a b,
          u.mul_lem (a / b) scale,
          try_convert_to_u128_lem (a / b * scale),
        ))

  pub checked_sq_lem : (a : ℕ) → IsAmount a → checked_sq a ≡ returns (fits (a * a / scale))
  unfolding checked_sq
  checked_sq_lem a p =
      rw (convert_from_u128_lem a p, convert_from_u128_lem scale (omega arith))
        (ground (
          arith,
          mul-lt a a p p,
          u.mul_lem a a,
          u.div_lem (a * a) scale,
          try_convert_to_u128_lem (a * a / scale),
        ))

  -- A value with up to 77 decimals is converted by an exact product and quotient; where the
  -- result leaves `u128` the call panics.
  pub from_u128_with_scale_lem :
      (v d : ℕ)
      → IsAmount v
      → d ≤ 77
      → from_u128_with_scale v d ≡ unwrap (fits (v * scale / 10 ^ d))
  unfolding from_u128_with_scale
  from_u128_with_scale_lem v d p q =
      rw
        (
          convert_from_u128_lem v p,
          convert_from_u128_lem scale (omega arith),
          convert_from_u128_lem 10 (omega arith),
          convert_from_u8_lem d (omega arith),
        )
        (ground (
          arith,
          ten_pow-lt d q,
          ten_pow_pos d,
          u.mul_lem v scale,
          u.pow_lem 10 d,
          u.div_lem (v * scale) (10 ^ d),
          div-le (v * scale) (10 ^ d),
          try_convert_to_u128_lem (v * scale / 10 ^ d),
        ))
