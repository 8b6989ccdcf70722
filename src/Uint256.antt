-- ===== src/Uint256.antt =====
-- `alloy_primitives::U256`, which libs/common/src/amount.rs computes with, as an interface: its
-- operations on the numbers that the words stand for, with the behaviour that its documentation
-- states. `+ - *` and `pow` wrap, `/` panics on a zero divisor (here `none`), the `checked_`
-- forms return `None`, and `uint_try_to` fails on a value that does not fit.
use vendor.Base.{
  ℕ, ◌+◌, ◌-◌, ◌*◌, ◌/◌, ◌%◌, ◌^◌, ◌<◌, ◌≡◌, refl, Option, none, some, ltb, nat_beq, if◌then◌else◌,
}

-- One more than the largest `U256`, `u128` and `u64`.
abbrev pub u256_mod : ℕ
u256_mod = 2 ^ 256

abbrev pub u128_mod : ℕ
u128_mod = 2 ^ 128

abbrev pub u64_mod : ℕ
u64_mod = 2 ^ 64

pub record Uint256 : Type 0 where
  pub from_limbs : ℕ → ℕ → ℕ → ℕ → ℕ
  pub add : ℕ → ℕ → ℕ
  pub sub : ℕ → ℕ → ℕ
  pub mul : ℕ → ℕ → ℕ
  pub div : ℕ → ℕ → Option ℕ
  pub pow : ℕ → ℕ → ℕ
  pub checked_add : ℕ → ℕ → Option ℕ
  pub checked_div : ℕ → ℕ → Option ℕ
  pub try_to_u128 : ℕ → Option ℕ
  pub from_limbs_lem :
      (a b c d : ℕ)
      → a < u64_mod
      → b < u64_mod
      → c < u64_mod
      → d < u64_mod
      → from_limbs a b c d ≡ a + b * u64_mod + c * u128_mod + d * 2 ^ 192
  pub add_lem : (a b : ℕ) → a < u256_mod → b < u256_mod → add a b ≡ (a + b) % u256_mod
  pub sub_lem : (a b : ℕ) → a < u256_mod → b < u256_mod → sub a b ≡ (a + u256_mod - b) % u256_mod
  pub mul_lem : (a b : ℕ) → a < u256_mod → b < u256_mod → mul a b ≡ (a * b) % u256_mod
  pub div_lem :
      (a b : ℕ)
      → a < u256_mod
      → b < u256_mod
      → div a b ≡ (if nat_beq b 0 then none else some (a / b))
  pub pow_lem : (a b : ℕ) → a < u256_mod → b < u256_mod → pow a b ≡ (a ^ b) % u256_mod
  pub checked_add_lem :
      (a b : ℕ)
      → a < u256_mod
      → b < u256_mod
      → checked_add a b ≡ (if ltb (a + b) u256_mod then some (a + b) else none)
  pub checked_div_lem :
      (a b : ℕ)
      → a < u256_mod
      → b < u256_mod
      → checked_div a b ≡ (if nat_beq b 0 then none else some (a / b))
  pub try_to_u128_lem :
      (a : ℕ) → a < u256_mod → try_to_u128 a ≡ (if ltb a u128_mod then some a else none)

-- The interface is met by arithmetic on natural numbers.
instance abbrev pub reference : Uint256
reference = record {
  from_limbs = λ a b c d. a + b * u64_mod + c * u128_mod + d * 2 ^ 192;
  add = λ a b. (a + b) % u256_mod;
  sub = λ a b. (a + u256_mod - b) % u256_mod;
  mul = λ a b. (a * b) % u256_mod;
  div = λ a b. if nat_beq b 0 then none else some (a / b);
  pow = λ a b. (a ^ b) % u256_mod;
  checked_add = λ a b. if ltb (a + b) u256_mod then some (a + b) else none;
  checked_div = λ a b. if nat_beq b 0 then none else some (a / b);
  try_to_u128 = λ a. if ltb a u128_mod then some a else none;
  from_limbs_lem = λ a b c d p q r s. refl;
  add_lem = λ a b p q. refl;
  sub_lem = λ a b p q. refl;
  mul_lem = λ a b p q. refl;
  div_lem = λ a b p q. refl;
  pow_lem = λ a b p q. refl;
  checked_add_lem = λ a b p q. refl;
  checked_div_lem = λ a b p q. refl;
  try_to_u128_lem = λ a p. refl;
}
