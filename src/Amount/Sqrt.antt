-- ===== src/Amount/Sqrt.antt =====
-- `sqrt_u256` and `checked_sqrt` of libs/common/src/amount.rs: Newton's iteration from above.
use vendor.Base.{
  ℕ, zero, suc, ◌+◌, ◌-◌, ◌*◌, ◌/◌, ◌^◌, ◌≤◌, ◌<◌, ◌≡◌, refl, ◌⊎◌, inl, inr, none, some, false,
  arith, ltb, nat_beq, and_then, Bool-cases, tests,
}
use vendor.Uint256.{Uint256, u256_mod}
use vendor.Amount.{
  IsAmount, scale, scale_sqrt, convert_from_u128, sqrt_loop, sqrt_u256, checked_sqrt,
}
use vendor.Amount.Arith.{convert_from_u128_lem, try_convert_to_u128_lem}

-- `r` is the floor of the square root of `n`.
abbrev pub IsFloorSqrt : ℕ → ℕ → Type 0
IsFloorSqrt n r = (r * r ≤ n) × (n < (r + 1) * (r + 1))

le_cases : (a b : ℕ) → (a ≤ b) ⊎ (b ≤ a)
le_cases a b = grind arith

four_mul_ordered : (x d : ℕ) → 4 * (x * (x + d)) ≤ (x + (x + d)) * (x + (x + d))
four_mul_ordered x d = omega arith

-- Four times a product is at most the square of the sum.
four_mul-le : (a b : ℕ) → 4 * (a * b) ≤ (a + b) * (a + b)
four_mul-le a b = elim (le_cases a b) [
  | inl h ↦ let e : b ≡ a + (b - a) = omega arith in rw e (four_mul_ordered a (b - a))
  | inr h ↦
      let e : a ≡ b + (a - b) = omega arith in rw e (omega (arith, four_mul_ordered b (a - b)))
]

square_mono : (a b : ℕ) → a ≤ b → a * a ≤ b * b
square_mono a b h = grind arith

quotient_above : (n x : ℕ) → 0 < x → n < (n / x + 1) * x
quotient_above n x h = grind arith

-- One step of the iteration stays above the root.
step_above : (n x : ℕ) → 0 < x → n < ((n / x + x) / 2 + 1) * ((n / x + x) / 2 + 1)
step_above n x h =
    let q = n / x in
    let y = (q + x) / 2 in
    omega (
      arith,
      quotient_above n x h,
      four_mul-le (q + 1) x,
      square_mono (q + 1 + x) (2 * (y + 1)) (omega arith),
    )

-- The loop stops only below the root.
stop_below : (n x : ℕ) → 0 < x → x ≤ (n / x + x) / 2 → x * x ≤ n
stop_below n x h le = grind arith

sum-le-product : (a b : ℕ) → 0 < a → 0 < b → a + b ≤ a * b + 1
sum-le-product (suc a) (suc b) p q = omega arith
sum-le-product zero b p q = absurd (omega arith)
sum-le-product (suc a) zero p q = absurd (omega arith)

quotient_below : (n x : ℕ) → 0 < x → n / x * x ≤ n
quotient_below n x p = grind arith

quotient_pos : (n x : ℕ) → 0 < x → x ≤ n → 0 < n / x
quotient_pos n x p q = grind arith

sum_bound : (n x : ℕ) → 0 < x → x ≤ n → n / x + x ≤ n + 1
sum_bound n x p q =
    omega (arith, sum-le-product (n / x) x (quotient_pos n x p q) p, quotient_below n x p)

estimate_pos : (n x : ℕ) → 0 < x → x ≤ n → 0 < (n / x + x) / 2
estimate_pos n x p q = grind arith

self_quotient : (n : ℕ) → 0 < n → n / n ≡ 1
self_quotient n p = grind arith

root-lt : (r a : ℕ) → r * r ≤ a → IsAmount a → r < 2 ^ 64
root-lt r a p q = grind arith

suc-ne-zero : (m : ℕ) → nat_beq (suc m) 0 ≡ false
suc-ne-zero m = ground arith

module _ ⦃u : Uint256⦄ where
  -- The body of the loop, and the first estimate, do not overflow.
  next_step :
      (n x : ℕ)
      → n + 1 < u256_mod
      → 0 < x
      → x ≤ n
      → and_then
          (u.checked_div n x)
          (λ q. and_then (u.checked_add q x) (λ s. u.checked_div s (convert_from_u128 2)))
        ≡ some ((n / x + x) / 2)
  next_step n x h p q =
      rw (convert_from_u128_lem 2 (omega arith), u.checked_div_lem n x (omega arith) (omega arith))
        (ground
          (arith, sum_bound n x p q, u.checked_add_lem (n / x) x, u.checked_div_lem (n / x + x) 2))

  loop_ends :
      (fuel n x : ℕ)
      → n + 1 < u256_mod
      → 0 < x
      → x ≤ n
      → n < (x + 1) * (x + 1)
      → x < fuel
      → (r : ℕ) × (sqrt_loop fuel n x ((n / x + x) / 2) ≡ some (some r)) × IsFloorSqrt n r
  unfolding sqrt_loop
  loop_ends zero n x h p q above f = absurd (omega arith)
  loop_ends (suc fuel) n x h p q above f = elim (Bool-cases (ltb ((n / x + x) / 2) x)) [
    | inl more ↦
        let y = (n / x + x) / 2 in
        let y_pos : 0 < y = estimate_pos n x p q in
        let (r, e, floor) =
          loop_ends fuel n y h y_pos (omega (tests, more)) (step_above n x p)
            (omega (tests, more)) in
        (r, rw (more, sqrt_loop, next_step n y h y_pos (omega (tests, more))) e, floor)
    | inr done ↦ (x, rw (done, sqrt_loop), (stop_below n x p (ground arith), above))
  ]

  first_estimate :
      (n : ℕ)
      → n + 1 < u256_mod
      → 0 < n
      → and_then (u.checked_add 1 n) (λ s. u.checked_div s (convert_from_u128 2))
        ≡ some ((n / n + n) / 2)
  first_estimate n h p =
      rw (convert_from_u128_lem 2 (omega arith))
        (ground (arith, self_quotient n p, u.checked_add_lem 1 n, u.checked_div_lem (1 + n) 2))

  -- For every `n` below the largest `U256` the function returns, and its result is the floor of
  -- the square root of `n`.
  pub sqrt_u256-IsFloorSqrt :
      (n : ℕ) → n + 1 < u256_mod → (r : ℕ) × (sqrt_u256 n ≡ some (some r)) × IsFloorSqrt n r
  unfolding sqrt_u256
  sqrt_u256-IsFloorSqrt zero h = (0, refl, (omega arith, omega arith))
  sqrt_u256-IsFloorSqrt (suc m) h =
      let n = suc m in
      let (r, e, floor) =
        loop_ends (suc n) n n h (omega arith) (omega arith) (omega arith) (omega arith) in
      (r, rw (suc-ne-zero m, first_estimate n h (omega arith), sqrt_u256) e, floor)

  -- The largest `U256` is the one input without a root: adding one to it overflows.
  pub sqrt_u256_overflow : sqrt_u256 (u256_mod - 1) ≡ some none
  unfolding sqrt_u256
  sqrt_u256_overflow = rw (u.checked_add_lem 1 (u256_mod - 1) (omega arith) (omega arith))

  -- `checked_sqrt` of an amount always returns an amount `r`: the square root of the fixed-point
  -- value, cut to a multiple of `scale_sqrt`, so its square is at most `a * scale`, and the next
  -- multiple's square is more.
  pub checked_sqrt_bounds :
      (a : ℕ)
      → IsAmount a
      → (r : ℕ) × (checked_sqrt a ≡ some (some r))
        × (r * r ≤ a * scale)
        × (a * scale < (r + scale_sqrt) * (r + scale_sqrt))
  unfolding checked_sqrt
  checked_sqrt_bounds a h =
      let (root, e, floor) = sqrt_u256-IsFloorSqrt a (omega arith) in
      let small : root < 2 ^ 64 = root-lt root a floor.0 h in
      (
        root * scale_sqrt,
        rw (convert_from_u128_lem a h, e, convert_from_u128_lem scale_sqrt (omega arith))
            (ground
              (arith, u.mul_lem root scale_sqrt, try_convert_to_u128_lem (root * scale_sqrt))),
        omega (arith, floor.0),
        omega (arith, floor.1),
      )
