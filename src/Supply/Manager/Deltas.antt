-- ===== src/Supply/Manager/Deltas.antt =====
-- `SupplyManager` (bin/vendor/src/supply/manager.rs): one delta, and the search for the largest.
use Prim.Native.String.{String}
use vendor.Base.{
  ℕ, ◌+◌, ◌-◌, ◌≤◌, ◌<◌, ◌≡◌, ◌⊎◌, inl, inr, refl, sym, [], ◌∷◌, Option, none, some, Bool, true,
  false, ltb, leb, nat_beq, if◌then◌else◌, arith, Bool-cases,
}
use native.Mathlib.Nat.{le_trans}
use vendor.Base.Map.{Map, string_eq}
use vendor.Uint256.{Uint256}
use vendor.Amount.{IsAmount}
use vendor.Amount.Arith.{checked_add_lem, checked_sub_lem}
use vendor.Supply.Asset.{AssetSupply, IsValid}
use vendor.Supply.State.{SupplyState}
use vendor.Supply.Manager.{
  SideDelta, Largest, delta_of, demand_delta, larger, max_loop, calculate_max_delta,
}

module _ ⦃u : Uint256⦄ where
  -- Where neither side overflows, a delta of an asset is (long + demanded short) less (short +
  -- demanded long): its size is the difference, and it is long exactly if that is not negative.
  pub delta_of_lem :
      (s : AssetSupply) (demand_long demand_short : ℕ)
      → IsValid s
      → IsAmount demand_long
      → IsAmount demand_short
      → IsAmount (s.supply_long + demand_short)
      → IsAmount (s.supply_short + demand_long)
      → let left = s.supply_long + demand_short in
        let right = s.supply_short + demand_long in
        delta_of s demand_long demand_short
        ≡ (if leb right left then (true, left - right) else (false, right - left))
  unfolding delta_of
  delta_of_lem s dl ds v p q lf rf = ground (
    arith,
    checked_add_lem s.supply_long ds v.long_fits q,
    checked_add_lem s.supply_short dl v.short_fits p,
    checked_sub_lem (s.supply_long + ds) (s.supply_short + dl) lf rf,
    checked_sub_lem (s.supply_short + dl) (s.supply_long + ds) rf lf,
  )

  module _ (longs shorts : Map String ℕ) (st : SupplyState) where
    -- The deltas of the entries of a part of the map do not exceed `bound`.
    abbrev AtMost : ℕ → Map String AssetSupply → Type 0
    AtMost bound [] = Unit
    AtMost bound ((symbol, s) ∷ rest) =
        ((d : SideDelta) → demand_delta longs shorts st symbol ≡ some d → d.1 ≤ bound)
        × AtMost bound rest

    larger-grows :
        (symbol : String) (o : Option SideDelta) (best : Largest)
        → best.delta ≤ (larger symbol o best).delta
    unfolding larger
    larger-grows symbol none best = omega arith
    larger-grows symbol (some d) best = ground arith

    larger-bounds :
        (symbol : String) (o : Option SideDelta) (best : Largest) (d : SideDelta)
        → o ≡ some d
        → d.1 ≤ (larger symbol o best).delta
    unfolding larger
    larger-bounds symbol none best d e = cc
    larger-bounds symbol (some c) best d e = ground arith

    max_loop-grows :
        (m : Map String AssetSupply) (best : Largest)
        → best.delta ≤ (max_loop longs shorts st m best).delta
    unfolding max_loop
    max_loop-grows [] best = omega arith
    max_loop-grows ((symbol, s) ∷ m) best = omega (
      arith,
      larger-grows symbol (demand_delta longs shorts st symbol) best,
      max_loop-grows m (larger symbol (demand_delta longs shorts st symbol) best),
    )

    AtMost-mono : {a b : ℕ} (m : Map String AssetSupply) → a ≤ b → AtMost a m → AtMost b m
    AtMost-mono [] le h = tt
    AtMost-mono {a} {b} ((symbol, s) ∷ m) le h =
        (λ d e. le_trans (h.0 d e) le, AtMost-mono {a = a} {b = b} m le h.1)

    max_loop-AtMost :
        (m : Map String AssetSupply) (best : Largest)
        → AtMost (max_loop longs shorts st m best).delta m
    unfolding max_loop
    max_loop-AtMost [] best = tt
    max_loop-AtMost ((symbol, s) ∷ m) best =
        let o = demand_delta longs shorts st symbol in
        let next = larger symbol o best in
        (
          λ d e. le_trans (larger-bounds symbol o best d e) (max_loop-grows m next),
          max_loop-AtMost m next,
        )

    -- The best so far is where the search began, or the delta of the symbol that it names.
    abbrev IsFound : Largest → Largest → Type 0
    IsFound start best =
        (best ≡ start)
        ⊎ (demand_delta longs shorts st best.symbol ≡ some (best.is_long, best.delta))

    larger-IsFound :
        (start : Largest) (symbol : String) (o : Option SideDelta) (best : Largest)
        → o ≡ demand_delta longs shorts st symbol
        → IsFound start best
        → IsFound start (larger symbol o best)
    unfolding larger
    larger-IsFound start symbol none best e f = f
    larger-IsFound start symbol (some d) best e f = elim (Bool-cases (ltb best.delta d.1)) [
      | inl more ↦ rw more (inr (sym e))
      | inr less ↦ rw less f
    ]

    max_loop-IsFound :
        (start : Largest) (m : Map String AssetSupply) (best : Largest)
        → IsFound start best
        → IsFound start (max_loop longs shorts st m best)
    unfolding max_loop
    max_loop-IsFound start [] best f = f
    max_loop-IsFound start ((symbol, s) ∷ m) best f =
        max_loop-IsFound start m _ (larger-IsFound start symbol _ best refl f)

    -- What a result of `calculate_max_delta` says: a delta of that symbol which is not zero and
    -- which no other exceeds, or that all deltas are zero.
    abbrev pub IsMaximum : Option (String × Bool × ℕ) → Type 0
    IsMaximum none = AtMost 0 st.supplies
    IsMaximum (some (symbol, is_long, delta)) =
        (demand_delta longs shorts st symbol ≡ some (is_long, delta))
        × (0 < delta)
        × AtMost delta st.supplies

    max-IsMaximum :
        (best : Largest)
        → AtMost best.delta st.supplies
        → (best.delta ≡ 0)
          ⊎ (demand_delta longs shorts st best.symbol ≡ some (best.is_long, best.delta))
        → IsMaximum
            (if nat_beq best.delta 0 then none else some (best.symbol, best.is_long, best.delta))
    max-IsMaximum best bound found = elim (Bool-cases (nat_beq best.delta 0)) [
      | inl zero_delta ↦ rw zero_delta (AtMost-mono st.supplies (ground arith) bound)
      | inr more ↦ rw more (ground arith, ground arith, bound)
    ]

    -- `calculate_max_delta` finds a delta that is as large as every other and is not zero, or
    -- finds none where all are zero.
    pub calculate_max_delta-IsMaximum : IsMaximum (calculate_max_delta longs shorts st)
    unfolding calculate_max_delta
    calculate_max_delta-IsMaximum =
        let start : Largest = record { delta = 0; symbol = ""; is_long = true } in
        max-IsMaximum (max_loop longs shorts st st.supplies start)
          (max_loop-AtMost st.supplies start)
          (ground (arith, max_loop-IsFound start st.supplies start (inl refl)))
