-- ===== src/Buffer/Costs/Ledger.antt =====
-- `AcquisitionCostTracker` (bin/vendor/src/buffer/cost_tracker.rs): its totals against the sums over
-- the assets.
use vendor.Base.{
  ℕ, ◌+◌, ◌-◌, ◌*◌, ◌/◌, ◌≤◌, ◌<◌, ◌≡◌, refl, ap, [], ◌∷◌, some, inl, inr, Bool-cases, ltb, ltb→lt,
  ltb_false→le, nat_beq, if◌then◌else◌, unwrap_or, arith, returns,
}
use vendor.Base.Map.{Map, nat_eq, lookup, insert, lookup-insert}
use vendor.Uint256.{Uint256, u64_mod, u128_mod}
use vendor.Amount.{IsAmount, scale, checked_sub, checked_mul, checked_div}
use vendor.Amount.Arith.{fits, checked_add_lem, checked_sub_lem, checked_mul_lem, checked_div_lem}
use vendor.Buffer.Costs.{
  AssetCost, no_cost, OrderFill, OrderBookSnapshot, AcquisitionCostTracker, add_or_keep, mid_price,
  spread, half_spread, slippage_of, book_costs, record_fill, two_units, or_zero,
}

-- The sum of a part of the costs over the assets.
abbrev pub over_assets : (AssetCost → ℕ) → Map ℕ AssetCost → ℕ
over_assets f [] = 0
over_assets f ((_, c) ∷ m) = f c + over_assets f m

-- What the map holds for one asset.
abbrev pub stored : (AssetCost → ℕ) → ℕ → Map ℕ AssetCost → ℕ
stored f k m = f (unwrap_or (lookup k m) no_cost)

over_assets-insert :
    (f : AssetCost → ℕ) (k : ℕ) (c : AssetCost) (m : Map ℕ AssetCost)
    → f no_cost ≡ 0
    → over_assets f (insert k c m) + stored f k m ≡ over_assets f m + f c
over_assets-insert f k c [] z = omega (arith, z)
over_assets-insert f k c ((j, d) ∷ m) z = elim (Bool-cases (nat_beq j k)) [
  | inl here ↦ rw here (omega arith)
  | inr other ↦ rw other (omega (arith, over_assets-insert f k c m z))
]

stored-le :
    (f : AssetCost → ℕ) (k : ℕ) (m : Map ℕ AssetCost)
    → f no_cost ≡ 0
    → stored f k m ≤ over_assets f m
stored-le f k [] z = omega (arith, z)
stored-le f k ((j, d) ∷ m) z = elim (Bool-cases (nat_beq j k)) [
  | inl here ↦ rw here (omega arith)
  | inr other ↦ rw other (omega (arith, stored-le f k m z))
]

-- The totals are the sums over the assets, and the count of fills is too.
pub record Sums (t : AcquisitionCostTracker) : Type 0 where
  pub spreads : t.total_spread_cost ≡ over_assets (λ c. c.spread_cost) t.per_asset_costs
  pub fees : t.total_fees ≡ over_assets (λ c. c.fees) t.per_asset_costs
  pub slippages : t.total_slippage ≡ over_assets (λ c. c.slippage) t.per_asset_costs
  pub fills : t.order_count ≡ over_assets (λ c. c.fill_count) t.per_asset_costs

-- A fill and a snapshot of the book in amounts.
abbrev pub InRange : OrderFill → OrderBookSnapshot → Type 0
InRange fill book =
    IsAmount fill.avg_fill_price
    × IsAmount fill.quantity
    × IsAmount fill.fee
    × IsAmount book.best_bid
    × IsAmount book.best_ask

-- What a fill costs, in natural numbers: a price difference times the quantity, or nothing where
-- that is too large for an amount.
abbrev pub charge : ℕ → ℕ → ℕ
charge difference quantity = unwrap_or (fits (difference * quantity / scale)) 0

abbrev pub middle : OrderBookSnapshot → ℕ
middle book =
    if ltb (book.best_bid + book.best_ask) u128_mod then (book.best_bid + book.best_ask) / 2 else 0

abbrev pub spread_charge : OrderFill → OrderBookSnapshot → ℕ
spread_charge fill book = charge ((book.best_ask - book.best_bid) / 2) fill.quantity

abbrev pub slippage_charge : OrderFill → OrderBookSnapshot → ℕ
slippage_charge fill book =
    charge ((fill.avg_fill_price - middle book) + (middle book - fill.avg_fill_price)) fill.quantity

-- The entry of the asset of a fill, after the fill.
pub record IsCharged (fill : OrderFill) (book : OrderBookSnapshot) (m : Map ℕ AssetCost)
    (c : AssetCost) : Type 0 where
  pub spreads :
      c.spread_cost ≡ stored (λ c. c.spread_cost) fill.asset_id m + spread_charge fill book
  pub fees : c.fees ≡ stored (λ c. c.fees) fill.asset_id m + fill.fee
  pub slippages : c.slippage ≡ stored (λ c. c.slippage) fill.asset_id m + slippage_charge fill book
  pub fills : c.fill_count ≡ stored (λ c. c.fill_count) fill.asset_id m + 1

module _ ⦃u : Uint256⦄ where
  halved : (v : ℕ) → IsAmount v → checked_div v two_units ≡ returns (some (v / 2))
  halved v fit = ground (arith, checked_div_lem v two_units fit (omega arith))

  charged :
      (d quantity : ℕ)
      → IsAmount d
      → IsAmount quantity
      → or_zero (checked_mul d quantity) ≡ returns (charge d quantity)
  charged d quantity p q = ap or_zero (checked_mul_lem d quantity p q)

  mid_price_lem :
      (book : OrderBookSnapshot)
      → IsAmount book.best_bid
      → IsAmount book.best_ask
      → mid_price book ≡ returns (middle book)
  unfolding mid_price
  mid_price_lem book p q = elim (Bool-cases (ltb (book.best_bid + book.best_ask) u128_mod)) [
    | inl room ↦
        rw (checked_add_lem book.best_bid book.best_ask p q, room)
          (ap or_zero (halved (book.best_bid + book.best_ask) (ltb→lt _ _ room)))
    | inr over ↦ rw (checked_add_lem book.best_bid book.best_ask p q, over) refl
  ]

  half_spread_lem :
      (book : OrderBookSnapshot)
      → IsAmount book.best_bid
      → IsAmount book.best_ask
      → half_spread book ≡ returns ((book.best_ask - book.best_bid) / 2)
  unfolding half_spread spread
  half_spread_lem book p q =
      let known : unwrap_or (checked_sub book.best_ask book.best_bid) 0
          ≡ book.best_ask - book.best_bid =
        ground (arith, checked_sub_lem book.best_ask book.best_bid q p) in
      rw known (ap or_zero (halved (book.best_ask - book.best_bid) (omega arith)))

  slippage_of_lem :
      (mid : ℕ) (fill : OrderFill)
      → IsAmount mid
      → IsAmount fill.avg_fill_price
      → IsAmount fill.quantity
      → slippage_of mid fill
        ≡ returns (charge ((fill.avg_fill_price - mid) + (mid - fill.avg_fill_price)) fill.quantity)
  unfolding slippage_of
  slippage_of_lem mid fill m p q = elim (Bool-cases (ltb mid fill.avg_fill_price)) [
    | inl above ↦
        let gap : checked_sub fill.avg_fill_price mid
            ≡ some ((fill.avg_fill_price - mid) + (mid - fill.avg_fill_price)) =
          ground (arith, checked_sub_lem fill.avg_fill_price mid p m) in
        rw (above, gap)
          (charged _ fill.quantity (omega (arith, ltb→lt mid fill.avg_fill_price above)) q)
    | inr below ↦
        let gap : checked_sub mid fill.avg_fill_price
            ≡ some ((fill.avg_fill_price - mid) + (mid - fill.avg_fill_price)) =
          ground (arith, checked_sub_lem mid fill.avg_fill_price m p) in
        rw (below, gap)
          (charged _ fill.quantity (omega (arith, ltb_false→le mid fill.avg_fill_price below)) q)
  ]

  -- No fill makes `record_fill` panic.
  record_fill_lem :
      (fill : OrderFill) (book : OrderBookSnapshot) (t : AcquisitionCostTracker)
      → InRange fill book
      → record_fill fill book t
        ≡ returns (book_costs fill (slippage_charge fill book) (spread_charge fill book) t)
  unfolding record_fill
  record_fill_lem fill book t (p, q, f, b, a) =
      rw
        (
          mid_price_lem book b a,
          half_spread_lem book b a,
          slippage_of_lem (middle book) fill (ground arith) p q,
          charged ((book.best_ask - book.best_bid) / 2) fill.quantity (omega arith) q,
        )
        refl

  kept : (total amount : ℕ) → IsAmount (total + amount) → add_or_keep total amount ≡ total + amount
  unfolding add_or_keep
  kept total amount fit = ground (arith, checked_add_lem total amount (omega arith) (omega arith))

  -- One counter: what is added to the total is added to the entry of the asset.
  counter_sums :
      (f : AssetCost → ℕ) (k total amount : ℕ) (c : AssetCost) (m : Map ℕ AssetCost)
      → f no_cost ≡ 0
      → total ≡ over_assets f m
      → IsAmount (total + amount)
      → f c ≡ add_or_keep (stored f k m) amount
      → add_or_keep total amount ≡ over_assets f (insert k c m)
  counter_sums f k total amount c m z same fit e = omega (
    arith,
    kept total amount fit,
    kept (stored f k m) amount (omega (arith, stored-le f k m z)),
    over_assets-insert f k c m z,
    stored-le f k m z,
  )

  -- The same for the entry of the asset alone.
  entry_kept :
      (f : AssetCost → ℕ) (k total amount : ℕ) (m : Map ℕ AssetCost)
      → f no_cost ≡ 0
      → total ≡ over_assets f m
      → IsAmount (total + amount)
      → add_or_keep (stored f k m) amount ≡ stored f k m + amount
  entry_kept f k total amount m z same fit =
      kept (stored f k m) amount (omega (arith, stored-le f k m z))

  -- A fill in amounts never makes `record_fill` panic. It adds half the spread and the distance of
  -- the price from the middle, each times the quantity, and the fee to the totals and to the entry
  -- of its asset, which counts one fill more, and leaves the other entries alone. A product that
  -- does not fit an `Amount` counts as zero, and so does the middle of two prices whose sum does
  -- not. So where the totals were the sums over all assets, they are again, as long as they fit an
  -- `Amount` and the count of fills a `u64`.
  pub record_fill-Sums :
      (fill : OrderFill) (book : OrderBookSnapshot) (t : AcquisitionCostTracker) (j : ℕ)
      → InRange fill book
      → Sums t
      → IsAmount (t.total_spread_cost + spread_charge fill book)
      → IsAmount (t.total_fees + fill.fee)
      → IsAmount (t.total_slippage + slippage_charge fill book)
      → t.order_count + 1 < u64_mod
      → (t' : AcquisitionCostTracker) × (record_fill fill book t ≡ returns t')
        × Sums t'
        × (t'.total_spread_cost ≡ t.total_spread_cost + spread_charge fill book)
        × (t'.total_fees ≡ t.total_fees + fill.fee)
        × (t'.total_slippage ≡ t.total_slippage + slippage_charge fill book)
        × (c : AssetCost) × IsCharged fill book t.per_asset_costs c
        × (lookup j t'.per_asset_costs
            ≡ (if nat_beq fill.asset_id j then some c else lookup j t.per_asset_costs))
  unfolding book_costs
  record_fill-Sums fill book t j range sums fs ff fl fc =
      let m = t.per_asset_costs in
      let k = fill.asset_id in
      let spread_cost = spread_charge fill book in
      let slippage = slippage_charge fill book in
      (
        book_costs fill slippage spread_cost t,
        record_fill_lem fill book t range,
        record {
          spreads =
              counter_sums (λ c. c.spread_cost) k t.total_spread_cost spread_cost _ m refl
                sums.spreads fs refl;
          fees = counter_sums (λ c. c.fees) k t.total_fees fill.fee _ m refl sums.fees ff refl;
          slippages =
              counter_sums (λ c. c.slippage) k t.total_slippage slippage _ m refl sums.slippages fl
                refl;
          fills = omega (
            arith,
            sums.fills,
            over_assets-insert (λ c. c.fill_count) k _ m refl,
            stored-le (λ c. c.fill_count) k m refl,
          );
        },
        kept t.total_spread_cost spread_cost fs,
        kept t.total_fees fill.fee ff,
        kept t.total_slippage slippage fl,
        _,
        record {
          spreads = entry_kept (λ c. c.spread_cost) k _ spread_cost m refl sums.spreads fs;
          fees = entry_kept (λ c. c.fees) k _ fill.fee m refl sums.fees ff;
          slippages = entry_kept (λ c. c.slippage) k _ slippage m refl sums.slippages fl;
          fills = omega (arith, sums.fills, stored-le (λ c. c.fill_count) k m refl);
        },
        lookup-insert k j _ m,
      )
