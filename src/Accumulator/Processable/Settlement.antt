-- ===== src/Accumulator/Processable/Settlement.antt =====
-- `ProcessableBatch` (bin/keeper/src/accumulator/processable.rs): the amounts of the entries and of
-- the orders to settle.
use vendor.Base.{
  ℕ, ◌+◌, ◌≡◌, refl, ap, List, [], ◌∷◌, ◌++◌, Option, true, false, arith, Bool-cases, inl, inr,
  length, length-append,
}
use vendor.Base.Map.{Map, nat_eq}
use vendor.Accumulator.Batch.{IndividualOrderInfo, IndexState, OrderBatch}
use vendor.Accumulator.Batch.Totals.{sum_of}
use vendor.Accumulator.Batch.Orders.{AllAgree}
use vendor.Accumulator.Processable.{
  BuyOrderEntry, SellOrderEntry, SettlementOrder, ProcessableBatch, settle_orders, add_entries,
  split_loop, from_order_batch, settlement_order, unfilled,
}

module _ {ℓ} {A : Type ℓ} (f : A → ℕ) where
  abbrev pub sum_by : List A → ℕ
  sum_by [] = 0
  sum_by (x ∷ xs) = f x + sum_by xs

  sum_by-snoc : (xs : List A) (x : A) → sum_by (xs ++ x ∷ []) ≡ sum_by xs + f x
  sum_by-snoc [] x = omega arith
  sum_by-snoc (y ∷ xs) x = omega (arith, sum_by-snoc xs x)

-- The amounts of the aggregated orders, and of the orders to settle.
abbrev pub bought : ProcessableBatch → ℕ
bought p = sum_by (λ e. e.total_amount) p.buy_orders

abbrev pub sold : ProcessableBatch → ℕ
sold p = sum_by (λ e. e.total_amount) p.sell_orders

abbrev pub settled : List SettlementOrder → ℕ
settled = sum_by (λ o. o.amount)

settle_orders-amounts :
    (index_id : ℕ) (vault : Option ℕ) (infos : List IndividualOrderInfo) (p : ProcessableBatch)
    → let p' = settle_orders index_id vault infos p in
      (settled p'.settlement_buy_orders ≡ settled p.settlement_buy_orders + sum_of true infos)
      × (settled p'.settlement_sell_orders ≡ settled p.settlement_sell_orders + sum_of false infos)
      × (length p'.settlement_buy_orders + length p'.settlement_sell_orders
          ≡ length p.settlement_buy_orders + length p.settlement_sell_orders + length infos)
      × (bought p' ≡ bought p)
      × (sold p' ≡ sold p)
      × (p'.total_orders ≡ p.total_orders)
unfolding settle_orders
settle_orders-amounts index_id vault [] p =
    (omega arith, omega arith, omega arith, refl, refl, refl)
settle_orders-amounts index_id vault (info ∷ infos) p =
    let order = settlement_order index_id vault info in
    elim (Bool-cases info.is_buy) [
      | inl buys ↦
          let p1 = record p { settlement_buy_orders = p.settlement_buy_orders ++ order ∷ [] } in
          let (a, b, c, d, e, f) = settle_orders-amounts index_id vault infos p1 in
          rw buys (
            omega (arith, a, sum_by-snoc (λ o. o.amount) p.settlement_buy_orders order),
            omega (arith, b),
            omega (arith, c, length-append p.settlement_buy_orders (order ∷ [])),
            d,
            e,
            f,
          )
      | inr sells ↦
          let p1 = record p { settlement_sell_orders = p.settlement_sell_orders ++ order ∷ [] } in
          let (a, b, c, d, e, f) = settle_orders-amounts index_id vault infos p1 in
          rw sells (
            omega (arith, a),
            omega (arith, b, sum_by-snoc (λ o. o.amount) p.settlement_sell_orders order),
            omega (arith, c, length-append p.settlement_sell_orders (order ∷ [])),
            d,
            e,
            f,
          )
    ]

add_entries-amounts :
    (index_id : ℕ) (s : IndexState) (p : ProcessableBatch)
    → let p' = add_entries index_id s p in
      (bought p' ≡ bought p + s.total_deposits)
      × (sold p' ≡ sold p + s.total_withdrawals)
      × (p'.total_orders ≡ p.total_orders + s.order_count)
      × (p'.settlement_buy_orders ≡ p.settlement_buy_orders)
      × (p'.settlement_sell_orders ≡ p.settlement_sell_orders)
unfolding add_entries
add_entries-amounts index_id s p =
    let buy : BuyOrderEntry = record {
      index_id = index_id;
      total_amount = s.total_deposits;
      order_count = s.deposit_count;
      vault_address = s.vault_address;
    } in
    let sell : SellOrderEntry = record {
      index_id = index_id;
      total_amount = s.total_withdrawals;
      order_count = s.withdrawal_count;
      vault_address = s.vault_address;
    } in
    (
      ground (arith, sum_by-snoc (λ e. e.total_amount) p.buy_orders buy),
      ground (arith, sum_by-snoc (λ e. e.total_amount) p.sell_orders sell),
      refl,
      refl,
      refl,
    )

-- The aggregated amounts are those of the orders to settle, and every order is counted once.
abbrev pub Balances : ProcessableBatch → Type 0
Balances p =
    (bought p ≡ settled p.settlement_buy_orders)
    × (sold p ≡ settled p.settlement_sell_orders)
    × (p.total_orders ≡ length p.settlement_buy_orders + length p.settlement_sell_orders)

split_loop-Balances :
    (m : Map ℕ IndexState) (p : ProcessableBatch)
    → AllAgree m
    → Balances p
    → Balances (split_loop m p)
unfolding split_loop
split_loop-Balances [] p all b = b
split_loop-Balances ((index_id, s) ∷ m) p all b =
    let p1 = add_entries index_id s p in
    let (a1, b1, c1, d1, e1) = add_entries-amounts index_id s p in
    let (a2, b2, c2, d2, e2, f2) =
      settle_orders-amounts index_id s.vault_address s.individual_orders p1 in
    let agree = all.0 in
    split_loop-Balances m (settle_orders index_id s.vault_address s.individual_orders p1) all.1 (
      omega (arith, a2, d2, a1, b.0, ap settled d1, agree.deposits),
      omega (arith, b2, e2, b1, b.1, ap settled e1, agree.withdrawals),
      omega (arith, c2, f2, c1, b.2, ap length d1, ap length e1, agree.number),
    )

-- In a batch whose totals agree with its orders, the amounts of the aggregated buys are together
-- those of the buys to settle, the same holds for the sells, and every order to settle is
-- counted once.
pub from_order_batch-Balances :
    (now : ℕ) (b : OrderBatch) → AllAgree b.indices → Balances (from_order_batch now b)
unfolding from_order_batch
from_order_batch-Balances now b all =
    split_loop-Balances b.indices (unfilled now b) all (refl, refl, refl)
