-- ===== src/Accumulator/Batch/Orders.antt =====
-- Which orders a batch keeps for each index.

use vendor.Base.{
  ℕ, ◌+◌, ◌≤◌, ◌<◌, ◌≡◌, ◌⊎◌, inl, inr, refl, List, [], ◌∷◌, ◌++◌, Option, none, some, true, ltb,
  nat_beq, if◌then◌else◌, unwrap_or, arith, Option-cases, Bool-cases, ltb→lt, ltb_false→le, returns,
  panics,
}
use vendor.Base.Map.{Map, nat_eq, lookup, insert, lookup-insert}
use vendor.Uint256.{Uint256, u128_mod}
use vendor.Amount.{IsAmount}
use vendor.Accumulator.Batch.{
  OrderAction, deposit, withdraw, IndexOrder, IndividualOrderInfo, IndexState, new_index,
  OrderBatch, new_with_block, update_block, is_empty, touch_index, add_order,
}
use vendor.Accumulator.Batch.Totals.{
  Agrees, new_index-Agrees, action_amount, total_for, info_of, touch_index-Agrees, acted,
  acted-Agrees, add_action_lem,
}

-- Every index of a batch agrees with its orders.
abbrev pub AllAgree : Map ℕ IndexState → Type 0
AllAgree [] = Unit
AllAgree ((_, s) ∷ m) = Agrees s × AllAgree m

pub insert-AllAgree :
    (k : ℕ) (s : IndexState) (m : Map ℕ IndexState)
    → Agrees s
    → AllAgree m
    → AllAgree (insert k s m)
insert-AllAgree k s [] a all = (a, tt)
insert-AllAgree k s ((j, t) ∷ m) a all = ground (arith, insert-AllAgree k s m a all.1)

pub lookup-Agrees :
    (k : ℕ) (m : Map ℕ IndexState) {s : IndexState} → AllAgree m → lookup k m ≡ some s → Agrees s
lookup-Agrees k [] all e = cc
lookup-Agrees k ((j, t) ∷ m) {s = s} all e = ground (arith, lookup-Agrees k m {s = s} all.1)

-- The state that an order is added to, and the orders kept for an index.
abbrev pub state_for : ℕ → ℕ → OrderBatch → IndexState
state_for now k b = unwrap_or (lookup k b.indices) (new_index now k)

abbrev pub orders_of : ℕ → OrderBatch → List IndividualOrderInfo
orders_of k b = elim (lookup k b.indices) [ none ↦ [] | some s ↦ s.individual_orders ]

pub state_for-Agrees :
    (now k : ℕ) (b : OrderBatch) → AllAgree b.indices → Agrees (state_for now k b)
state_for-Agrees now k b all = elim (Option-cases (lookup k b.indices)) [
  | inl none_yet ↦ rw none_yet (new_index-Agrees now k)
  | inr (s, e) ↦ rw e (lookup-Agrees k b.indices all e)
]

pub touch_index-total :
    (order : IndexOrder) (action : OrderAction) (s : IndexState)
    → total_for action (touch_index order s) ≡ total_for action s
unfolding touch_index
touch_index-total order (deposit user amount) s = refl
touch_index-total order (withdraw user amount) s = refl

pub acted-orders :
    (now : ℕ) (trader : Option ℕ) (action : OrderAction) (order : IndexOrder) (s : IndexState)
    → (acted now trader action (touch_index order s)).individual_orders
      ≡ s.individual_orders ++ info_of trader action ∷ []
unfolding touch_index
acted-orders now trader (deposit user amount) order s = refl
acted-orders now trader (withdraw user amount) order s = refl

pub state_for-orders :
    (now k : ℕ) (b : OrderBatch) → (state_for now k b).individual_orders ≡ orders_of k b
unfolding new_index
state_for-orders now k b = ground arith

-- The batch with an order in it.
abbrev pub added : ℕ → IndexOrder → OrderBatch → OrderBatch
added now order b =
    let s =
      acted now order.trader_address order.action
        (touch_index order (state_for now order.index_id b)) in
    record b { indices = insert order.index_id s b.indices }

pub added-orders :
    (now j : ℕ) (order : IndexOrder) (b : OrderBatch)
    → orders_of j (added now order b) ≡ (
        if nat_beq order.index_id j
        then orders_of j b ++ info_of order.trader_address order.action ∷ []
        else orders_of j b)
added-orders now j order b = ground (
  arith,
  lookup-insert order.index_id j
      (acted now order.trader_address order.action
        (touch_index order (state_for now order.index_id b)))
      b.indices,
  acted-orders now order.trader_address order.action order (state_for now order.index_id b),
  state_for-orders now order.index_id b,
)

-- An order whose total fits an amount is accepted: the batch keeps it as the last one of its
-- index, the orders of all other indices stay, and the totals of every index agree with its
-- orders again. An order whose total does not fit makes the call panic.
pub add_order_lem :
    ⦃u : Uint256⦄ (now j : ℕ) (order : IndexOrder) (b : OrderBatch)
    → AllAgree b.indices
    → IsAmount (action_amount order.action)
    → let total = total_for order.action (state_for now order.index_id b) in
      ((total + action_amount order.action < u128_mod)
        × (add_order now order b ≡ returns (added now order b))
        × AllAgree (added now order b).indices
        × (orders_of j (added now order b) ≡ (
            if nat_beq order.index_id j
            then orders_of j b ++ info_of order.trader_address order.action ∷ []
            else orders_of j b)))
      ⊎ ((u128_mod ≤ total + action_amount order.action) × (add_order now order b ≡ panics))
unfolding add_order
add_order_lem now j order b all fit =
    let old = state_for now order.index_id b in
    let touched = touch_index order old in
    let agrees = touch_index-Agrees order old (state_for-Agrees now order.index_id b all) in
    let same = touch_index-total order order.action old in
    let act = add_action_lem now order.trader_address order.action touched agrees fit in
    elim (Bool-cases (ltb (total_for order.action touched + action_amount order.action) u128_mod)) [
      | inl fits_it ↦
          let room : total_for order.action touched + action_amount order.action < u128_mod =
            ltb→lt _ _ fits_it in
          inl (
            omega (arith, same, room),
            rw (act, fits_it),
            insert-AllAgree order.index_id _ b.indices
                (acted-Agrees now order.trader_address order.action touched agrees room) all,
            added-orders now j order b,
          )
      | inr over ↦ inr (omega (arith, same, ltb_false→le _ _ over), rw (act, over))
    ]

pub new_with_block-orders :
    (now window block j : ℕ)
    → (orders_of j (new_with_block now window block) ≡ [])
      × AllAgree (new_with_block now window block).indices
unfolding new_with_block
new_with_block-orders now window block j = (refl, tt)

pub update_block-indices : (block : ℕ) (b : OrderBatch) → (update_block block b).indices ≡ b.indices
unfolding update_block
update_block-indices block b = refl

pub is_empty-orders : (j : ℕ) (b : OrderBatch) → is_empty b ≡ true → orders_of j b ≡ []
unfolding is_empty
is_empty-orders j b h = ground arith
