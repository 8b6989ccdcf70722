-- ===== src/Accumulator/Batch/Totals.antt =====
-- `IndexState` (bin/keeper/src/accumulator/types.rs): its totals against the orders that it keeps.

use vendor.Base.{
  ℕ, ◌+◌, ◌-◌, ◌≤◌, ◌≡◌, List, [], ◌∷◌, ◌++◌, Option, Bool, true, false, not, ltb, if◌then◌else◌,
  unwrap_or, arith, length, length-append, returns, panics,
}
use vendor.Base.Map.{nat_eq}
use vendor.Uint256.{Uint256, u128_mod}
use vendor.Amount.{IsAmount}
use vendor.Amount.Arith.{checked_add_lem, checked_sub_lem}
use vendor.Accumulator.Batch.{
  OrderAction, deposit, withdraw, IndexOrder, IndividualOrderInfo, IndexState, new_index,
  touch_index, push_order, add_deposit, add_withdrawal, add_action,
}

abbrev pub is_side : Bool → Bool → Bool
is_side true is_buy = is_buy
is_side false is_buy = not is_buy

-- The amounts of the buys, or of the sells, among individual orders, and their number.
abbrev pub sum_of : Bool → List IndividualOrderInfo → ℕ
sum_of side [] = 0
sum_of side (o ∷ os) = (if is_side side o.is_buy then o.amount else 0) + sum_of side os

abbrev pub number_of : Bool → List IndividualOrderInfo → ℕ
number_of side [] = 0
number_of side (o ∷ os) = (if is_side side o.is_buy then 1 else 0) + number_of side os

pub record Agrees (s : IndexState) : Type 0 where
  pub deposits : s.total_deposits ≡ sum_of true s.individual_orders
  pub withdrawals : s.total_withdrawals ≡ sum_of false s.individual_orders
  pub deposit_number : s.deposit_count ≡ number_of true s.individual_orders
  pub withdrawal_number : s.withdrawal_count ≡ number_of false s.individual_orders
  pub number : s.order_count ≡ length s.individual_orders
  pub net_below : s.net_collateral_change ≤ s.total_deposits
  pub deposits_fit : IsAmount s.total_deposits
  pub withdrawals_fit : IsAmount s.total_withdrawals

pub sum_of-append :
    (side : Bool) (xs ys : List IndividualOrderInfo)
    → sum_of side (xs ++ ys) ≡ sum_of side xs + sum_of side ys
sum_of-append side [] ys = omega arith
sum_of-append side (x ∷ xs) ys = omega (arith, sum_of-append side xs ys)

pub number_of-append :
    (side : Bool) (xs ys : List IndividualOrderInfo)
    → number_of side (xs ++ ys) ≡ number_of side xs + number_of side ys
number_of-append side [] ys = omega arith
number_of-append side (x ∷ xs) ys = omega (arith, number_of-append side xs ys)

pub new_index-Agrees : (now index_id : ℕ) → Agrees (new_index now index_id)
unfolding new_index
new_index-Agrees now index_id = ground arith

abbrev pub action_amount : OrderAction → ℕ
action_amount (deposit user amount) = amount
action_amount (withdraw user amount) = amount

-- The total that an order is added to.
abbrev pub total_for : OrderAction → IndexState → ℕ
total_for (deposit user amount) s = s.total_deposits
total_for (withdraw user amount) s = s.total_withdrawals

-- The entry that an order leaves for the settlement.
abbrev pub info_of : Option ℕ → OrderAction → IndividualOrderInfo
info_of trader (deposit user amount) = record {
  trader_address = unwrap_or trader 0;
  amount = amount;
  is_buy = true;
}
info_of trader (withdraw user amount) = record {
  trader_address = unwrap_or trader 0;
  amount = amount;
  is_buy = false;
}

pub touch_index-Agrees :
    (order : IndexOrder) (s : IndexState) → Agrees s → Agrees (touch_index order s)
unfolding touch_index
touch_index-Agrees order s a = record {
  deposits = a.deposits;
  withdrawals = a.withdrawals;
  deposit_number = a.deposit_number;
  withdrawal_number = a.withdrawal_number;
  number = a.number;
  net_below = a.net_below;
  deposits_fit = a.deposits_fit;
  withdrawals_fit = a.withdrawals_fit;
}

-- The state of an index after an action whose total does not overflow.
abbrev pub acted : ℕ → Option ℕ → OrderAction → IndexState → IndexState
acted now trader (deposit user amount) s = push_order trader amount true (record s {
  total_deposits = s.total_deposits + amount;
  net_collateral_change = s.net_collateral_change + amount;
  order_count = s.order_count + 1;
  deposit_count = s.deposit_count + 1;
  last_order_time = now;
})
acted now trader (withdraw user amount) s = push_order trader amount false (record s {
  total_withdrawals = s.total_withdrawals + amount;
  net_collateral_change = s.net_collateral_change - amount;
  order_count = s.order_count + 1;
  withdrawal_count = s.withdrawal_count + 1;
  last_order_time = now;
})

pub acted-Agrees :
    (now : ℕ) (trader : Option ℕ) (action : OrderAction) (s : IndexState)
    → Agrees s
    → IsAmount (total_for action s + action_amount action)
    → Agrees (acted now trader action s)
acted-Agrees now trader (deposit user amount) s a fit =
    let info = info_of trader (deposit user amount) ∷ [] in
    ground (
      arith,
      sum_of-append true s.individual_orders info,
      sum_of-append false s.individual_orders info,
      number_of-append true s.individual_orders info,
      number_of-append false s.individual_orders info,
      length-append s.individual_orders info,
    )
acted-Agrees now trader (withdraw user amount) s a fit =
    let info = info_of trader (withdraw user amount) ∷ [] in
    ground (
      arith,
      sum_of-append true s.individual_orders info,
      sum_of-append false s.individual_orders info,
      number_of-append true s.individual_orders info,
      number_of-append false s.individual_orders info,
      length-append s.individual_orders info,
    )

module _ ⦃u : Uint256⦄ (now : ℕ) (trader : Option ℕ) where
  -- An action panics exactly where its total overflows.
  pub add_action_lem :
      (action : OrderAction) (s : IndexState)
      → Agrees s
      → IsAmount (action_amount action)
      → add_action now trader action s ≡ (
          if ltb (total_for action s + action_amount action) u128_mod
          then returns (acted now trader action s)
          else panics)
  unfolding add_action add_deposit add_withdrawal
  add_action_lem (deposit user amount) s a fit = ground (
    arith,
    checked_add_lem s.total_deposits amount a.deposits_fit fit,
    checked_add_lem s.net_collateral_change amount,
  )
  add_action_lem (withdraw user amount) s a fit = ground (
    arith,
    checked_add_lem s.total_withdrawals amount a.withdrawals_fit fit,
    checked_sub_lem s.net_collateral_change amount,
  )
