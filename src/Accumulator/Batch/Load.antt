-- ===== src/Accumulator/Batch/Load.antt =====
-- `OrderBatch` (bin/keeper/src/accumulator/types.rs): the amounts in a batch against its totals.

use vendor.Base.{ℕ, ◌+◌, ◌≤◌, ◌≡◌, refl, [], ◌∷◌, Option, none, some, arith}
use vendor.Base.Map.{Map, nat_eq, lookup, insert}
use vendor.Accumulator.Batch.{
  OrderAction, deposit, withdraw, IndexOrder, IndexState, new_index, OrderBatch, new_with_block,
  touch_index,
}
use vendor.Accumulator.Batch.Totals.{action_amount, total_for, acted}
use vendor.Accumulator.Batch.Orders.{state_for, added}

-- The amounts in a batch, over all its indices.
abbrev pub load : Map ℕ IndexState → ℕ
load [] = 0
load ((_, s) ∷ m) = s.total_deposits + s.total_withdrawals + load m

abbrev pub load_at : ℕ → Map ℕ IndexState → ℕ
load_at k m = elim (lookup k m) [ none ↦ 0 | some s ↦ s.total_deposits + s.total_withdrawals ]

pub load-insert :
    (k : ℕ) (s : IndexState) (m : Map ℕ IndexState)
    → load (insert k s m) + load_at k m ≡ load m + s.total_deposits + s.total_withdrawals
load-insert k s [] = omega arith
load-insert k s ((j, t) ∷ m) = ground (arith, load-insert k s m)

pub load_at-le : (k : ℕ) (m : Map ℕ IndexState) → load_at k m ≤ load m
load_at-le k [] = omega arith
load_at-le k ((j, t) ∷ m) = ground (arith, load_at-le k m)

pub state_for-load :
    (now k : ℕ) (b : OrderBatch)
    → (state_for now k b).total_deposits + (state_for now k b).total_withdrawals
      ≡ load_at k b.indices
unfolding new_index
state_for-load now k b = ground arith

pub total_for-le :
    (action : OrderAction) (s : IndexState)
    → total_for action s ≤ s.total_deposits + s.total_withdrawals
total_for-le (deposit user amount) s = omega arith
total_for-le (withdraw user amount) s = omega arith

pub acted-load :
    (now : ℕ) (trader : Option ℕ) (action : OrderAction) (order : IndexOrder) (s : IndexState)
    → let s' = acted now trader action (touch_index order s) in
      s'.total_deposits + s'.total_withdrawals
      ≡ s.total_deposits + s.total_withdrawals + action_amount action
unfolding touch_index
acted-load now trader (deposit user amount) order s = omega arith
acted-load now trader (withdraw user amount) order s = omega arith

pub total_for-le-load :
    (now : ℕ) (order : IndexOrder) (b : OrderBatch)
    → total_for order.action (state_for now order.index_id b) ≤ load b.indices
total_for-le-load now order b = ground (
  arith,
  total_for-le order.action (state_for now order.index_id b),
  state_for-load now order.index_id b,
  load_at-le order.index_id b.indices,
)

pub added-load :
    (now : ℕ) (order : IndexOrder) (b : OrderBatch)
    → load (added now order b).indices ≡ load b.indices + action_amount order.action
added-load now order b =
    let s =
      acted now order.trader_address order.action
        (touch_index order (state_for now order.index_id b)) in
    omega (
      arith,
      load-insert order.index_id s b.indices,
      acted-load now order.trader_address order.action order (state_for now order.index_id b),
      state_for-load now order.index_id b,
    )

pub new_with_block-load :
    (now window block : ℕ) → load (new_with_block now window block).indices ≡ 0
unfolding new_with_block
new_with_block-load now window block = refl
