-- ===== src/Accumulator/Batch/Tests.antt =====
-- A batch that takes a second order.
use vendor.Base.{ℕ, ◌≡◌, refl, [], ◌∷◌, none, some, true, arith}
use vendor.Base.Map.{nat_eq}
use vendor.Uint256.{reference}
use vendor.Accumulator.Batch.{
  deposit, block_change, IndexOrder, IndexState, OrderBatch, new_index, get_flush_trigger,
  time_trigger, should_flush, total_order_count, orders_in,
}
use vendor.Accumulator.Batch.Totals.{Agrees}

abbrev first_state : IndexState
first_state = record {
  index_id = 1;
  net_collateral_change = 50;
  total_deposits = 50;
  total_withdrawals = 0;
  order_count = 1;
  deposit_count = 1;
  withdrawal_count = 0;
  first_order_time = 4;
  last_order_time = 5;
  vault_address = none;
  individual_orders = record { trader_address = 7; amount = 50; is_buy = true } ∷ [];
}

abbrev one_order : OrderBatch
one_order = record {
  indices = (1, first_state) ∷ [];
  batch_window_ms = 100;
  created_at = 0;
  start_block = 0;
  current_block = 0;
  flush_trigger = none;
}

abbrev second : IndexOrder
second = record {
  index_id = 1;
  action = deposit "alice" 30;
  timestamp = 9;
  vault_address = some 99;
  trader_address = none;
  tx_hash = none;
  correlation_id = none;
}

abbrev first_state-Agrees : Agrees first_state
first_state-Agrees = record {
  deposits = refl;
  withdrawals = refl;
  deposit_number = refl;
  withdrawal_number = refl;
  number = refl;
  net_below = omega arith;
  deposits_fit = omega arith;
  withdrawals_fit = omega arith;
}

abbrev batch_at : ℕ → ℕ → OrderBatch
batch_at start current = record one_order {
  indices = (1, new_index 10 1) ∷ [];
  start_block = start;
  current_block = current;
}

-- A new block is due at once, but not the first one that is seen; otherwise the window decides.
triggers :
    (get_flush_trigger 11 (batch_at 2 3) ≡ some (block_change 2 3))
    × (get_flush_trigger 11 (batch_at 0 3) ≡ none)
    × (should_flush 110 (batch_at 2 2) ≡ true)
    × (total_order_count (batch_at 2 2) ≡ 0)
unfolding get_flush_trigger time_trigger should_flush total_order_count orders_in new_index
triggers = (refl, refl, refl, refl)
