-- ===== src/Accumulator/Processable/Tests.antt =====
-- A batch with a buy and a sell for one index, and a sell for another.
use vendor.Base.{ℕ, ◌≡◌, refl, [], ◌∷◌, none, some, true, false, arith}
use vendor.Base.Map.{nat_eq}
use vendor.Accumulator.Batch.{IndividualOrderInfo, IndexState, OrderBatch}
use vendor.Accumulator.Batch.Orders.{AllAgree}
use vendor.Accumulator.Processable.{from_order_batch}
use vendor.Accumulator.Processable.Settlement.{Balances, from_order_batch-Balances}

abbrev entry : ℕ → ℕ → IndividualOrderInfo
entry trader amount = record { trader_address = trader; amount = amount; is_buy = false }

abbrev mixed : IndexState
mixed = record {
  index_id = 9;
  net_collateral_change = 46;
  total_deposits = 50;
  total_withdrawals = 4;
  order_count = 2;
  deposit_count = 1;
  withdrawal_count = 1;
  first_order_time = 4;
  last_order_time = 5;
  vault_address = some 77;
  individual_orders = record { trader_address = 7; amount = 50; is_buy = true } ∷ entry 8 4 ∷ [];
}

abbrev selling : IndexState
selling = record {
  index_id = 2;
  net_collateral_change = 0;
  total_deposits = 0;
  total_withdrawals = 6;
  order_count = 1;
  deposit_count = 0;
  withdrawal_count = 1;
  first_order_time = 4;
  last_order_time = 5;
  vault_address = none;
  individual_orders = entry 7 6 ∷ [];
}

abbrev batch : OrderBatch
batch = record {
  indices = (9, mixed) ∷ (2, selling) ∷ [];
  batch_window_ms = 100;
  created_at = 0;
  start_block = 0;
  current_block = 0;
  flush_trigger = none;
}

batch-AllAgree : AllAgree batch.indices
batch-AllAgree = (
  record {
    deposits = refl;
    withdrawals = refl;
    deposit_number = refl;
    withdrawal_number = refl;
    number = refl;
    net_below = omega arith;
    deposits_fit = omega arith;
    withdrawals_fit = omega arith;
  },
  (
    record {
      deposits = refl;
      withdrawals = refl;
      deposit_number = refl;
      withdrawal_number = refl;
      number = refl;
      net_below = omega arith;
      deposits_fit = omega arith;
      withdrawals_fit = omega arith;
    },
    tt,
  ),
)

from_order_batch-Balances_example : Balances (from_order_batch 10 batch)
from_order_batch-Balances_example = from_order_batch-Balances 10 batch batch-AllAgree

batch-ids : (from_order_batch 10 batch).unique_index_ids ≡ 2 ∷ 9 ∷ []
unfolding from_order_batch
batch-ids = refl
