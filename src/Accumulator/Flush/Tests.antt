-- ===== src/Accumulator/Flush/Tests.antt =====
-- The accumulator on three orders for two indices.
use vendor.Base.{ℕ, ◌≡◌, ◌++◌, refl, List, [], ◌∷◌, none, some, Bool, true, false, arith, returns}
use vendor.Base.Map.{nat_eq}
use vendor.Uint256.{reference}
use vendor.Accumulator.Batch.{new_batch, new_with_block}
use vendor.Accumulator.Flush.{new_accumulator}
use vendor.Accumulator.Batch.{
  OrderAction, deposit, withdraw, IndexOrder, IndividualOrderInfo, OrderBatch,
}
use vendor.Accumulator.Batch.Orders.{AllAgree, orders_of}
use vendor.Accumulator.Flush.{OrderAccumulator, Event, receives, blocks, flushes, run}
use vendor.Accumulator.Flush.Delivery.{delivered, submitted, run_delivers}

abbrev order : ℕ → OrderAction → ℕ → IndexOrder
order index_id action trader = record {
  index_id = index_id;
  action = action;
  timestamp = 5;
  vault_address = none;
  trader_address = some trader;
  tx_hash = none;
  correlation_id = none;
}

abbrev fresh : OrderAccumulator
fresh = record {
  batch_window_ms = 100;
  max_batch_size = 10;
  current_batch = record {
    indices = [];
    batch_window_ms = 100;
    created_at = 0;
    start_block = 0;
    current_block = 0;
    flush_trigger = none;
  };
  current_block = 0;
}

-- Two orders, a block, an order that is due for a flush at once, and a flush of nothing.
abbrev events : List Event
events =
    receives 10 (order 1 (deposit "alice" 50) 7)
    ∷ blocks 3
    ∷ receives 20 (order 2 (withdraw "bob" 4) 8)
    ∷ receives 200 (order 1 (withdraw "alice" 9) 7)
    ∷ flushes 210
    ∷ []

run_delivers_example :
    (out : List OrderBatch × OrderAccumulator) × (run fresh events ≡ returns out)
    × (delivered 1 out.0 ++ orders_of 1 out.1.current_batch
        ≡ orders_of 1 fresh.current_batch ++ submitted 1 events)
    × AllAgree out.1.current_batch.indices
run_delivers_example = run_delivers 1 fresh events tt (omega arith)

-- The orders of index 1, as the flush after 100 milliseconds hands them out.
abbrev entry : ℕ → Bool → IndividualOrderInfo
entry amount is_buy = record { trader_address = 7; amount = amount; is_buy = is_buy }

submitted-events : submitted 1 events ≡ entry 50 true ∷ entry 9 false ∷ []
submitted-events = refl

-- A new accumulator starts with an empty batch.
new_accumulator-fresh : new_accumulator 0 100 10 ≡ fresh
unfolding new_accumulator new_batch new_with_block
new_accumulator-fresh = refl
