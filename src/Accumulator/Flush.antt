-- ===== src/Accumulator/Flush.antt =====
-- `OrderAccumulator` of bin/keeper/src/accumulator/accumulator.rs: the current batch, and the
-- loop of `start_processing`. The channel delivers the submitted orders one by one, in order; the
-- keeper loop flushes too, through `flush_batch`.
pub mod Delivery
mod Tests
use vendor.Base.{
  ℕ, List, [], ◌∷◌, ◌++◌, Option, none, some, Bool, true, false, if◌then◌else◌, unwrap_or, Outcome,
  returns, panics, ◌>>=◌,
}
use vendor.Uint256.{Uint256}
use vendor.Accumulator.Batch.{
  FlushTrigger, manual, IndexOrder, OrderBatch, new_batch, new_with_block, update_block, add_order,
  get_flush_trigger, should_flush, is_empty,
}

pub record OrderAccumulator : Type 0 where
  pub batch_window_ms : ℕ
  pub max_batch_size : ℕ
  pub current_batch : OrderBatch
  pub current_block : ℕ

pub new_accumulator : ℕ → ℕ → ℕ → OrderAccumulator
new_accumulator now batch_window_ms max_batch_size = record {
  batch_window_ms = batch_window_ms;
  max_batch_size = max_batch_size;
  current_batch = new_batch now batch_window_ms;
  current_block = 0;
}

-- `OrderAccumulator::update_block`
pub track_block : ℕ → OrderAccumulator → OrderAccumulator
track_block block_number a = record a {
  current_block = block_number;
  current_batch = update_block block_number a.current_batch;
}

pub flush_batch : ℕ → OrderAccumulator → Option OrderBatch × OrderAccumulator
flush_batch now a =
    let batch = a.current_batch in
    let trigger = unwrap_or (get_flush_trigger now batch) manual in
    let old_batch : OrderBatch = record batch { flush_trigger = some trigger } in
    if is_empty batch then (none, a) else (
      some old_batch,
      record a { current_batch = new_with_block now a.batch_window_ms a.current_block },
    )

-- The batch that `on_flush` is called with, if any.
abbrev pub flushed_list : Option OrderBatch → List OrderBatch
flushed_list none = []
flushed_list (some b) = b ∷ []

-- `if should_flush() { if let Some(batch) = flush_batch() { on_flush(batch) } }`
pub flush_if_due : ℕ → OrderAccumulator → List OrderBatch × OrderAccumulator
flush_if_due now a =
    let (batch, a') = flush_batch now a in
    if should_flush now a.current_batch then (flushed_list batch, a') else ([], a)

-- What happens to the accumulator: an order is received, a block is seen, or the keeper flushes.
pub data Event : Type 0 where
  receives : ℕ → IndexOrder → Event
  blocks : ℕ → Event
  flushes : ℕ → Event

module _ ⦃u : Uint256⦄ where
  -- The body of the loop in `start_processing`.
  pub receive : ℕ → IndexOrder → OrderAccumulator → Outcome (List OrderBatch × OrderAccumulator)
  receive now order a = do
    batch ← add_order now order a.current_batch
    returns (flush_if_due now (record a { current_batch = batch }))

  pub step : OrderAccumulator → Event → Outcome (List OrderBatch × OrderAccumulator)
  unfolding receive
  step a (receives now order) = receive now order a
  step a (blocks block_number) = returns ([], track_block block_number a)
  step a (flushes now) = let (batch, a') = flush_batch now a in returns (flushed_list batch, a')

  pub run : OrderAccumulator → List Event → Outcome (List OrderBatch × OrderAccumulator)
  run a [] = returns ([], a)
  run a (e ∷ es) = do out ← step a e; out' ← run out.1 es; returns (out.0 ++ out'.0, out'.1)
