-- ===== src/Buffer/Queue.antt =====
-- `OrderBuffer` of bin/vendor/src/buffer/queue.rs: a bounded queue, oldest order first, with a
-- wrapping 64-bit counter of the orders popped.
pub mod Bounds
pub mod Fifo
mod Tests
use vendor.Base.{
  ℕ, suc, ◌+◌, ◌-◌, ◌%◌, ◌≤◌, List, [], ◌∷◌, ◌++◌, Option, none, some, Bool, true, false, min, leb,
  nat_beq, if◌then◌else◌, length, take, drop, Result, ok, err,
}
use vendor.Base.Int.{pos}
use vendor.Buffer.Order.{BufferedOrder, BufferStats, age_ms}
use vendor.Uint256.{u64_mod}

pub record OrderBuffer : Type 0 where
  pub queue : List BufferedOrder
  pub max_size : ℕ
  pub total_processed : ℕ

pub record BufferFullError : Type 0 where
  pub queue_depth : ℕ
  pub max_size : ℕ

pub new_buffer : ℕ → OrderBuffer
new_buffer max_size = record { queue = []; max_size = max_size; total_processed = 0 }

pub push : BufferedOrder → OrderBuffer → Result (Unit {0}) BufferFullError × OrderBuffer
push order b =
    if leb b.max_size (length b.queue)
    then (err (record { queue_depth = length b.queue; max_size = b.max_size }), b)
    else (ok tt, record b { queue = b.queue ++ order ∷ [] })

-- The loop of `push_batch`: the queue so far and the number pushed; `break` on a full queue.
pub push_loop : ℕ → List BufferedOrder → List BufferedOrder → ℕ → List BufferedOrder × ℕ
push_loop max_size [] queue pushed = (queue, pushed)
push_loop max_size (order ∷ orders) queue pushed = elim (leb max_size (length queue)) [
  | true ↦ (queue, pushed)
  | false ↦ push_loop max_size orders (queue ++ order ∷ []) (pushed + 1)
]

pub push_batch : List BufferedOrder → OrderBuffer → ℕ × OrderBuffer
unfolding push_loop
push_batch orders b =
    let (queue, pushed) = push_loop b.max_size orders b.queue 0 in
    (pushed, record b { queue = queue })

pub pop_batch : ℕ → OrderBuffer → List BufferedOrder × OrderBuffer
pop_batch max b =
    let count = min max (length b.queue) in
    let batch = take count b.queue in
    let rest = drop count b.queue in
    let processed = (b.total_processed + length batch) % u64_mod in
    (
      batch,
      record b {
        queue = rest;
        total_processed = if nat_beq (length batch) 0 then b.total_processed else processed;
      },
    )

pub pop_front : List BufferedOrder → OrderBuffer → Option BufferedOrder × OrderBuffer
pop_front [] b = (none, b)
pop_front (order ∷ rest) b =
    (some order, record b { queue = rest; total_processed = (b.total_processed + 1) % u64_mod })

pub pop : OrderBuffer → Option BufferedOrder × OrderBuffer
unfolding pop_front
pop b = pop_front b.queue b

pub peek : OrderBuffer → Option BufferedOrder
peek b = elim b.queue [ [] ↦ none | order ∷ rest ↦ some order ]

pub is_full : OrderBuffer → Bool
is_full b = leb b.max_size (length b.queue)

pub available_capacity : OrderBuffer → ℕ
available_capacity b = b.max_size - length b.queue

pub get_all : OrderBuffer → List BufferedOrder
get_all b = b.queue

pub drain_all : OrderBuffer → List BufferedOrder × OrderBuffer
drain_all b = (b.queue, record b { queue = [] })

-- The loop of `restore` goes on over a full queue, and pushes nothing more.
pub restore_loop : ℕ → List BufferedOrder → List BufferedOrder → List BufferedOrder
restore_loop max_size [] queue = queue
restore_loop max_size (order ∷ orders) queue =
    restore_loop max_size orders
      (if leb max_size (length queue) then queue else queue ++ order ∷ [])

pub restore : List BufferedOrder → OrderBuffer → OrderBuffer
unfolding restore_loop
restore orders b = record b { queue = restore_loop b.max_size orders [] }

pub stats : ℕ → ℕ → OrderBuffer → BufferStats
stats now last_checkpoint b = record {
  queue_depth = length b.queue;
  buffered_assets = 0;
  oldest_order_age_ms = elim b.queue [ [] ↦ pos 0 | order ∷ rest ↦ age_ms now order ];
  total_processed = b.total_processed;
  last_checkpoint = last_checkpoint;
}

-- The calls that change the buffer.
pub data Call : Type 0 where
  pushes : BufferedOrder → Call
  push_batches : List BufferedOrder → Call
  pops : Call
  pop_batches : ℕ → Call
  drains : Call
  restores : List BufferedOrder → Call

pub step : OrderBuffer → Call → OrderBuffer
step b (pushes order) = (push order b).1
step b (push_batches orders) = (push_batch orders b).1
step b pops = (pop b).1
step b (pop_batches max) = (pop_batch max b).1
step b drains = (drain_all b).1
step b (restores orders) = restore orders b

pub run : OrderBuffer → List Call → OrderBuffer
run b [] = b
run b (c ∷ cs) = run (step b c) cs
