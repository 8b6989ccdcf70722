-- ===== src/Buffer/Queue/Tests.antt =====
-- A queue of at most two orders.
use vendor.Base.{ℕ, ◌≤◌, ◌≡◌, ◌++◌, refl, List, [], ◌∷◌, some, true, length}
use vendor.Base.Int.{pos}
use vendor.Buffer.Order.{BufferOrderSide, BufferedOrder, new_order}
use vendor.Buffer.Queue.{
  OrderBuffer, new_buffer, peek, is_full, stats, Call, pushes, push_batches, pops, pop_batches,
  drains, run,
}
use vendor.Buffer.Queue.Bounds.{run-IsBounded}
use vendor.Buffer.Queue.Fifo.{all_accepted, all_handed_out, run-Fifo}

abbrev order : ℕ → BufferedOrder
order id = new_order 3 id "BTC" BufferOrderSide.buy 5 "id"

abbrev one : OrderBuffer
one = record { queue = order 1 ∷ []; max_size = 2; total_processed = 0 }

abbrev calls : List Call
calls =
    push_batches (order 2 ∷ order 3 ∷ []) ∷ pops ∷ pushes (order 4) ∷ pop_batches 5 ∷ drains ∷ []

run-Fifo_example :
    one.queue ++ all_accepted one calls ≡ all_handed_out one calls ++ (run one calls).queue
run-Fifo_example = run-Fifo one calls (tt, (tt, (tt, (tt, (tt, tt)))))

run-IsBounded_example : length (run (new_buffer 2) calls).queue ≤ 2
run-IsBounded_example = run-IsBounded 2 calls

looks :
    (peek one ≡ some (order 1))
    × (is_full (record one { max_size = 1 }) ≡ true)
    × ((stats 300 3 one).oldest_order_age_ms ≡ pos 297)
unfolding peek is_full stats
looks = (refl, refl, refl)
