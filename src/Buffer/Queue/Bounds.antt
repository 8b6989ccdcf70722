-- ===== src/Buffer/Queue/Bounds.antt =====
-- `OrderBuffer` (bin/vendor/src/buffer/queue.rs): its limit, and the batch operations.
use vendor.Base.{
  length-snoc, ℕ, suc, ◌+◌, ◌-◌, ◌≤◌, ◌<◌, ◌≡◌, refl, ◌∙◌, inl, inr, ap, List, [], ◌∷◌, ◌++◌, min,
  leb, length, take, arith, length-append, length-take, length-drop, append-nil, append_assoc,
  Bool-cases, leb→lt, take_all, tests, zero,
}
use native.Mathlib.Nat.{sub-zero}
use vendor.Buffer.Order.{BufferedOrder}
use vendor.Buffer.Queue.{
  OrderBuffer, new_buffer, push, push_loop, push_batch, pop_batch, pop, pop_front, drain_all,
  restore, restore_loop, available_capacity, get_all, Call, pushes, push_batches, pops, pop_batches,
  drains, restores, step, run,
}

abbrev pub IsBounded : OrderBuffer → Type 0
IsBounded b = length b.queue ≤ b.max_size

take_nil : (n : ℕ) → take {A = BufferedOrder} n [] ≡ []
take_nil zero = refl
take_nil (suc n) = refl

-- One more order on a queue with room for it, before the orders that follow.
take_step :
    (max_size : ℕ) (order : BufferedOrder) (orders queue : List BufferedOrder)
    → length queue < max_size
    → (queue ++ order ∷ []) ++ take (max_size - length (queue ++ order ∷ [])) orders
      ≡ queue ++ take (max_size - length queue) (order ∷ orders)
take_step max_size order orders queue h =
    let room : max_size - length queue ≡ suc (max_size - (length queue + 1)) = omega arith in
    rw (length-snoc queue order, room, append_assoc queue (order ∷ []) (take _ orders))

-- The loop appends as many orders as there is room for, and counts them.
push_loop_lem :
    (max_size : ℕ) (orders queue : List BufferedOrder) (pushed : ℕ)
    → (push_loop max_size orders queue pushed).0 ≡ queue ++ take (max_size - length queue) orders
unfolding push_loop
push_loop_lem max_size [] queue pushed = rw (take_nil, append-nil)
push_loop_lem max_size (order ∷ orders) queue pushed =
    elim (Bool-cases (leb max_size (length queue))) [
      | inl full ↦
          let none_left : max_size - length queue ≡ 0 = omega (tests, full) in
          rw (full, none_left, push_loop, append-nil)
      | inr room ↦
          rw (room, push_loop)
            (push_loop_lem max_size orders (queue ++ order ∷ []) (pushed + 1)
              ∙ take_step max_size order orders queue (ground arith))
    ]

push_loop_count :
    (max_size : ℕ) (orders queue : List BufferedOrder) (pushed : ℕ)
    → (push_loop max_size orders queue pushed).1
      ≡ pushed + min (max_size - length queue) (length orders)
unfolding push_loop
push_loop_count max_size [] queue pushed = omega arith
push_loop_count max_size (order ∷ orders) queue pushed = ground (
  arith,
  length-snoc queue order,
  push_loop_count max_size orders (queue ++ order ∷ []) (pushed + 1),
)

restore_loop_lem :
    (max_size : ℕ) (orders queue : List BufferedOrder)
    → length queue ≤ max_size
    → restore_loop max_size orders queue ≡ queue ++ take (max_size - length queue) orders
unfolding restore_loop
restore_loop_lem max_size [] queue h = rw (take_nil, append-nil)
restore_loop_lem max_size (order ∷ orders) queue h =
    elim (Bool-cases (leb max_size (length queue))) [
      | inl full ↦
          let none_left : max_size - length queue ≡ 0 = omega (tests, full) in
          rw (full, restore_loop) (restore_loop_lem max_size orders queue h ∙ rw none_left)
      | inr room ↦
          rw (room, restore_loop)
            (restore_loop_lem max_size orders (queue ++ order ∷ [])
                (omega (arith, length-snoc queue order, leb→lt max_size (length queue) room))
              ∙ take_step max_size order orders queue (ground arith))
    ]

-- `push_batch` reports how many orders fit, and appends exactly those, in order; it changes
-- nothing else.
pub push_batch_lem :
    (orders : List BufferedOrder) (b : OrderBuffer)
    → let fitting = take (available_capacity b) orders in
      ((push_batch orders b).0 ≡ length fitting)
      × ((push_batch orders b).1 ≡ record b { queue = b.queue ++ fitting })
unfolding push_batch available_capacity
push_batch_lem orders b = (
  push_loop_count b.max_size orders b.queue 0
      ∙ omega (arith, length-take (b.max_size - length b.queue) orders),
  rw (push_loop_lem b.max_size orders b.queue 0),
)

-- `restore` keeps the first orders that fit, and drops the queue that was there.
pub restore_lem :
    (orders : List BufferedOrder) (b : OrderBuffer)
    → restore orders b ≡ record b { queue = take b.max_size orders }
unfolding restore
restore_lem orders b = rw (restore_loop_lem b.max_size orders [] (omega arith), sub-zero)

-- What `get_all` saved, `restore` brings back into a buffer of the same size.
pub restore-get_all :
    (saved b : OrderBuffer)
    → IsBounded saved
    → b.max_size ≡ saved.max_size
    → get_all (restore (get_all saved) b) ≡ get_all saved
unfolding get_all
restore-get_all saved b h e =
    rw (restore_lem saved.queue b) (take_all b.max_size saved.queue (omega arith))

pop_front-IsBounded :
    (queue : List BufferedOrder) (b : OrderBuffer)
    → b.queue ≡ queue
    → IsBounded b
    → IsBounded (pop_front queue b).1 × ((pop_front queue b).1.max_size ≡ b.max_size)
unfolding pop_front
pop_front-IsBounded [] b e h = (h, refl)
pop_front-IsBounded (order ∷ rest) b e h = (omega (arith, ap length e), refl)

-- Every call keeps the queue within its limit, and the limit as it was.
pub step-IsBounded :
    (b : OrderBuffer) (c : Call)
    → IsBounded b
    → IsBounded (step b c) × ((step b c).max_size ≡ b.max_size)
unfolding step pop
step-IsBounded b (pushes order) h = unfold push in ground (arith, length-snoc b.queue order)
step-IsBounded b (push_batches orders) h = rw (push_batch_lem orders b).1 (
  unfold available_capacity in
      omega (
        arith,
        length-append b.queue (take (b.max_size - length b.queue) orders),
        length-take (b.max_size - length b.queue) orders,
      ),
  refl,
)
step-IsBounded b pops h = pop_front-IsBounded b.queue b refl h
step-IsBounded b (pop_batches max) h =
    unfold pop_batch in (omega (arith, length-drop (min max (length b.queue)) b.queue), refl)
step-IsBounded b drains h = unfold drain_all in (omega arith, refl)
step-IsBounded b (restores orders) h =
    rw (restore_lem orders b) (omega (arith, length-take b.max_size orders), refl)

run_bounded :
    {n : ℕ} (b : OrderBuffer) (cs : List Call)
    → IsBounded b
    → b.max_size ≡ n
    → length (run b cs).queue ≤ n
unfolding run
run_bounded b [] h e = omega arith
run_bounded b (c ∷ cs) h e =
    let (kept, same) = step-IsBounded b c h in run_bounded (step b c) cs kept (same ∙ e)

-- The queue holds at most `max_size` orders after any calls on a new buffer.
pub run-IsBounded :
    (max_size : ℕ) (cs : List Call) → length (run (new_buffer max_size) cs).queue ≤ max_size
unfolding new_buffer
run-IsBounded max_size cs = run_bounded (new_buffer max_size) cs (omega arith) refl
