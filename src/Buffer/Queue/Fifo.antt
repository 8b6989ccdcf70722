-- ===== src/Buffer/Queue/Fifo.antt =====
-- The buffer as its callers see it: what the calls accepted, against what they handed out.
use vendor.Base.{
  ℕ, zero, suc, ◌+◌, ◌%◌, ◌<◌, ◌≡◌, refl, sym, ◌∙◌, ap, List, [], ◌∷◌, ◌++◌, Option, none, some,
  min, length, take, ok, err, arith, length-append, append-nil, append_assoc, take-append-drop, All,
}
use vendor.Uint256.{u64_mod}
use vendor.Buffer.Order.{BufferedOrder}
use vendor.Buffer.Queue.{
  OrderBuffer, push, push_batch, pop_batch, pop, pop_front, drain_all, Call, pushes, push_batches,
  pops, pop_batches, drains, restores, step, run,
}
use vendor.Buffer.Queue.Bounds.{push_batch_lem, restore_lem}

-- The orders that a call reports as accepted.
accepted : OrderBuffer → Call → List BufferedOrder
accepted b (pushes order) = elim (push order b).0 [ ok _ ↦ order ∷ [] | err _ ↦ [] ]
accepted b (push_batches orders) = take (push_batch orders b).0 orders
accepted b _ = []

abbrev to_list : Option BufferedOrder → List BufferedOrder
to_list none = []
to_list (some order) = order ∷ []

-- The orders that a call hands out, and those of them that it counts as processed.
popped : OrderBuffer → Call → List BufferedOrder
popped b pops = to_list (pop b).0
popped b (pop_batches max) = (pop_batch max b).0
popped b _ = []

handed_out : OrderBuffer → Call → List BufferedOrder
unfolding popped
handed_out b drains = (drain_all b).0
handed_out b c = popped b c

-- Every call but `restore`, which replaces the queue.
abbrev pub Keeps : Call → Type 0
Keeps (restores orders) = ⊥
Keeps (pushes order) = Unit
Keeps (push_batches orders) = Unit
Keeps pops = Unit
Keeps (pop_batches max) = Unit
Keeps drains = Unit

-- The same over a run, in the order of the calls.
pub all_accepted : OrderBuffer → List Call → List BufferedOrder
unfolding accepted
all_accepted b [] = []
all_accepted b (c ∷ cs) = accepted b c ++ all_accepted (step b c) cs

pub all_handed_out : OrderBuffer → List Call → List BufferedOrder
unfolding handed_out
all_handed_out b [] = []
all_handed_out b (c ∷ cs) = handed_out b c ++ all_handed_out (step b c) cs

pub all_popped : OrderBuffer → List Call → List BufferedOrder
unfolding popped
all_popped b [] = []
all_popped b (c ∷ cs) = popped b c ++ all_popped (step b c) cs

take-length-take : (n : ℕ) (xs : List BufferedOrder) → take (length (take n xs)) xs ≡ take n xs
take-length-take zero xs = refl
take-length-take (suc n) [] = refl
take-length-take (suc n) (x ∷ xs) = ap (◌∷◌ x) (take-length-take n xs)

pop_front-Fifo :
    (queue : List BufferedOrder) (b : OrderBuffer)
    → b.queue ≡ queue
    → queue ≡ to_list (pop_front queue b).0 ++ (pop_front queue b).1.queue
unfolding pop_front
pop_front-Fifo [] b e = sym e
pop_front-Fifo (order ∷ rest) b e = refl

step-Fifo :
    (b : OrderBuffer) (c : Call)
    → Keeps c
    → b.queue ++ accepted b c ≡ handed_out b c ++ (step b c).queue
unfolding step accepted handed_out pop drain_all pop_batch push
step-Fifo b (pushes order) k = ground (arith, append-nil b.queue)
step-Fifo b (push_batches orders) k =
    let (count, next) = push_batch_lem orders b in
    rw (next, count) (ap (◌++◌ b.queue) (take-length-take _ orders))
step-Fifo b pops k = append-nil b.queue ∙ pop_front-Fifo b.queue b refl
step-Fifo b (pop_batches max) k =
    append-nil b.queue ∙ sym (take-append-drop (min max (length b.queue)) b.queue)
step-Fifo b drains k = refl
step-Fifo b (restores orders) k = absurd k

-- Over any calls but `restore`, what was queued and then accepted is what was handed out and is
-- still queued, in the same order: no order is lost, repeated or overtaken.
pub run-Fifo :
    (b : OrderBuffer) (cs : List Call)
    → All Keeps cs
    → b.queue ++ all_accepted b cs ≡ all_handed_out b cs ++ (run b cs).queue
unfolding run all_accepted all_handed_out
run-Fifo b [] k = append-nil b.queue
run-Fifo b (c ∷ cs) k =
    sym (append_assoc b.queue (accepted b c) (all_accepted (step b c) cs))
    ∙ ap (λ q. q ++ all_accepted (step b c) cs) (step-Fifo b c k.0)
    ∙ append_assoc (handed_out b c) (step b c).queue (all_accepted (step b c) cs)
    ∙ ap (◌++◌ (handed_out b c)) (run-Fifo (step b c) cs k.1)
    ∙ sym (append_assoc (handed_out b c) (all_handed_out (step b c) cs) _)

pop_front-counts :
    (queue : List BufferedOrder) (b : OrderBuffer)
    → b.total_processed < u64_mod
    → (pop_front queue b).1.total_processed
      ≡ (b.total_processed + length (to_list (pop_front queue b).0)) % u64_mod
unfolding pop_front
pop_front-counts [] b h = omega arith
pop_front-counts (order ∷ rest) b h = omega arith

step-counts :
    (b : OrderBuffer) (c : Call)
    → b.total_processed < u64_mod
    → (step b c).total_processed ≡ (b.total_processed + length (popped b c)) % u64_mod
unfolding step popped pop pop_batch push
step-counts b (pushes order) h = ground arith
step-counts b (push_batches orders) h = rw (push_batch_lem orders b).1 (omega arith)
step-counts b pops h = pop_front-counts b.queue b h
step-counts b (pop_batches max) h = ground arith
step-counts b drains h = unfold drain_all in omega arith
step-counts b (restores orders) h = rw (restore_lem orders b) (omega arith)

-- The counter is the number of orders popped, one by one or in batches, modulo 2 ^ 64; draining
-- and restoring do not count.
pub run-total_processed :
    (b : OrderBuffer) (cs : List Call)
    → b.total_processed < u64_mod
    → (run b cs).total_processed ≡ (b.total_processed + length (all_popped b cs)) % u64_mod
unfolding run all_popped
run-total_processed b [] h = omega arith
run-total_processed b (c ∷ cs) h = omega (
  arith,
  step-counts b c h,
  length-append (popped b c) (all_popped (step b c) cs),
  run-total_processed (step b c) cs (omega (arith, step-counts b c h)),
)
