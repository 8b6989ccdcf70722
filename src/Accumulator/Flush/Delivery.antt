-- ===== src/Accumulator/Flush/Delivery.antt =====
-- `OrderAccumulator` (bin/keeper/src/accumulator/accumulator.rs): the orders received against those
-- handed out in batches.
use vendor.Base.{
  ℕ, ◌+◌, ◌≤◌, ◌≡◌, inl, inr, refl, sym, ap, subst, ◌∙◌, List, [], ◌∷◌, ◌++◌, nat_beq,
  if◌then◌else◌, arith, Bool-cases, returns, append-nil, append_assoc,
}
use vendor.Base.Map.{nat_eq}
use vendor.Uint256.{Uint256}
use vendor.Amount.{IsAmount}
use vendor.Accumulator.Batch.{IndexOrder, IndividualOrderInfo, OrderBatch, should_flush, is_empty}
use vendor.Accumulator.Batch.Totals.{info_of, action_amount}
use vendor.Accumulator.Batch.Orders.{
  AllAgree, orders_of, added, add_order_lem, new_with_block-orders, update_block-indices,
}
use vendor.Accumulator.Batch.Load.{load, total_for-le-load, added-load, new_with_block-load}
use vendor.Accumulator.Flush.{
  OrderAccumulator, track_block, flush_batch, flushed_list, flush_if_due, Event, receives, blocks,
  flushes, receive, step, run,
}

-- The orders for an index in the batches that were handed out.
abbrev pub delivered : ℕ → List OrderBatch → List IndividualOrderInfo
delivered j [] = []
delivered j (b ∷ bs) = orders_of j b ++ delivered j bs

-- The orders for an index among the events.
abbrev pub submitted : ℕ → List Event → List IndividualOrderInfo
submitted j [] = []
submitted j (receives now order ∷ es) =
    if nat_beq order.index_id j
    then info_of order.trader_address order.action ∷ submitted j es
    else submitted j es
submitted j (blocks n ∷ es) = submitted j es
submitted j (flushes now ∷ es) = submitted j es

abbrev pub AmountsFit : List Event → Type 0
AmountsFit [] = Unit
AmountsFit (receives now order ∷ es) = IsAmount (action_amount order.action) × AmountsFit es
AmountsFit (blocks n ∷ es) = AmountsFit es
AmountsFit (flushes now ∷ es) = AmountsFit es

-- What a call leaves: for each index, the orders handed out and those in the batch are the ones
-- that were there before, followed by `new`; and the totals of the batch agree with its orders.
record Keeps (j : ℕ) (before new : List IndividualOrderInfo)
    (out : List OrderBatch × OrderAccumulator) : Type 0 where
  same : delivered j out.0 ++ orders_of j out.1.current_batch ≡ before ++ new
  agree : AllAgree out.1.current_batch.indices

flush_batch-Keeps :
    (j now : ℕ) (a : OrderAccumulator)
    → AllAgree a.current_batch.indices
    → let (batch, a') = flush_batch now a in
      Keeps j (orders_of j a.current_batch) [] (flushed_list batch, a')
unfolding flush_batch
flush_batch-Keeps j now a all = elim (Bool-cases (is_empty a.current_batch)) [
  | inl nothing ↦ rw nothing (record { same = sym (append-nil _); agree = all })
  | inr something ↦
      let (none_left, agree) = new_with_block-orders now a.batch_window_ms a.current_block j in
      rw something (record { same = simp (none_left, append-nil); agree = agree })
]

flush_if_due-Keeps :
    (j now : ℕ) (a : OrderAccumulator)
    → AllAgree a.current_batch.indices
    → Keeps j (orders_of j a.current_batch) [] (flush_if_due now a)
unfolding flush_if_due
flush_if_due-Keeps j now a all = elim (Bool-cases (should_flush now a.current_batch)) [
  | inl due ↦ rw due (flush_batch-Keeps j now a all)
  | inr not_due ↦ rw not_due (record { same = sym (append-nil _); agree = all })
]

returns-injective {ℓ} : {A : Type ℓ} {x y : A} → returns x ≡ returns y → x ≡ y
returns-injective e = cc

received-orders :
    (j now : ℕ) (order : IndexOrder) (old new : List IndividualOrderInfo)
    → new ≡ (
        if nat_beq order.index_id j
        then old ++ info_of order.trader_address order.action ∷ []
        else old)
    → new ++ [] ≡ old ++ submitted j (receives now order ∷ [])
received-orders j now order old new e = elim (Bool-cases (nat_beq order.index_id j)) [
  | inl hit ↦ rw (append-nil, e, hit)
  | inr miss ↦ rw (append-nil, e, miss) (sym (append-nil old))
]

module _ ⦃u : Uint256⦄ (j : ℕ) where
  receive-Keeps :
      (now : ℕ) (order : IndexOrder) (a : OrderAccumulator)
      (out : List OrderBatch × OrderAccumulator)
      → AllAgree a.current_batch.indices
      → IsAmount (action_amount order.action)
      → receive now order a ≡ returns out
      → Keeps j (orders_of j a.current_batch) (submitted j (receives now order ∷ [])) out
  unfolding receive
  receive-Keeps now order a out all fit e =
      elim (add_order_lem now j order a.current_batch all fit) [
        | inl (room, done, agree, orders) ↦
            let a' : OrderAccumulator = record a {
              current_batch = added now order a.current_batch;
            } in
            let k = flush_if_due-Keeps j now a' agree in
            let result : flush_if_due now a' ≡ out = returns-injective (rw done at e) in
            subst (Keeps j (orders_of j a.current_batch) (submitted j (receives now order ∷ [])))
              result
              (record {
                same = k.same ∙ received-orders j now order (orders_of j a.current_batch) _ orders;
                agree = k.agree;
              })
        | inr (over, panic) ↦ absurd (cc)
      ]

  step-Keeps :
      (a : OrderAccumulator) (e : Event) (out : List OrderBatch × OrderAccumulator)
      → AllAgree a.current_batch.indices
      → AmountsFit (e ∷ [])
      → step a e ≡ returns out
      → Keeps j (orders_of j a.current_batch) (submitted j (e ∷ [])) out
  unfolding step track_block
  step-Keeps a (receives now order) out all fit e = receive-Keeps now order a out all fit.0 e
  step-Keeps a (blocks n) out all fit e =
      subst (Keeps j (orders_of j a.current_batch) []) (returns-injective e) (record {
        same =
            ap (λ m. orders_of j (record a.current_batch { indices = m }))
              (update_block-indices n a.current_batch)
            ∙ sym (append-nil _);
        agree = rw (update_block-indices n a.current_batch) all;
      })
  step-Keeps a (flushes now) out all fit e =
      subst (Keeps j (orders_of j a.current_batch) []) (returns-injective e)
        (flush_batch-Keeps j now a all)

  submitted-cons :
      (e : Event) (es : List Event) → submitted j (e ∷ es) ≡ submitted j (e ∷ []) ++ submitted j es
  submitted-cons (receives now order) es = ground arith
  submitted-cons (blocks n) es = refl
  submitted-cons (flushes now) es = refl

  AmountsFit-cons :
      (e : Event) (es : List Event) → AmountsFit (e ∷ es) → AmountsFit (e ∷ []) × AmountsFit es
  AmountsFit-cons (receives now order) es fit = ((fit.0, tt), fit.1)
  AmountsFit-cons (blocks n) es fit = (tt, fit)
  AmountsFit-cons (flushes now) es fit = (tt, fit)

  delivered-append :
      (xs ys : List OrderBatch) → delivered j (xs ++ ys) ≡ delivered j xs ++ delivered j ys
  delivered-append [] ys = refl
  delivered-append (x ∷ xs) ys =
      rw (delivered-append xs ys) (sym (append_assoc (orders_of j x) _ _))

-- The amounts of the orders among the events.
abbrev pub volume : List Event → ℕ
volume [] = 0
volume (receives now order ∷ es) = action_amount order.action + volume es
volume (blocks n ∷ es) = volume es
volume (flushes now ∷ es) = volume es

volume-AmountsFit : (es : List Event) → IsAmount (volume es) → AmountsFit es
volume-AmountsFit [] h = tt
volume-AmountsFit (receives now order ∷ es) h = (omega arith, volume-AmountsFit es (omega arith))
volume-AmountsFit (blocks n ∷ es) h = volume-AmountsFit es h
volume-AmountsFit (flushes now ∷ es) h = volume-AmountsFit es h

volume-cons : (e : Event) (es : List Event) → volume (e ∷ es) ≡ volume (e ∷ []) + volume es
volume-cons (receives now order) es = omega arith
volume-cons (blocks n) es = omega arith
volume-cons (flushes now) es = omega arith

abbrev batch_load : OrderAccumulator → ℕ
batch_load a = load a.current_batch.indices

flush_batch-load :
    (now : ℕ) (a : OrderAccumulator) → batch_load (flush_batch now a).1 ≤ batch_load a
unfolding flush_batch
flush_batch-load now a = ground (arith, new_with_block-load now a.batch_window_ms a.current_block)

flush_if_due-load :
    (now : ℕ) (a : OrderAccumulator) → batch_load (flush_if_due now a).1 ≤ batch_load a
unfolding flush_if_due
flush_if_due-load now a = ground (arith, flush_batch-load now a)

module _ ⦃u : Uint256⦄ where
  step-returns :
      (a : OrderAccumulator) (e : Event)
      → AllAgree a.current_batch.indices
      → IsAmount (batch_load a + volume (e ∷ []))
      → (out : List OrderBatch × OrderAccumulator) × (step a e ≡ returns out)
        × (batch_load out.1 ≤ batch_load a + volume (e ∷ []))
  unfolding step receive track_block
  step-returns a (receives now order) all fit =
      elim (add_order_lem now 0 order a.current_batch all (omega arith)) [
        | inl (room, done, agree, orders) ↦
            let a' : OrderAccumulator = record a {
              current_batch = added now order a.current_batch;
            } in
            (
              flush_if_due now a',
              rw done,
              omega (arith, flush_if_due-load now a', added-load now order a.current_batch),
            )
        | inr (over, panic) ↦ absurd (omega (arith, total_for-le-load now order a.current_batch))
      ]
  step-returns a (blocks n) all fit =
      (_, refl, rw (update_block-indices n a.current_batch) (omega arith))
  step-returns a (flushes now) all fit = (_, refl, omega (arith, flush_batch-load now a))

  -- Let the totals of every index in the current batch agree with its orders. Any events whose
  -- amounts, with those already in the batch, fit an amount together run without a panic. For every
  -- index, the orders handed out in batches and those left in the current batch are then the ones
  -- that were in the batch and those received, in the order of receipt;
  -- and the totals agree with the orders again.
  pub run_delivers :
      (j : ℕ) (a : OrderAccumulator) (es : List Event)
      → AllAgree a.current_batch.indices
      → IsAmount (batch_load a + volume es)
      → (out : List OrderBatch × OrderAccumulator) × (run a es ≡ returns out)
        × (delivered j out.0 ++ orders_of j out.1.current_batch
            ≡ orders_of j a.current_batch ++ submitted j es)
        × AllAgree out.1.current_batch.indices
  unfolding run
  run_delivers j a [] all fit = (([], a), refl, sym (append-nil _), all)
  run_delivers j a (e ∷ es) all fit =
      let (out, one, light) = step-returns a e all (omega (arith, volume-cons e es)) in
      let k =
        step-Keeps j a e out all (volume-AmountsFit (e ∷ []) (omega (arith, volume-cons e es)))
          one in
      let (out', rest, kept, agree) =
        run_delivers j out.1 es k.agree (omega (arith, light, volume-cons e es)) in
      (
        (out.0 ++ out'.0, out'.1),
        rw (one, rest),
        rw (delivered-append j out.0 out'.0, submitted-cons j e es)
            (append_assoc (delivered j out.0) (delivered j out'.0) _
              ∙ ap (◌++◌ (delivered j out.0)) kept
              ∙ sym (
                  append_assoc (delivered j out.0) (orders_of j out.1.current_batch)
                    (submitted j es))
              ∙ ap (λ x. x ++ submitted j es) k.same
              ∙ append_assoc (orders_of j a.current_batch) (submitted j (e ∷ [])) (submitted j es)),
        agree,
      )
